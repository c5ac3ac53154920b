-- ===== src/Token/Records.antt =====
-- The list of records of src/token/mod.rs under `find` and a change of the record found, and what a
-- store that works reads and writes.
use mathlib.Core.Option
use holler_server.Prelude.{
  ◌≡◌, refl, String, List, [], ◌∷◌, ◌++◌, none, some, arith, if◌then◌else◌, All, Bool-cases, inl,
  inr, ◌==◌, string_eq, eq_iff,
}
use holler_server.Token.Record.{TokenRecord, Platform, IsLawful, ok}
use holler_server.Token.Disk.{Disk, load, save}
use holler_server.Token.Store.{find_record, change_record}

-- A change that leaves the name of a record alone.
abbrev KeepsId : (TokenRecord → TokenRecord) → Type 0
KeepsId f = (r : TokenRecord) → (f r).token_id ≡ r.token_id

pub find-change :
    (id : String) (f : TokenRecord → TokenRecord) (rs : List TokenRecord) (other : String)
    → KeepsId f
    → find_record other (change_record id f rs)
      ≡ (if id == other then Option.map f (find_record other rs) else find_record other rs)
unfolding find_record change_record
find-change id f [] other k = ground arith
find-change id f (r ∷ rs) other k = ground (
  arith,
  k r,
  eq_iff r.token_id id,
  eq_iff r.token_id other,
  eq_iff id other,
  find-change id f rs other k,
)

pub find-append :
    (id : String) (rs : List TokenRecord) (r : TokenRecord)
    → find_record id (rs ++ r ∷ []) ≡ (elim (find_record id rs) [
      | some x ↦ some x
      | none ↦ if r.token_id == id then some r else none
    ])
unfolding find_record
find-append id [] r = refl
find-append id (x ∷ rs) r = ground (arith, find-append id rs r)

pub All-change {κ} :
    (P : TokenRecord → Type κ) (id : String) (f : TokenRecord → TokenRecord) (rs : List TokenRecord)
    → ((r : TokenRecord) → find_record id rs ≡ some r → P r → P (f r))
    → All P rs
    → All P (change_record id f rs)
unfolding find_record change_record
All-change P id f [] h a = tt
All-change P id f (r ∷ rs) h a = elim (Bool-cases (r.token_id == id)) [
  | inl e ↦ rw e (h r (rw e refl) a.0, a.1)
  | inr e ↦ rw e (a.0, All-change P id f rs (λ x found px. h x (rw e found) px) a.1)
]

-- A store that can be locked and written, and holds these records.
pub record Stored (p : Platform) (rs : List TokenRecord) (d : Disk) : Type 0 where
  pub reads : load p d ≡ (ok rs, d)
  pub unlocked : d.lock_error ≡ none
  pub writable : d.write_error ≡ none

-- The store after these records were written.
abbrev pub written : Platform → List TokenRecord → Disk → Disk
written p rs d = (save p rs d).1

module _ (p : Platform) (l : IsLawful p) where
  pub save-Stored :
      (rs new : List TokenRecord) (d : Disk)
      → Stored p rs d
      → (save p new d ≡ (ok tt, written p new d)) × Stored p new (written p new d)
  unfolding save load
  save-Stored rs new d s =
      let (json, e) = l.to_json_total new in
      let back = l.from_json-to_json new json e in
      let full = l.to_json_not_blank new json e in
      let w = s.writable in
      let u = s.unlocked in
      (
        ground (arith, e, w),
        record {
          reads = ground (arith, e, w, back, full);
          unlocked = ground (arith, e, w, u);
          writable = ground (arith, e, w);
        },
      )
