-- ===== src/Token/Steps.antt =====
-- What each request to the store of src/token/mod.rs does to the list of records, when the store can
-- be locked and written: the refinement of the file by an abstract list of records.
use Prim.Native.String.{◌++◌ as append}
use holler_server.Prelude.{
  ℕ, ◌≡◌, refl, true, false, String, List, [], ◌∷◌, ◌++◌, Option, none, some, arith, Option-cases,
  inl, inr, string_eq, ◌⊎◌,
}
use holler_server.Token.Record.{
  TokenError, Result, ok, err, panic, StoredState, TokenRecord, Platform, IsLawful, display_state,
}
use holler_server.Token.Hex.{to_hex}
use holler_server.Token.Disk.{Disk, with_lock}
use holler_server.Token.Secret.{
  Random, bytes, failed, random_hex, require_pepper, hash_secret, verify_secret,
}
use holler_server.Token.Store.{
  find_record, change_record, unused_record, deleted, redeemable, bind_client, authenticates,
  matches_hash, mint, list, delete, redeem, verify_credential, ping, mint_with_pepper,
  redeem_with_pepper, verify_credential_with_pepper,
}
use holler_server.Token.Records.{Stored, written, save-Stored}
use holler_server.Token.History.{
  Request, mints, lists, deletes, redeems, verifies, pings, perform, outcome,
}

-- A change of the list of records.
pub data Change : List TokenRecord → List TokenRecord → Type 0 where
  kept : {rs : List TokenRecord} → Change rs rs
  minted :
      {rs : List TokenRecord}
      → (id hash : String) (label : Option String) (created expires : String)
      → Change rs (rs ++ unused_record id hash label created expires ∷ [])
  removed : {rs : List TokenRecord} → (id : String) → Change rs (change_record id deleted rs)
  joined :
      {rs : List TokenRecord}
      → (id machine client_id hash : String) (r : TokenRecord) → find_record id rs ≡ some r
      → r.state ≡ StoredState.unused
      → Change rs (change_record id (bind_client machine client_id hash) rs)
  seen :
      {rs : List TokenRecord}
      → (id at : String)
      → Change rs (change_record id (λ (x : TokenRecord). record x { last_seen = some at }) rs)

-- A result that is a value, or an error or a panic.
abbrev pub failure : {A : Type 0} → Option TokenError → Result A
failure none = panic
failure (some e) = err e

pub Result-cases :
    {A : Type 0} (x : Result A)
    → ((a : A) × (x ≡ ok a)) ⊎ ((f : Option TokenError) × (x ≡ failure f))
Result-cases (ok a) = inl (a, refl)
Result-cases (err e) = inr (some e, refl)
Result-cases panic = inr (none, refl)

module _ (p : Platform) (l : IsLawful p) where
  -- The change that a step makes, with the store that holds its result.
  abbrev pub Effect : List TokenRecord → Disk → Type 0
  Effect rs d = (new : List TokenRecord) × Change rs new × Stored p new d

  unchanged : (rs : List TokenRecord) (d d' : Disk) → Stored p rs d → d' ≡ d → Effect rs d'
  unchanged rs d d' s e = (rs, kept, rw e s)

  saved :
      (rs new : List TokenRecord) (d d' : Disk)
      → Stored p rs d
      → Change rs new
      → d' ≡ written p new d
      → Effect rs d'
  saved rs new d d' s c e = (new, c, rw e (save-Stored p l rs new d s).1)

  delete-Effect :
      (id : String) (now : ℕ) (rs : List TokenRecord) (d : Disk)
      → Stored p rs d
      → Effect rs (delete p id now d).1
  unfolding delete with_lock
  delete-Effect id now rs d s =
      let reads = s.reads in
      let u = s.unlocked in
      elim (Option-cases (find_record id rs)) [
        | inl e ↦ unchanged rs d (delete p id now d).1 s (ground (arith, reads, u, e))
        | inr (r, e) ↦
            saved rs (change_record id deleted rs) d (delete p id now d).1 s (removed id)
              (ground (arith, reads, u, e, save-Stored p l rs (change_record id deleted rs) d s))
      ]

  mint-Effect :
      (pepper : Option String) (label : Option String) (ttl now : ℕ) (a b : Random)
      → (rs : List TokenRecord) (d : Disk) → Stored p rs d
      → Effect rs (mint p pepper label ttl now a b d).1
  unfolding mint mint_with_pepper with_lock random_hex
  mint-Effect pepper label ttl now (failed e) b rs d s =
      unchanged rs d (mint p pepper label ttl now (failed e) b d).1 s (ground arith)
  mint-Effect pepper label ttl now (bytes a) (failed e) rs d s =
      unchanged rs d (mint p pepper label ttl now (bytes a) (failed e) d).1 s (ground arith)
  mint-Effect pepper label ttl now (bytes a) (bytes b) rs d s =
      let reads = s.reads in
      let u = s.unlocked in
      let same = unchanged rs d (mint p pepper label ttl now (bytes a) (bytes b) d).1 s in
      elim (Result-cases (require_pepper pepper)) [
        | inr (f, e) ↦ same (ground arith)
        | inl (k, ek) ↦ elim (Result-cases (p.later now ttl)) [
          | inr (f, e) ↦ same (ground arith)
          | inl (end, ee) ↦ elim (Result-cases (p.format end)) [
            | inr (f, e) ↦ same (ground arith)
            | inl (expires, ex) ↦ elim (Result-cases (p.format now)) [
              | inr (f, e) ↦ same (ground arith)
              | inl (created, ec) ↦
                  let hash = hash_secret p k (append "hlr_" (to_hex b)) in
                  let new =
                    rs
                    ++ unused_record (append "tok_" (to_hex a)) hash label created expires ∷ [] in
                  let kept_by_save = save-Stored p l rs new d s in
                  saved rs new d (mint p pepper label ttl now (bytes a) (bytes b) d).1 s
                    (minted (append "tok_" (to_hex a)) hash label created expires) (ground arith)
            ]
          ]
        ]
      ]

  redeemable-unused :
      (r : TokenRecord) (now : ℕ) (id : String) (x : Unit {0})
      → redeemable (display_state p r now) id ≡ ok x
      → r.state ≡ StoredState.unused
  unfolding redeemable display_state
  redeemable-unused r now id x e = ground (arith)

  redeem-Effect :
      (pepper : Option String) (id secret machine : String) (now : ℕ) (a b : Random)
      → (rs : List TokenRecord) (d : Disk) → Stored p rs d
      → Effect rs (redeem p pepper id secret machine now a b d).1
  unfolding redeem redeem_with_pepper with_lock random_hex
  redeem-Effect pepper id secret machine now a b rs d s =
      let reads = s.reads in
      let u = s.unlocked in
      let same = unchanged rs d (redeem p pepper id secret machine now a b d).1 s in
      elim (Result-cases (require_pepper pepper)) [
        | inr (f, e) ↦ same (ground arith)
        | inl (k, ek) ↦ elim (Option-cases (find_record id rs)) [
          | inl e ↦ same (ground arith)
          | inr (r, er) ↦ elim (Result-cases (redeemable (display_state p r now) id)) [
            | inr (f, e) ↦ same (ground arith)
            | inl (x, es) ↦ elim (Result-cases (verify_secret p k secret r.secret_hash)) [
              | inr (f, e) ↦ same (ground arith)
              | inl (false, em) ↦ same (ground arith)
              | inl (true, em) ↦ go a b k r ek er x es em
            ]
          ]
        ]
      ]
    where
      go :
          (a b : Random) (k : List ℕ) (r : TokenRecord)
          → require_pepper pepper ≡ ok k
          → find_record id rs ≡ some r
          → (x : Unit {0}) → redeemable (display_state p r now) id ≡ ok x
          → verify_secret p k secret r.secret_hash ≡ ok true
          → Effect rs (redeem p pepper id secret machine now a b d).1
      go (failed e) b k r ek er x es em =
          let reads = s.reads in
          let u = s.unlocked in
          unchanged rs d (redeem p pepper id secret machine now (failed e) b d).1 s (ground arith)
      go (bytes a) (failed e) k r ek er x es em =
          let reads = s.reads in
          let u = s.unlocked in
          unchanged rs d (redeem p pepper id secret machine now (bytes a) (failed e) d).1 s
            (ground arith)
      go (bytes a) (bytes b) k r ek er x es em =
          let reads = s.reads in
          let u = s.unlocked in
          let client_id = append "cli_" (to_hex a) in
          let hash = hash_secret p k (append "hlr_live_" (to_hex b)) in
          let new = change_record id (bind_client machine client_id hash) rs in
          let kept_by_save = save-Stored p l rs new d s in
          saved rs new d (redeem p pepper id secret machine now (bytes a) (bytes b) d).1 s
            (joined id machine client_id hash r er (redeemable-unused r now id x es)) (ground arith)

  verify-Effect :
      (pepper : Option String) (id credential : String) (now : ℕ)
      → (rs : List TokenRecord) (d : Disk) → Stored p rs d
      → Effect rs (verify_credential p pepper id credential now d).1
  unfolding verify_credential verify_credential_with_pepper with_lock
  verify-Effect pepper id credential now rs d s =
      let reads = s.reads in
      let u = s.unlocked in
      let same = unchanged rs d (verify_credential p pepper id credential now d).1 s in
      elim (Result-cases (require_pepper pepper)) [
        | inr (f, e) ↦ same (ground arith)
        | inl (k, ek) ↦ elim (Option-cases (find_record id rs)) [
          | inl e ↦ same (ground arith)
          | inr (r, er) ↦ elim (Result-cases (authenticates r.state id)) [
            | inr (f, e) ↦ same (ground arith)
            | inl (x, es) ↦ elim (Result-cases (matches_hash p k credential r.credential_hash)) [
              | inr (f, e) ↦ same (ground arith)
              | inl (false, em) ↦ same (ground arith)
              | inl (true, em) ↦ elim (Result-cases (p.format now)) [
                | inr (f, e) ↦ same (ground arith)
                | inl (at, ef) ↦
                    let new =
                      change_record id (λ (x : TokenRecord). record x { last_seen = some at }) rs in
                    let kept_by_save = save-Stored p l rs new d s in
                    saved rs new d (verify_credential p pepper id credential now d).1 s (seen id at)
                      (ground arith)
              ]
            ]
          ]
        ]
      ]

  outcome-disk : {A : Type 0} (x : Result A × Disk) → (outcome x).1 ≡ x.1
  outcome-disk (ok a, d) = refl
  outcome-disk (err e, d) = refl
  outcome-disk (panic, d) = refl

  pub perform-Effect :
      (pepper : Option String) (q : Request) (now : ℕ) (rs : List TokenRecord) (d : Disk)
      → Stored p rs d
      → Effect rs (perform p pepper q now d).1
  unfolding perform list ping
  perform-Effect pepper (mints label ttl a b) now rs d s =
      rw (outcome-disk (mint p pepper label ttl now a b d))
        (mint-Effect pepper label ttl now a b rs d s)
  perform-Effect pepper lists now rs d s =
      let reads = s.reads in unchanged rs d (perform p pepper lists now d).1 s (ground arith)
  perform-Effect pepper (deletes id) now rs d s =
      rw (outcome-disk (delete p id now d)) (delete-Effect id now rs d s)
  perform-Effect pepper (redeems id secret machine a b) now rs d s =
      rw (outcome-disk (redeem p pepper id secret machine now a b d))
        (redeem-Effect pepper id secret machine now a b rs d s)
  perform-Effect pepper (verifies id credential) now rs d s =
      rw (outcome-disk (verify_credential p pepper id credential now d))
        (verify-Effect pepper id credential now rs d s)
  perform-Effect pepper (pings id probe) now rs d s =
      let reads = s.reads in
      unchanged rs d (perform p pepper (pings id probe) now d).1 s (ground arith)
