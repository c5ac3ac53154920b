-- ===== src/Token/Lifecycle.antt =====
-- The life of a token of src/token/mod.rs: the records that a history of requests leaves, and the end
-- of a deleted token.
use holler_server.Prelude.{
  ℕ, ◌≡◌, ◌≢◌, refl, Bool, true, false, String, List, [], ◌∷◌, Option, none, some, arith,
  if◌then◌else◌, All, All-append, Bool-cases, inl, inr, ◌==◌, string_eq, eq_iff,
}
use holler_server.Token.Record.{
  display_state, ok, StoredState, TokenRecord, Platform, IsLawful, RedeemResult, VerifiedClient,
}
use holler_server.Token.Disk.{Disk, with_lock}
use holler_server.Token.Secret.{Random}
use holler_server.Token.Store.{
  find_record, change_record, bind_client, unused_record, deleted, redeemable, authenticates,
  redeem, verify_credential, delete, redeem_with_pepper, verify_credential_with_pepper,
}
use holler_server.Token.Records.{Stored, written, save-Stored, find-change, find-append, All-change}
use holler_server.Token.History.{Request, perform}
use holler_server.Token.Steps.{Change, kept, minted, removed, joined, seen, perform-Effect}

-- The store after some requests.
unfoldable pub run : Platform → Option String → List (Request × ℕ) → Disk → Disk
run p pepper [] d = d
run p pepper ((q, now) ∷ calls) d = run p pepper calls (perform p pepper q now d).1

abbrev is_some : {A : Type 0} → Option A → Bool
is_some none = false
is_some (some a) = true

-- What a record of each state holds: only a bound one has a credential, and it has its client too.
unfoldable pub consistent : TokenRecord → Bool
consistent r = elim r.state [
  | StoredState.unused ↦
      if is_some r.credential_hash
      then false
      else if is_some r.client_id
      then false
      else if is_some r.machine
      then false
      else true
  | StoredState.bound ↦
      if is_some r.credential_hash
      then if is_some r.client_id then is_some r.machine else false
      else false
  | StoredState.invalidated ↦ if is_some r.credential_hash then false else true
  | StoredState.revoked ↦ if is_some r.credential_hash then false else true
]

abbrev pub IsConsistent : TokenRecord → Type 0
IsConsistent r = consistent r ≡ true

abbrev pub ended : StoredState → Bool
ended StoredState.unused = false
ended StoredState.bound = false
ended StoredState.invalidated = true
ended StoredState.revoked = true

-- The token is there, and was invalidated or revoked.
abbrev pub IsEnded : String → List TokenRecord → Type 0
IsEnded id rs = (r : TokenRecord) × (find_record id rs ≡ some r) × (ended r.state ≡ true)

deleted-IsConsistent : (r : TokenRecord) → IsConsistent r → IsConsistent (deleted r)
unfolding consistent deleted
deleted-IsConsistent r c = ground arith

Change-IsConsistent :
    {rs new : List TokenRecord} → Change rs new → All IsConsistent rs → All IsConsistent new
unfolding consistent
Change-IsConsistent kept a = a
Change-IsConsistent {rs} (minted id hash label created expires) a =
    All-append IsConsistent rs (unused_record id hash label created expires ∷ []) a (refl, tt)
Change-IsConsistent {rs} (removed id) a =
    All-change IsConsistent id deleted rs (λ r found c. deleted-IsConsistent r c) a
Change-IsConsistent {rs} (joined id machine client_id hash r found unused) a =
    All-change IsConsistent id (bind_client machine client_id hash) rs (λ r found c. refl) a
Change-IsConsistent {rs} (seen id at) a =
    All-change IsConsistent id (λ (x : TokenRecord). record x { last_seen = some at }) rs
      (λ r found c. c) a

pub Change-IsEnded :
    (id : String) {rs new : List TokenRecord} → Change rs new → IsEnded id rs → IsEnded id new
unfolding find_record deleted
Change-IsEnded id kept a = a
Change-IsEnded id {rs} (minted key hash label created expires) (r, e, f) =
    (r, ground (arith, find-append id rs (unused_record key hash label created expires)), f)
Change-IsEnded id {rs} (removed key) (r, e, f) = (
  (if key == id then deleted r else r),
  ground (arith, find-change key deleted rs id (λ r. ground arith)),
  ground arith,
)
Change-IsEnded id {rs} (joined key machine client_id hash r found unused) (s, e, f) = (
  s,
  ground (
    arith,
    eq_iff key id,
    find-change key (bind_client machine client_id hash) rs id (λ r. refl),
  ),
  f,
)
Change-IsEnded id {rs} (seen key at) (r, e, f) =
    let mark = (λ (x : TokenRecord). record x { last_seen = some at }) in
    elim (Bool-cases (key == id)) [
      | inl q ↦ (mark r, ground (arith, find-change key mark rs id (λ r. refl)), f)
      | inr q ↦ (r, ground (arith, find-change key mark rs id (λ r. refl)), f)
    ]

module _ (p : Platform) (l : IsLawful p) (pepper : Option String) where
  -- The store holds records of which P holds.
  abbrev pub Holds : (List TokenRecord → Type 0) → Disk → Type 0
  Holds P d = (rs : List TokenRecord) × Stored p rs d × P rs

  pub run-Holds :
      (P : List TokenRecord → Type 0)
      → ((rs new : List TokenRecord) → Change rs new → P rs → P new)
      → (calls : List (Request × ℕ)) (d : Disk) → Holds P d
      → Holds P (run p pepper calls d)
  unfolding run
  run-Holds P keeps [] d h = h
  run-Holds P keeps ((q, now) ∷ calls) d (rs, s, h) =
      let (new, c, s') = perform-Effect p l pepper q now rs d s in
      run-Holds P keeps calls (perform p pepper q now d).1 (new, s', keeps rs new c h)

  -- Under IsLawful, in a store that can be locked and written and whose records are consistent, any sequence of
  -- requests leaves consistent records: a bound record has a credential, a client and a machine, an
  -- unused record has none of the three, and an invalidated or revoked record has no credential.
  pub records_stay-IsConsistent :
      (calls : List (Request × ℕ)) (d : Disk)
      → Holds (All IsConsistent) d
      → Holds (All IsConsistent) (run p pepper calls d)
  records_stay-IsConsistent = run-Holds (All IsConsistent) (λ rs new c. Change-IsConsistent c)

  pub delete-IsEnded :
      (id : String) (now : ℕ) (d : Disk) (rs : List TokenRecord) (r : TokenRecord)
      → Stored p rs d
      → find_record id rs ≡ some r
      → Holds (IsEnded id) (delete p id now d).1
  unfolding delete with_lock deleted
  delete-IsEnded id now d rs r s e =
      let reads = s.reads in
      let u = s.unlocked in
      let new = change_record id deleted rs in
      let (w, s') = save-Stored p l rs new d s in
      let after : (delete p id now d).1 ≡ written p new d = ground arith in
      (
        new,
        rw after s',
        (
          deleted r,
          ground (arith, eq_iff id id, find-change id deleted rs id (λ r. ground arith)),
          ground arith,
        ),
      )

  redeem-refuses :
      (id secret machine : String) (now : ℕ) (a b : Random) (d : Disk) (res : RedeemResult)
      → Holds (IsEnded id) d
      → (redeem p pepper id secret machine now a b d).0 ≢ ok res
  unfolding redeem redeem_with_pepper with_lock redeemable display_state
  redeem-refuses id secret machine now a b d res (rs, s, (r, e, f)) ok_res =
      let reads = s.reads in let u = s.unlocked in ground arith

  verify-refuses :
      (id credential : String) (now : ℕ) (d : Disk) (v : VerifiedClient)
      → Holds (IsEnded id) d
      → (verify_credential p pepper id credential now d).0 ≢ ok v
  unfolding verify_credential verify_credential_with_pepper with_lock authenticates
  verify-refuses id credential now d v (rs, s, (r, e, f)) ok_v =
      let reads = s.reads in let u = s.unlocked in ground arith

  -- Under IsLawful, in a store that can be locked and written: once a token that exists was deleted, no sequence of
  -- requests brings it back. Whatever they were, neither a redemption nor a verification of the token
  -- succeeds after them, with any secret or credential.
  pub deleted_token_refused :
      (id : String) (now : ℕ) (d : Disk) (rs : List TokenRecord) (r : TokenRecord)
      → Stored p rs d
      → find_record id rs ≡ some r
      → (calls : List (Request × ℕ)) (secret machine credential : String) (at : ℕ) (a b : Random)
      → (res : RedeemResult) (v : VerifiedClient)
      → ((redeem p pepper id secret machine at a b (run p pepper calls (delete p id now d).1)).0
          ≢ ok res)
        × ((verify_credential p pepper id credential at
              (run p pepper calls (delete p id now d).1)).0
            ≢ ok v)
  deleted_token_refused id now d rs r s e calls secret machine credential at a b res v =
      let h =
        run-Holds (IsEnded id) (λ rs new c. Change-IsEnded id c) calls (delete p id now d).1
          (delete-IsEnded id now d rs r s e) in
      (
        redeem-refuses id secret machine at a b (run p pepper calls (delete p id now d).1) res h,
        verify-refuses id credential at (run p pepper calls (delete p id now d).1) v h,
      )
