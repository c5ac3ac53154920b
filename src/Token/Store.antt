-- ===== src/Token/Store.antt =====
-- The operations of `TokenStore` of src/token/mod.rs. Time, randomness and the pepper variable are
-- arguments.
use Prim.Native.String.{◌++◌ as append}
use holler_server.Prelude.{
  ℕ, Bool, true, false, String, List, [], ◌∷◌, ◌++◌, map, Option, none, some, if◌then◌else◌, ◌==◌,
  string_eq,
}
use holler_server.Token.Record.{
  TokenError, not_found, unbound, wrong_secret, wrong_credential, already_bound, Result, ok, err,
  StoredState, DisplayState, TokenRecord, TokenView, MintResult, RedeemResult, VerifiedClient,
  PingOutcome, ConnectionStatus, Platform, display_state, from_record,
}
use holler_server.Token.Disk.{Exec, ◌>>=◌, ◌>>◌, lift, pure, or_fail, load, save, with_lock}
use holler_server.Token.Secret.{Random, random_hex, require_pepper, hash_secret, verify_secret}

-- `find` over the records, and the change of the record that it finds.
unfoldable pub find_record : String → List TokenRecord → Option TokenRecord
find_record token_id [] = none
find_record token_id (r ∷ rs) = if r.token_id == token_id then some r else find_record token_id rs

unfoldable pub change_record :
    String → (TokenRecord → TokenRecord) → List TokenRecord → List TokenRecord
change_record token_id f [] = []
change_record token_id f (r ∷ rs) =
    let rest = change_record token_id f rs in if r.token_id == token_id then f r ∷ rs else r ∷ rest

abbrev pub unused_record : String → String → Option String → String → String → TokenRecord
unused_record token_id secret_hash label created_at expires = record {
  token_id = token_id;
  secret_hash = secret_hash;
  state = StoredState.unused;
  label = label;
  machine = none;
  client_id = none;
  credential_hash = none;
  created_at = created_at;
  expires = expires;
  last_seen = none;
}

-- The record after `delete`.
unfoldable pub deleted : TokenRecord → TokenRecord
deleted r = elim r.state [
  | StoredState.bound ↦ record r { credential_hash = none; state = StoredState.revoked }
  | StoredState.unused ↦ record r { state = StoredState.invalidated }
  | StoredState.invalidated ↦ record r { state = StoredState.invalidated }
  | StoredState.revoked ↦ record r { state = StoredState.invalidated }
]

-- The states in which `redeem` refuses.
unfoldable pub redeemable : DisplayState → String → Result (Unit {0})
redeemable DisplayState.unused token_id = ok tt
redeemable DisplayState.bound token_id = err (already_bound token_id)
redeemable DisplayState.invalidated token_id = err (TokenError.invalidated token_id)
redeemable DisplayState.revoked token_id = err (TokenError.revoked token_id)
redeemable DisplayState.stale token_id = err (TokenError.stale token_id)

abbrev require : Bool → TokenError → Result (Unit {0})
require true e = ok tt
require false e = err e

abbrev pub bind_client : String → String → String → TokenRecord → TokenRecord
bind_client machine client_id credential_hash r = record r {
  state = StoredState.bound;
  machine = some machine;
  client_id = some client_id;
  credential_hash = some credential_hash;
}

-- The states in which `verify_credential` refuses.
unfoldable pub authenticates : StoredState → String → Result (Unit {0})
authenticates StoredState.bound token_id = ok tt
authenticates StoredState.unused token_id = err (unbound token_id)
authenticates StoredState.invalidated token_id = err (TokenError.invalidated token_id)
authenticates StoredState.revoked token_id = err (TokenError.revoked token_id)

abbrev pub or_empty : Option String → String
or_empty none = ""
or_empty (some s) = s

module _ (p : Platform) where
  unfoldable pub mint_with_pepper :
      List ℕ → Option String → ℕ → ℕ → Random → Random → Exec MintResult
  unfolding random_hex hash_secret with_lock load save
  mint_with_pepper pepper label ttl now id_bytes secret_bytes = do
    id_hex ← lift (random_hex id_bytes)
    let token_id = append "tok_" id_hex
    secret_hex ← lift (random_hex secret_bytes)
    let secret = append "hlr_" secret_hex
    let secret_hash = hash_secret p pepper secret
    end ← lift (p.later now ttl)
    expires ← lift (p.format end)
    created_at ← lift (p.format now)
    let record_new = unused_record token_id secret_hash label created_at expires
    with_lock (do records ← load p; save p (records ++ record_new ∷ []))
    pure (record { token_id = token_id; secret = secret; expires = expires })

  unfoldable pub mint : Option String → Option String → ℕ → ℕ → Random → Random → Exec MintResult
  unfolding require_pepper mint_with_pepper
  mint pepper_env label ttl now id_bytes secret_bytes = do
    pepper ← lift (require_pepper pepper_env)
    mint_with_pepper pepper label ttl now id_bytes secret_bytes

  unfoldable pub list : ℕ → Exec (List TokenView)
  unfolding load
  list now = do records ← load p; pure (map (λ (r : TokenRecord). from_record p r now) records)

  unfoldable pub delete : String → ℕ → Exec DisplayState
  unfolding with_lock load save
  delete token_id now = with_lock (do
    records ← load p
    r ← lift (or_fail (find_record token_id records) (not_found token_id))
    let new_state = display_state p (deleted r) now
    save p (change_record token_id deleted records)
    pure new_state)

  unfoldable pub redeem_with_pepper :
      List ℕ → String → String → String → ℕ → Random → Random → Exec RedeemResult
  unfolding with_lock load save redeemable verify_secret random_hex hash_secret
  redeem_with_pepper pepper token_id secret machine now id_bytes credential_bytes = with_lock (do
    records ← load p
    r ← lift (or_fail (find_record token_id records) (not_found token_id))
    lift (redeemable (display_state p r now) token_id)
    matches ← lift (verify_secret p pepper secret r.secret_hash)
    lift (require matches (wrong_secret token_id))
    id_hex ← lift (random_hex id_bytes)
    let client_id = append "cli_" id_hex
    credential_hex ← lift (random_hex credential_bytes)
    let credential = append "hlr_live_" credential_hex
    let credential_hash = hash_secret p pepper credential
    save p (change_record token_id (bind_client machine client_id credential_hash) records)
    pure (record { token_id = token_id; client_id = client_id; credential = credential }))

  unfoldable pub redeem :
      Option String → String → String → String → ℕ → Random → Random → Exec RedeemResult
  unfolding require_pepper redeem_with_pepper
  redeem pepper_env token_id secret machine now id_bytes credential_bytes = do
    pepper ← lift (require_pepper pepper_env)
    redeem_with_pepper pepper token_id secret machine now id_bytes credential_bytes

  unfoldable pub matches_hash : List ℕ → String → Option String → Result Bool
  unfolding verify_secret
  matches_hash pepper credential none = ok false
  matches_hash pepper credential (some hash) = verify_secret p pepper credential hash

  unfoldable pub verify_credential_with_pepper : List ℕ → String → String → ℕ → Exec VerifiedClient
  unfolding with_lock load save authenticates matches_hash
  verify_credential_with_pepper pepper token_id credential now = with_lock (do
    records ← load p
    r ← lift (or_fail (find_record token_id records) (not_found token_id))
    lift (authenticates r.state token_id)
    matches ← lift (matches_hash pepper credential r.credential_hash)
    lift (require matches (wrong_credential token_id))
    seen ← lift (p.format now)
    let verified : VerifiedClient = record {
      token_id = token_id;
      client_id = or_empty r.client_id;
      machine = or_empty r.machine;
    }
    save p
        (change_record token_id (λ (x : TokenRecord). record x { last_seen = some seen }) records)
    pure verified)

  unfoldable pub verify_credential : Option String → String → String → ℕ → Exec VerifiedClient
  unfolding require_pepper verify_credential_with_pepper
  verify_credential pepper_env token_id credential now = do
    pepper ← lift (require_pepper pepper_env)
    verify_credential_with_pepper pepper token_id credential now

  unfoldable pub ping : String → (String → ConnectionStatus) → Exec PingOutcome
  unfolding load
  ping token_id probe = do
    records ← load p
    r ← lift (or_fail (find_record token_id records) (not_found token_id))
    lift (elim r.state [
      | StoredState.bound ↦ elim (probe token_id) [
        | ConnectionStatus.connected hostname rtt_ms ↦ ok (PingOutcome.connected hostname rtt_ms)
        | ConnectionStatus.disconnected ↦ err (TokenError.disconnected token_id)
      ]
      | StoredState.unused ↦ err (unbound token_id)
      | StoredState.invalidated ↦ err (unbound token_id)
      | StoredState.revoked ↦ err (unbound token_id)
    ])
