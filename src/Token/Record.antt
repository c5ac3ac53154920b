-- ===== src/Token/Record.antt =====
-- The data of src/token/mod.rs: errors, records, their displayed state, and what the module takes
-- from outside the repository.
use holler_server.Prelude.{
  ℕ, ◌+◌, ◌≡◌, Bool, true, false, String, List, [], ◌∷◌, Option, none, some, leb, if◌then◌else◌,
  All,
}
use holler_server.Text.{codes, trim}
use holler_server.Token.Hex.{IsByte}

pub data TokenError : Type 0 where
  pepper_missing : TokenError
  invalid_ttl not_found unbound disconnected wrong_secret wrong_credential : String → TokenError
  already_bound invalidated revoked stale : String → TokenError
  io serde rng time : String → TokenError

-- A result, or a panic of the thread.
pub data Result {ℓ} (A : Type ℓ) : Type ℓ where
  ok : A → Result A
  err : TokenError → Result A
  panic : Result A

pub data StoredState : Type 0 where
  unused bound invalidated revoked : StoredState

pub data DisplayState : Type 0 where
  unused bound stale invalidated revoked : DisplayState

unfoldable pub to_string : DisplayState → String
to_string DisplayState.unused = "unused"
to_string DisplayState.bound = "bound"
to_string DisplayState.stale = "stale"
to_string DisplayState.invalidated = "invalidated"
to_string DisplayState.revoked = "revoked"

pub record TokenRecord : Type 0 where
  pub token_id : String
  pub secret_hash : String
  pub state : StoredState
  pub label : Option String
  pub machine : Option String
  pub client_id : Option String
  pub credential_hash : Option String
  pub created_at : String
  pub expires : String
  pub last_seen : Option String

pub record TokenView : Type 0 where
  pub token_id : String
  pub state : String
  pub machine : String
  pub client_id : String
  pub label : String
  pub last_seen : String
  pub expires : String

pub record MintResult : Type 0 where
  pub token_id : String
  pub secret : String
  pub expires : String

pub record RedeemResult : Type 0 where
  pub token_id : String
  pub client_id : String
  pub credential : String

pub record VerifiedClient : Type 0 where
  pub token_id : String
  pub client_id : String
  pub machine : String

pub data PingOutcome : Type 0 where
  connected : (hostname : String) (rtt_ms : ℕ) → PingOutcome

pub data ConnectionStatus : Type 0 where
  disconnected : ConnectionStatus
  connected : (hostname : String) (rtt_ms : ℕ) → ConnectionStatus

-- What the module takes from other crates. A point in time is a number of nanoseconds.
pub record Platform : Type 0 where
  -- HMAC-SHA-256 of a key and a message, as bytes (crates hmac and sha2).
  pub hmac : List ℕ → List ℕ → List ℕ
  -- `OffsetDateTime` (crate time): RFC 3339 texts, and the sum with a duration, which may panic.
  pub format : ℕ → Result String
  pub parse : String → Option ℕ
  pub later : ℕ → ℕ → Result ℕ
  -- The records as JSON (crate serde_json).
  pub to_json : List TokenRecord → Result String
  pub from_json : String → Result (List TokenRecord)

-- An expiry that does not parse never passes.
unfoldable pub has_expired : Option ℕ → ℕ → Bool
has_expired none now = false
has_expired (some expires) now = leb expires now

abbrev or_dash : Option String → String
or_dash none = "-"
or_dash (some s) = s

-- `contents.trim().is_empty()`
unfoldable pub is_blank : String → Bool
is_blank s = elim (trim (codes s)) [ [] ↦ true | c ∷ r ↦ false ]

-- What those crates document, as far as the theorems rely on it.
pub record IsLawful (p : Platform) : Type 0 where
  pub hmac_bytes : (key message : List ℕ) → All IsByte (p.hmac key message)
  pub parse-format : (t : ℕ) (s : String) → p.format t ≡ ok s → p.parse s ≡ some t
  pub later-eq : (t d u : ℕ) → p.later t d ≡ ok u → u ≡ t + d
  pub from_json-to_json :
      (rs : List TokenRecord) (s : String) → p.to_json rs ≡ ok s → p.from_json s ≡ ok rs
  pub to_json_total : (rs : List TokenRecord) → (s : String) × (p.to_json rs ≡ ok s)
  pub to_json_not_blank :
      (rs : List TokenRecord) (s : String) → p.to_json rs ≡ ok s → is_blank s ≡ false

module _ (p : Platform) where
  unfoldable pub display_state : TokenRecord → ℕ → DisplayState
  unfolding has_expired
  display_state r now = elim r.state [
    | unused ↦ if has_expired (p.parse r.expires) now then stale else unused
    | bound ↦ bound
    | invalidated ↦ invalidated
    | revoked ↦ revoked
  ]

  unfoldable pub from_record : TokenRecord → ℕ → TokenView
  unfolding display_state to_string
  from_record r now = record {
    token_id = r.token_id;
    state = to_string (display_state r now);
    machine = or_dash r.machine;
    client_id = or_dash r.client_id;
    label = or_dash r.label;
    last_seen = or_dash r.last_seen;
    expires = r.expires;
  }
