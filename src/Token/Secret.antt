-- ===== src/Token/Secret.antt =====
-- Secrets and their hashes in src/token/mod.rs.
use holler_server.Prelude.{
  ℕ, Bool, true, false, String, List, [], ◌∷◌, Option, none, some, if◌then◌else◌, ◌==◌, string_eq,
  nat_beq,
}
use holler_server.Text.Utf8.{as_bytes}
use holler_server.Token.Hex.{to_hex, from_hex, parsed, not_hex, panics}
use holler_server.Token.Record.{pepper_missing, rng, Result, ok, err, panic, Platform}

-- What the generator of the operating system gives for one request.
pub data Random : Type 0 where
  bytes : List ℕ → Random
  failed : String → Random

unfoldable pub random_hex : Random → Result String
random_hex (bytes b) = ok (to_hex b)
random_hex (failed e) = err (rng e)

abbrev pub bytes_eq : List ℕ → List ℕ → Bool
bytes_eq [] [] = true
bytes_eq (a ∷ xs) (b ∷ ys) = if nat_beq a b then bytes_eq xs ys else false
bytes_eq _ _ = false

-- The environment variable of the pepper, unset or empty.
unfoldable pub require_pepper : Option String → Result (List ℕ)
require_pepper none = err pepper_missing
require_pepper (some pepper) = if pepper == "" then err pepper_missing else ok (as_bytes pepper)

module _ (p : Platform) where
  unfoldable pub hash_secret : List ℕ → String → String
  hash_secret pepper secret = to_hex (p.hmac pepper (as_bytes secret))

  -- `verify_slice` compares the whole digest.
  unfoldable pub verify_secret : List ℕ → String → String → Result Bool
  verify_secret pepper secret expected_hash_hex = elim (from_hex expected_hash_hex) [
    | parsed expected ↦ ok (bytes_eq (p.hmac pepper (as_bytes secret)) expected)
    | not_hex ↦ ok false
    | panics ↦ panic
  ]
