-- ===== src/Token/Message.antt =====
-- The text of a `TokenError` of src/token/mod.rs. `quoted` is Rust's `{:?}` of a text.
use Prim.Native.String.{◌++◌ as append}
use holler_server.Prelude.{String}
use holler_server.Token.Record.{
  TokenError, pepper_missing, invalid_ttl, not_found, unbound, disconnected, wrong_secret,
  wrong_credential, already_bound, io, serde, rng, time,
}

abbrev around : String → String → String → String
around before s after = append before (append s after)

unfoldable pub message : (String → String) → TokenError → String
message quoted pepper_missing =
    "HOLLER_SERVER_PEPPER is not set; refusing to mint a token without a server pepper"
message quoted (invalid_ttl s) = around "invalid --ttl " (quoted s) " (expected e.g. 30m, 24h, 7d)"
message quoted (not_found id) = append "no such token: " id
message quoted (unbound id) = around "token " id " has not been redeemed; nothing to ping"
message quoted (disconnected id) = around "token " id " is bound but not connected"
message quoted (wrong_secret id) = append "wrong secret for token " id
message quoted (wrong_credential id) = append "wrong credential for token " id
message quoted (already_bound id) =
    around "token " id " was already redeemed and is bound to a client"
message quoted (TokenError.invalidated id) =
    around "token " id " was invalidated and cannot be redeemed"
message quoted (TokenError.revoked id) = around "token " id " was revoked and cannot be redeemed"
message quoted (TokenError.stale id) =
    around "token " id "'s secret has expired and cannot be redeemed"
message quoted (io e) = append "token store I/O error: " e
message quoted (serde e) = append "token store is corrupt: " e
message quoted (rng e) = append "failed to generate randomness: " e
message quoted (time e) = append "time error: " e
