-- ===== src/Token/History.antt =====
-- Requests to the store of src/token/mod.rs, in the order in which the lock lets them through.
use holler_server.Prelude.{ℕ, String, Option, none, ◌≡◌, ◌≢◌, arith}
use holler_server.Token.Record.{Result, ok, err, panic, Platform, ConnectionStatus}
use holler_server.Token.Disk.{Disk}
use holler_server.Token.Secret.{Random}
use holler_server.Token.Store.{mint, list, delete, redeem, verify_credential, ping}

pub data Request : Type 0 where
  mints : (label : Option String) (ttl : ℕ) → Random → Random → Request
  lists : Request
  deletes : (token_id : String) → Request
  redeems : (token_id secret machine : String) → Random → Random → Request
  verifies : (token_id credential : String) → Request
  pings : (token_id : String) → (String → ConnectionStatus) → Request

abbrev pub outcome : {A : Type 0} → Result A × Disk → Result (Unit {0}) × Disk
outcome (ok a, d) = (ok tt, d)
outcome (err e, d) = (err e, d)
outcome (panic, d) = (panic, d)

module _ (p : Platform) (pepper : Option String) where
  unfoldable pub perform : Request → ℕ → Disk → Result (Unit {0}) × Disk
  perform (mints label ttl a b) now d = outcome (mint p pepper label ttl now a b d)
  perform lists now d = outcome (list p now d)
  perform (deletes id) now d = outcome (delete p id now d)
  perform (redeems id secret machine a b) now d =
      outcome (redeem p pepper id secret machine now a b d)
  perform (verifies id credential) now d = outcome (verify_credential p pepper id credential now d)
  perform (pings id probe) now d = outcome (ping p id probe d)

  -- A request that fails, or panics, leaves the state directory as it was, unless it was the write
  -- itself that failed.
  pub failed_changes_nothing :
      (q : Request) (now : ℕ) (d : Disk)
      → (perform q now d).0 ≢ ok tt
      → d.write_error ≡ none
      → (perform q now d).1 ≡ d
  unfolding perform mint list delete redeem verify_credential ping
  failed_changes_nothing (mints label ttl a b) now d f w = ground arith
  failed_changes_nothing lists now d f w = ground arith
  failed_changes_nothing (deletes id) now d f w = ground arith
  failed_changes_nothing (redeems id secret machine a b) now d f w = ground arith
  failed_changes_nothing (verifies id credential) now d f w = ground arith
  failed_changes_nothing (pings id probe) now d f w = ground arith
