-- ===== src/Lockout/Tests.antt =====
-- Runs of src/wire/lockout.rs, and the theorems about it at concrete inputs.
use holler_server.Prelude.{◌≡◌, refl, true, false, List, [], ◌∷◌, ltb, arith}
use holler_server.Prelude.Dict.{get, insert}
use holler_server.Net.{IpAddr, v4, ip_eq}
use holler_server.Lockout.{LockoutTracker, is_locked_out, record_failure, count_failure}
use holler_server.Lockout.Bounds.{Call, fails, checks, run, step}
use holler_server.Lockout.Bans.{lockout_exact, lockouts_end}

abbrev tracker : LockoutTracker
tracker = record { by_ip = []; max_failures = 3; window = 50; lockout_duration = 60 }

abbrev host : IpAddr
host = v4 7

abbrev calls : List Call
calls = fails host 10 ∷ checks host 11 ∷ fails host 20 ∷ fails host 30 ∷ []

third_failure_locks : (is_locked_out (run tracker calls) host 89).1 ≡ true
unfolding run step is_locked_out record_failure count_failure get insert
third_failure_locks = refl

lockout_expires : (is_locked_out (run tracker calls) host 90).1 ≡ false
unfolding run step is_locked_out record_failure count_failure get insert
lockout_expires = refl

abbrev once : LockoutTracker
once = record { by_ip = []; max_failures = 1; window = 50; lockout_duration = 60 }

once_locks : (record_failure once host 5).1 ≡ true
unfolding record_failure count_failure get
once_locks = refl

lockout_exact_example :
    (is_locked_out (run (record_failure once host 5).0 (fails host 9 ∷ [])) host 70).1 ≡ ltb 70 65
lockout_exact_example = lockout_exact once host 5 (fails host 9 ∷ []) 70 once_locks (omega arith)

lockouts_end_example : (is_locked_out (run tracker calls) host 90).1 ≡ false
unfolding get
lockouts_end_example =
    lockouts_end tracker calls 30 host 90 (omega arith) (λ ip u e. ground arith) (omega arith)
