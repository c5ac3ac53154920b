-- ===== src/Lockout/Bounds.antt =====
-- How much the tracker of src/wire/lockout.rs remembers of an address, after any calls.
use holler_server.Prelude.{
  ℕ, ◌+◌, ◌-◌, ◌^◌, ◌<◌, ◌≤◌, ◌≡◌, List, [], ◌∷◌, Option, none, some, inl, inr, arith, ltb,
  if◌then◌else◌, length, keep, length-append, length-keep, Option-cases, ◌==◌,
}
use holler_server.Prelude.Dict.{get, get-insert, get-remove}
use holler_server.Net.{IpAddr, ip_eq, ip_beq_iff}
use holler_server.Lockout.{
  IpState, LockoutTracker, is_locked_out, record_failure, count_failure, or_default, is_banned,
  fresh,
}

-- A call of the tracker, with the time at which it is made.
pub data Call : Type 0 where
  fails checks : IpAddr → ℕ → Call

unfoldable pub step : LockoutTracker → Call → LockoutTracker
step t (fails ip now) = (record_failure t ip now).0
step t (checks ip now) = (is_locked_out t ip now).0

unfoldable pub run : LockoutTracker → List Call → LockoutTracker
run t [] = t
run t (c ∷ cs) = run (step t c) cs

-- The entry of an address after a failure.
abbrev next_state : LockoutTracker → IpAddr → ℕ → IpState
next_state t ip now =
    let state = or_default (get t.by_ip ip) in
    if is_banned state.locked_until now then state else (count_failure t state now).0

-- The entry of an address after a check.
abbrev unexpired : Option IpState → ℕ → Option IpState
unexpired none now = none
unexpired (some s) now = elim s.locked_until [
  | none ↦ some s
  | some until ↦ if ltb now until then some s else none
]

pub get-record_failure :
    (t : LockoutTracker) (ip : IpAddr) (now : ℕ) (j : IpAddr)
    → get (record_failure t ip now).0.by_ip j
      ≡ (if ip == j then some (next_state t ip now) else get t.by_ip j)
unfolding record_failure
get-record_failure t ip now j =
    let state = or_default (get t.by_ip ip) in
    ground
      (arith, get-insert t.by_ip ip state j, get-insert t.by_ip ip (count_failure t state now).0 j)

pub get-is_locked_out :
    (t : LockoutTracker) (ip : IpAddr) (now : ℕ) (j : IpAddr)
    → get (is_locked_out t ip now).0.by_ip j
      ≡ (if ip == j then unexpired (get t.by_ip ip) now else get t.by_ip j)
unfolding is_locked_out
get-is_locked_out t ip now j = ground (arith, get-remove t.by_ip ip j, ip_beq_iff ip j)

pub record SameParams (t u : LockoutTracker) : Type 0 where
  pub max_failures : u.max_failures ≡ t.max_failures
  pub window : u.window ≡ t.window
  pub lockout_duration : u.lockout_duration ≡ t.lockout_duration

pub step-SameParams : (t : LockoutTracker) (c : Call) → SameParams t (step t c)
unfolding step record_failure is_locked_out
step-SameParams t (fails ip now) = ground arith
step-SameParams t (checks ip now) = ground arith

pub record IsBounded (t : LockoutTracker) : Type 0 where
  pub positive : 0 < t.max_failures
  pub word : t.max_failures < 2 ^ 32
  pub small :
      (ip : IpAddr) (s : IpState) → get t.by_ip ip ≡ some s → length s.failures < t.max_failures

length-fresh :
    (window now : ℕ) (failures : List ℕ) → length (fresh window now failures) ≤ length failures + 1
length-fresh window now failures =
    let old = λ (t : ℕ). ltb (now - t) window in
    omega (arith, length-append (keep old failures) (now ∷ []), length-keep old failures)

or_default_small :
    (t : LockoutTracker) (ip : IpAddr)
    → IsBounded t
    → length (or_default (get t.by_ip ip)).failures < t.max_failures
or_default_small t ip b = elim (Option-cases (get t.by_ip ip)) [
  | inl e ↦ rw e b.positive
  | inr (s, e) ↦ rw e (b.small ip s e)
]

count_failure_small :
    (t : LockoutTracker) (s : IpState) (now : ℕ)
    → 0 < t.max_failures
    → t.max_failures < 2 ^ 32
    → length s.failures < t.max_failures
    → length (count_failure t s now).0.failures < t.max_failures
unfolding count_failure
count_failure_small t s now p w h = ground (arith, length-fresh t.window now s.failures)

next_state_small :
    (t : LockoutTracker) (ip : IpAddr) (now : ℕ)
    → IsBounded t
    → length (next_state t ip now).failures < t.max_failures
next_state_small t ip now b =
    let state = or_default (get t.by_ip ip) in
    ground (arith, or_default_small t ip b, count_failure_small t state now b.positive b.word)

step_small :
    (t : LockoutTracker) (c : Call) (j : IpAddr) (s : IpState)
    → IsBounded t
    → get (step t c).by_ip j ≡ some s
    → length s.failures < t.max_failures
unfolding step
step_small t (fails ip now) j s b h =
    ground (arith, get-record_failure t ip now j, next_state_small t ip now b, b.small j s)
step_small t (checks ip now) j s b h =
    ground (arith, get-is_locked_out t ip now j, ip_beq_iff ip j, b.small j s)

step-IsBounded : (t : LockoutTracker) (c : Call) → IsBounded t → IsBounded (step t c)
step-IsBounded t c b = record {
  positive = rw (step-SameParams t c).max_failures b.positive;
  word = rw (step-SameParams t c).max_failures b.word;
  small = λ ip s h. rw (step-SameParams t c).max_failures (step_small t c ip s b h);
}

-- Whatever calls are made, the tracker never holds as many failures of one address as would lock it
-- out: the list of failures of an address stays below the threshold, so memory per address is
-- bounded.
pub run-IsBounded : (t : LockoutTracker) (cs : List Call) → IsBounded t → IsBounded (run t cs)
unfolding run
run-IsBounded t [] b = b
run-IsBounded t (c ∷ cs) b = run-IsBounded (step t c) cs (step-IsBounded t c b)
