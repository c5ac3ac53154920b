-- ===== src/Lockout.antt =====
-- src/wire/lockout.rs: the throttle of sources that fail to authenticate. An `Instant` is a number
-- of nanoseconds that each call takes as an argument; the mutex makes a call one step.
pub mod Bounds
pub mod Bans
pub mod Tests
use holler_server.Prelude.{
  ℕ, ◌+◌, ◌-◌, ◌*◌, ◌%◌, ◌^◌, Bool, true, false, List, [], ◌∷◌, ◌++◌, Option, none, some, ltb, leb,
  if◌then◌else◌, length, keep,
}
use holler_server.Prelude.Dict.{Dict, get, insert, remove}
use holler_server.Net.{IpAddr, ip_eq}

-- Nanoseconds in a second.
abbrev pub second : ℕ
second = 1_000_000_000

abbrev max_failures_default : ℕ
max_failures_default = 5

abbrev failure_window : ℕ
failure_window = 10 * 60 * second

abbrev lockout_duration_default : ℕ
lockout_duration_default = 10 * 60 * second

pub record IpState : Type 0 where
  pub failures : List ℕ
  pub locked_until : Option ℕ

pub record LockoutTracker : Type 0 where
  pub by_ip : Dict IpAddr IpState
  pub max_failures : ℕ
  pub window : ℕ
  pub lockout_duration : ℕ

unfoldable with_params : ℕ → ℕ → ℕ → LockoutTracker
with_params m w d = record { by_ip = []; max_failures = m; window = w; lockout_duration = d }

unfoldable pub new : LockoutTracker
unfolding with_params
new = with_params max_failures_default failure_window lockout_duration_default

-- map.get(&ip).and_then(|s| s.locked_until)
abbrev pub ban : Option IpState → Option ℕ
ban none = none
ban (some s) = s.locked_until

unfoldable pub is_locked_out : LockoutTracker → IpAddr → ℕ → LockoutTracker × Bool
is_locked_out t ip now = elim (ban (get t.by_ip ip)) [
  | none ↦ (t, false)
  | some until ↦
      if ltb now until then (t, true) else (record t { by_ip = remove t.by_ip ip }, false)
]

-- map.entry(ip).or_default()
abbrev pub or_default : Option IpState → IpState
or_default none = record { failures = []; locked_until = none }
or_default (some s) = s

-- The early return of `record_failure`.
abbrev pub is_banned : Option ℕ → ℕ → Bool
is_banned none now = false
is_banned (some until) now = ltb now until

-- The failures still inside the window, and this one.
abbrev pub fresh : ℕ → ℕ → List ℕ → List ℕ
fresh window now failures = keep (λ t. ltb (now - t) window) failures ++ now ∷ []

-- What `record_failure` makes of the entry of an address that is not locked out.
unfoldable pub count_failure : LockoutTracker → IpState → ℕ → IpState × Bool
count_failure t s now =
    let failures = fresh t.window now s.failures in
    if leb t.max_failures (length failures % 2 ^ 32)
    then (record { failures = []; locked_until = some (now + t.lockout_duration) }, true)
    else (record s { failures = failures }, false)

unfoldable pub record_failure : LockoutTracker → IpAddr → ℕ → LockoutTracker × Bool
record_failure t ip now =
    let state = or_default (get t.by_ip ip) in
    if is_banned state.locked_until now
    then (record t { by_ip = insert t.by_ip ip state }, false)
    else let (state', locked) = count_failure t state now in
      (record t { by_ip = insert t.by_ip ip state' }, locked)
