-- ===== src/Lockout/Bans.antt =====
-- When src/wire/lockout.rs locks an address out, and for how long.
use mathlib.Core.List.{map}
use holler_server.Prelude.{
  ℕ, suc, ◌+◌, ◌-◌, ◌^◌, ◌<◌, ◌≤◌, ◌≡◌, refl, sym, subst, ◌∙◌, ap, true, false, List, [], ◌∷◌, ◌++◌,
  none, some, ◌≢◌, inl, inr, arith, ltb, leb, length, keep, All, length-append, Option-cases,
}
use holler_server.Prelude.Dict.{get}
use holler_server.Net.{IpAddr, ip_eq, ip_beq_iff}
use holler_server.Lockout.{
  IpState, LockoutTracker, is_locked_out, record_failure, count_failure, or_default, is_banned, ban,
}
use holler_server.Lockout.Bounds.{
  Call, fails, checks, step, run, get-record_failure, get-is_locked_out, step-SameParams,
  SameParams,
}

abbrev pub time : Call → ℕ
time (fails ip now) = now
time (checks ip now) = now

abbrev pub address : Call → IpAddr
address (fails ip now) = ip
address (checks ip now) = ip

-- The answer of a check is read off the entry of the address.
is_locked_out-ban :
    (t : LockoutTracker) (ip : IpAddr) (now : ℕ)
    → (is_locked_out t ip now).1 ≡ is_banned (ban (get t.by_ip ip)) now
unfolding is_locked_out
is_locked_out-ban t ip now = ground arith

abbrev pub Within : ℕ → ℕ → List ℕ → Type 0
Within s window = All (λ x. (s ≤ x) × (x < s + window))

keep-Within :
    (s window now : ℕ) (fs : List ℕ)
    → s ≤ now
    → now < s + window
    → Within s window fs
    → keep (λ x. ltb (now - x) window) fs ≡ fs
keep-Within s window now [] a b w = refl
keep-Within s window now (x ∷ fs) a b w = ground (arith, keep-Within s window now fs a b w.1)

-- An address with `n` failures inside the window that starts at `s`, and no ban.
pub record Clean (s n : ℕ) (t : LockoutTracker) (ip : IpAddr) : Type 0 where
  pub free : (or_default (get t.by_ip ip)).locked_until ≡ none
  pub within : Within s t.window (or_default (get t.by_ip ip)).failures
  pub number : length (or_default (get t.by_ip ip)).failures ≡ n

Within-snoc :
    (s window now : ℕ) (fs : List ℕ)
    → s ≤ now
    → now < s + window
    → Within s window fs
    → Within s window (fs ++ now ∷ [])
Within-snoc s window now [] a b w = (w2, tt)
  where
    w2 : (s ≤ now) × (now < s + window)
    w2 = (a, b)
Within-snoc s window now (x ∷ fs) a b w = (w.0, Within-snoc s window now fs a b w.1)

record_failure-Clean :
    (s n : ℕ) (t : LockoutTracker) (ip : IpAddr) (now : ℕ)
    → s ≤ now
    → now < s + t.window
    → n < 2 ^ 32 - 1
    → Clean s n t ip
    → (record_failure t ip now).1 ≡ leb t.max_failures (n + 1)
unfolding record_failure count_failure
record_failure-Clean s n t ip now a b w c =
    let fs = (or_default (get t.by_ip ip)).failures in
    ground (
      arith,
      c.free,
      c.number,
      keep-Within s t.window now fs a b c.within,
      length-append fs (now ∷ []),
    )

next_entry :
    (s n : ℕ) (t : LockoutTracker) (ip : IpAddr) (now : ℕ)
    → s ≤ now
    → now < s + t.window
    → n + 1 < t.max_failures
    → t.max_failures < 2 ^ 32
    → Clean s n t ip
    → get (step t (fails ip now)).by_ip ip
      ≡ some (record {
        failures = (or_default (get t.by_ip ip)).failures ++ now ∷ [];
        locked_until = none;
      })
unfolding count_failure step
next_entry s n t ip now a b m w c =
    let fs = (or_default (get t.by_ip ip)).failures in
    ground (
      arith,
      get-record_failure t ip now ip,
      ip_beq_iff ip ip,
      c.free,
      c.number,
      keep-Within s t.window now fs a b c.within,
      length-append fs (now ∷ []),
    )

step-Clean :
    (s n : ℕ) (t : LockoutTracker) (ip : IpAddr) (now : ℕ)
    → s ≤ now
    → now < s + t.window
    → n + 1 < t.max_failures
    → t.max_failures < 2 ^ 32
    → Clean s n t ip
    → Clean s (n + 1) (step t (fails ip now)) ip
step-Clean s n t ip now a b m w c =
    let e = next_entry s n t ip now a b m w c in
    let fs = (or_default (get t.by_ip ip)).failures in
    record {
      free = rw e refl;
      within =
          rw (e, (step-SameParams t (fails ip now)).window)
            (Within-snoc s t.window now fs a b c.within);
      number = rw e (length-append fs (now ∷ []) ∙ ap (λ k. k + 1) c.number);
    }

pub run-Clean :
    (s n : ℕ) (t : LockoutTracker) (ip : IpAddr) (ts : List ℕ)
    → Within s t.window ts
    → n + length ts < t.max_failures
    → t.max_failures < 2 ^ 32
    → Clean s n t ip
    → Clean s (n + length ts) (run t (map (fails ip) ts)) ip
unfolding run
run-Clean s n t ip [] w m b c = let e : n ≡ n + 0 = omega arith in subst (λ k. Clean s k t ip) e c
run-Clean s n t ip (now ∷ ts) w m b c =
    let same = step-SameParams t (fails ip now) in
    let c1 = step-Clean s n t ip now w.0.0 w.0.1 (omega arith) b c in
    let rest =
      run-Clean s (n + 1) (step t (fails ip now)) ip ts (rw same.window w.1)
        (rw same.max_failures (omega arith)) (rw same.max_failures b) c1 in
    let e : n + 1 + length ts ≡ n + suc (length ts) = omega arith in
    subst (λ k. Clean s k (run (step t (fails ip now)) (map (fails ip) ts)) ip) e rest

pub run-SameParams : (t : LockoutTracker) (cs : List Call) → SameParams t (run t cs)
unfolding run
run-SameParams t [] = record { max_failures = refl; window = refl; lockout_duration = refl }
run-SameParams t (c ∷ cs) =
    let a = step-SameParams t c in
    let b = run-SameParams (step t c) cs in
    record {
      max_failures = b.max_failures ∙ a.max_failures;
      window = b.window ∙ a.window;
      lockout_duration = b.lockout_duration ∙ a.lockout_duration;
    }

-- An address of which nothing is known, and that fails only at times within one window, is locked
-- out by the failure that makes their number reach `max_failures`, and by none before it.
pub locked_by_the_last :
    (t : LockoutTracker) (ip : IpAddr) (s : ℕ) (ts : List ℕ) (now : ℕ)
    → get t.by_ip ip ≡ none
    → t.max_failures < 2 ^ 32
    → length ts < t.max_failures
    → Within s t.window ts
    → s ≤ now
    → now < s + t.window
    → (record_failure (run t (map (fails ip) ts)) ip now).1 ≡ leb t.max_failures (length ts + 1)
locked_by_the_last t ip s ts now e b m w a l =
    let same = run-SameParams t (map (fails ip) ts) in
    let start : Clean s 0 t ip = record {
      free = rw e refl;
      within = rw e tt;
      number = rw e refl;
    } in
    let e0 : 0 + length ts ≡ length ts = omega arith in
    let q = run t (map (fails ip) ts) in
    let c = subst (λ k. Clean s k q ip) e0 (run-Clean s 0 t ip ts w (omega arith) b start) in
    let last = record_failure-Clean s (length ts) q ip now a (rw same.window l) (omega arith) c in
    last ∙ ap (λ m. leb m (length ts + 1)) same.max_failures

-- The times of the calls stay below `until`.
abbrev Before : ℕ → List Call → Type 0
Before until = All (λ c. time c < until)

pub locked_entry :
    (t : LockoutTracker) (ip : IpAddr) (now : ℕ)
    → (record_failure t ip now).1 ≡ true
    → ban (get (record_failure t ip now).0.by_ip ip) ≡ some (now + t.lockout_duration)
unfolding record_failure count_failure
locked_entry t ip now h = ground (arith, get-record_failure t ip now ip, ip_beq_iff ip ip)

ban-step :
    (t : LockoutTracker) (c : Call) (ip : IpAddr) (until : ℕ)
    → time c < until
    → ban (get t.by_ip ip) ≡ some until
    → ban (get (step t c).by_ip ip) ≡ some until
unfolding step
ban-step t (fails j now) ip until b h =
    ground (arith, get-record_failure t j now ip, ip_beq_iff j ip)
ban-step t (checks j now) ip until b h =
    ground (arith, get-is_locked_out t j now ip, ip_beq_iff j ip)

ban-run :
    (t : LockoutTracker) (cs : List Call) (ip : IpAddr) (until : ℕ)
    → Before until cs
    → ban (get t.by_ip ip) ≡ some until
    → ban (get (run t cs).by_ip ip) ≡ some until
unfolding run
ban-run t [] ip until b h = h
ban-run t (c ∷ cs) ip until b h = ban-run (step t c) cs ip until b.1 (ban-step t c ip until b.0 h)

-- A lockout that a failure at `now` triggers ends exactly `lockout_duration` later: whatever calls
-- are made for whatever address before that time, further failures of this one included, the
-- address is locked out at `x` if and only if `x` lies before the end.
pub lockout_exact :
    (t : LockoutTracker) (ip : IpAddr) (now : ℕ) (cs : List Call) (x : ℕ)
    → (record_failure t ip now).1 ≡ true
    → Before (now + t.lockout_duration) cs
    → (is_locked_out (run (record_failure t ip now).0 cs) ip x).1 ≡ ltb x (now + t.lockout_duration)
lockout_exact t ip now cs x h b =
    let q = run (record_failure t ip now).0 cs in
    let e = ban-run (record_failure t ip now).0 cs ip _ b (locked_entry t ip now h) in
    is_locked_out-ban q ip x ∙ ap (λ u. is_banned u x) e

-- No ban lasts beyond `limit`.
abbrev EndsBy : ℕ → LockoutTracker → Type 0
EndsBy limit t = (ip : IpAddr) (until : ℕ) → ban (get t.by_ip ip) ≡ some until → until ≤ limit

step-EndsBy :
    (t : LockoutTracker) (c : Call) (limit : ℕ)
    → time c + t.lockout_duration ≤ limit
    → EndsBy limit t
    → EndsBy limit (step t c)
unfolding step count_failure
step-EndsBy t (fails j now) limit b h ip until e =
    ground (arith, get-record_failure t j now ip, ip_beq_iff j ip, h ip until)
step-EndsBy t (checks j now) limit b h ip until e =
    ground (arith, get-is_locked_out t j now ip, ip_beq_iff j ip, h ip until)

run-EndsBy :
    (t : LockoutTracker) (cs : List Call) (limit : ℕ)
    → All (λ c. time c + t.lockout_duration ≤ limit) cs
    → EndsBy limit t
    → EndsBy limit (run t cs)
unfolding run
run-EndsBy t [] limit b h = h
run-EndsBy t (c ∷ cs) limit b h =
    let same = (step-SameParams t c).lockout_duration in
    run-EndsBy (step t c) cs limit (rw same b.1) (step-EndsBy t c limit b.0 h)

-- Every lockout ends: if all calls so far were made at times up to `last`, and no ban of the start
-- lasted longer, then no address is locked out from `last + lockout_duration` on.
pub lockouts_end :
    (t : LockoutTracker) (cs : List Call) (last : ℕ) (ip : IpAddr) (x : ℕ)
    → All (λ c. time c + t.lockout_duration ≤ last + t.lockout_duration) cs
    → EndsBy (last + t.lockout_duration) t
    → last + t.lockout_duration ≤ x
    → (is_locked_out (run t cs) ip x).1 ≡ false
lockouts_end t cs last ip x b h le =
    let q = run t cs in
    let limits = run-EndsBy t cs (last + t.lockout_duration) b h ip in
    elim (Option-cases (ban (get q.by_ip ip))) [
      | inl e ↦ is_locked_out-ban q ip x ∙ ap (λ u. is_banned u x) e
      | inr (until, e) ↦
          let low = limits until e in
          is_locked_out-ban q ip x ∙ ap (λ u. is_banned u x) e ∙ ground (arith, low)
    ]

others-step :
    (t : LockoutTracker) (c : Call) (ip : IpAddr)
    → address c ≢ ip
    → get (step t c).by_ip ip ≡ get t.by_ip ip
unfolding step
others-step t (fails j now) ip d = ground (arith, get-record_failure t j now ip, ip_beq_iff j ip)
others-step t (checks j now) ip d = ground (arith, get-is_locked_out t j now ip, ip_beq_iff j ip)

others-run :
    (t : LockoutTracker) (cs : List Call) (ip : IpAddr)
    → All (λ c. address c ≢ ip) cs
    → get (run t cs).by_ip ip ≡ get t.by_ip ip
unfolding run
others-run t [] ip d = refl
others-run t (c ∷ cs) ip d = others-run (step t c) cs ip d.1 ∙ others-step t c ip d.0

-- Addresses are tracked apart: calls for other addresses change no answer about this one.
addresses_apart :
    (t : LockoutTracker) (cs : List Call) (ip : IpAddr) (x : ℕ)
    → All (λ c. address c ≢ ip) cs
    → ((is_locked_out (run t cs) ip x).1 ≡ (is_locked_out t ip x).1)
      × ((record_failure (run t cs) ip x).1 ≡ (record_failure t ip x).1)
unfolding record_failure count_failure
addresses_apart t cs ip x d =
    let e = others-run t cs ip d in
    let same = run-SameParams t cs in
    (
      is_locked_out-ban (run t cs) ip x
          ∙ ap (λ u. is_banned (ban u) x) e
          ∙ sym (is_locked_out-ban t ip x),
      ground (arith, e, same.max_failures, same.window, same.lockout_duration),
    )

-- A failure that comes after a lockout has run out, and before a check has dropped its entry, is
-- counted and then forgotten by that check.
pub expired_ban_forgets :
    (t : LockoutTracker) (ip : IpAddr) (s : IpState) (until now x : ℕ)
    → get t.by_ip ip ≡ some s
    → s.locked_until ≡ some until
    → until ≤ now
    → now ≤ x
    → (record_failure t ip now).1 ≡ false
    → get (is_locked_out (record_failure t ip now).0 ip x).0.by_ip ip ≡ none
unfolding record_failure count_failure
expired_ban_forgets t ip s until now x e l a b h = ground (
  arith,
  get-is_locked_out (record_failure t ip now).0 ip x ip,
  get-record_failure t ip now ip,
  ip_beq_iff ip ip,
)
