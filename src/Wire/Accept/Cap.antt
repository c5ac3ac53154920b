-- ===== src/Wire/Accept/Cap.antt =====
-- The cap on connections that have not authenticated, in src/wire/mod.rs.
use holler_server.Prelude.{
  ℕ, zero, suc, ◌+◌, ◌≤◌, ◌≡◌, refl, true, List, [], ◌∷◌, arith, if◌then◌else◌, ltb, length,
  Bool-cases, inl, inr,
}
use holler_server.Wire.Accept.{
  Accepting, Event, news, changed, sender_gone, accepts, accept_failed, authenticates, ends,
  listening, step, run, release, holds, without, accepted,
}

length-without :
    (id : ℕ) (xs : List ℕ) → holds id xs ≡ true → suc (length (without id xs)) ≡ length xs
length-without id [] h = absurd (ground (arith, h))
length-without id (x ∷ xs) h = ground (arith, h, length-without id xs)

-- The slots that are free and those that are held are all the slots.
abbrev IsCapped : ℕ → Accepting → Type 0
IsCapped cap a = a.slots + length a.unauthenticated ≡ cap

release-IsCapped : (cap id : ℕ) (a : Accepting) → IsCapped cap a → IsCapped cap (release a id)
unfolding release
release-IsCapped cap id a h = elim (Bool-cases (holds id a.unauthenticated)) [
  | inl e ↦ let n = length-without id a.unauthenticated e in ground (arith, h, e, n)
  | inr e ↦ ground (arith, h, e)
]

accepted-IsCapped :
    (cap id : ℕ) (a : Accepting) (n : ℕ)
    → a.slots ≡ n
    → IsCapped cap a
    → IsCapped cap (accepted a id n)
accepted-IsCapped cap id a zero e h = h
accepted-IsCapped cap id a (suc n) e h = omega (arith, e, h)

step-IsCapped : (cap : ℕ) (a : Accepting) (e : Event) → IsCapped cap a → IsCapped cap (step a e)
unfolding step
step-IsCapped cap a (news (changed stop)) h = ground (arith, h)
step-IsCapped cap a (news sender_gone) h = h
step-IsCapped cap a (accepts id) h = ground (arith, h, accepted-IsCapped cap id a a.slots refl h)
step-IsCapped cap a accept_failed h = h
step-IsCapped cap a (authenticates id) h = ground (arith, h, release-IsCapped cap id a h)
step-IsCapped cap a (ends id) h = release-IsCapped cap id a h

run-IsCapped :
    (cap : ℕ) (a : Accepting) (es : List Event) → IsCapped cap a → IsCapped cap (run a es)
unfolding run
run-IsCapped cap a [] h = h
run-IsCapped cap a (e ∷ es) h = run-IsCapped cap (step a e) es (step-IsCapped cap a e h)

accepted-taken :
    (cap id : ℕ) (a : Accepting) (n : ℕ)
    → a.slots ≡ n
    → IsCapped cap a
    → (accepted a id n).unauthenticated
      ≡ (if ltb (length a.unauthenticated) cap then id ∷ a.unauthenticated else a.unauthenticated)
accepted-taken cap id a zero e h = ground (arith, e, h)
accepted-taken cap id a (suc n) e h = ground (arith, e, h)

-- The cap holds, and turns nobody away for nothing: whatever has happened since the server began to
-- listen, at most `max_unauth_connections` connections are short of authentication; and as long as
-- the loop runs, the next connection is taken exactly if there are fewer, however many live
-- sessions there are.
pub cap_holds :
    (cap : ℕ) (es : List Event) (id : ℕ)
    → let a = run (listening cap) es in
      (length a.unauthenticated ≤ cap)
      × (a.accepts_more ≡ true
          → ((step a (accepts id)).unauthenticated ≡ (
              if ltb (length a.unauthenticated) cap
              then id ∷ a.unauthenticated
              else a.unauthenticated)))
unfolding step listening
cap_holds cap es id =
    let a = run (listening cap) es in
    let h = run-IsCapped cap (listening cap) es (omega arith) in
    (omega (arith, h), λ m. ground (arith, m, accepted-taken cap id a a.slots refl h))
