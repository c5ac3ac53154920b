-- ===== src/Wire/Control/Socket.antt =====
-- The control socket of src/wire/control.rs: `bind_control_socket`, and the end of `serve_control_socket`. A
-- process is a number; the socket's file has the number of the process that bound it.
use holler_server.Prelude.{
  ℕ, ◌≡◌, ◌≢◌, Bool, true, false, String, List, [], ◌∷◌, Option, none, some, arith, inl, inr,
  nat_beq, nat_beq_iff, if◌then◌else◌, Option-cases,
}

-- The place that the processes share: the socket's file, and which processes listen at the socket that
-- they bound, whether or not it still has the file.
pub record Place : Type 0 where
  pub file : Option ℕ
  pub listening : ℕ → Bool

pub data Bound : Type 0 where
  ok already_running : Bound
  failed : String → Bound

-- `control_socket_is_live`: a connection is made exactly if the file's process listens.
unfoldable pub control_socket_is_live : Place → Bool
control_socket_is_live s = elim s.file [ none ↦ false | some owner ↦ s.listening owner ]

abbrev pub sets : ℕ → Bool → (ℕ → Bool) → ℕ → Bool
sets p b f q = if nat_beq p q then b else f q

-- A process whose listener is dropped, by a crash or at its end; the file stays.
abbrev pub stops_listening : ℕ → Place → Place
stops_listening p s = record s { listening = sets p false s.listening }

-- What the operating system's calls do: whether a file in the way can be removed, what binding fails
-- with where a file is in the way, and what binding and restricting the file fail with, if they fail.
pub record Calls : Type 0 where
  pub removes : Bool
  pub in_use : String
  pub bind_error : Option String
  pub chmod_error : Option String

-- After the probe: bind, which fails if a file is in the way, and restrict the file to its owner. The
-- listener is dropped if that fails.
unfoldable pub bind_fresh : ℕ → Calls → Place → Bound × Place
bind_fresh me calls s = elim s.file [
  | some owner ↦ (failed calls.in_use, s)
  | none ↦ elim calls.bind_error [
    | some e ↦ (failed e, s)
    | none ↦
        let bound : Place = record { file = some me; listening = sets me true s.listening } in
        elim calls.chmod_error [
          | none ↦ (ok, bound)
          | some e ↦ (failed e, stops_listening me bound)
        ]
  ]
]

-- A file that nobody answers at is removed; a failure is ignored.
abbrev pub without_file : Calls → Place → Place
without_file calls s = if calls.removes then record s { file = none } else s

unfoldable pub bind_control_socket : ℕ → Calls → Place → Bound × Place
unfolding control_socket_is_live bind_fresh
bind_control_socket me calls s =
    if control_socket_is_live s
    then (already_running, s)
    else bind_fresh me calls (without_file calls s)

-- The end of `serve_control_socket`: the file is removed, whoever has it, and the listener dropped.
unfoldable pub shut_down : ℕ → Place → Place
shut_down p s = if s.listening p then stops_listening p (record s { file = none }) else s

pub data Event : Type 0 where
  starts : ℕ → Calls → Event
  crashes ends : ℕ → Event

unfoldable pub step : Place → Event → Place
unfolding bind_control_socket shut_down
step s (starts p calls) = (bind_control_socket p calls s).1
step s (crashes p) = stops_listening p s
step s (ends p) = shut_down p s

unfoldable pub run : Place → List Event → Place
unfolding step
run s [] = s
run s (e ∷ es) = run (step s e) es

-- Calls that succeed.
abbrev pub works : Calls
works = record { removes = true; in_use = "in use"; bind_error = none; chmod_error = none }

-- Whoever listens has the file.
pub record IsOwned (s : Place) : Type 0 where
  pub owner : (p : ℕ) → s.listening p ≡ true → s.file ≡ some p

step-IsOwned : (s : Place) (e : Event) → IsOwned s → IsOwned (step s e)
unfolding step
step-IsOwned s (starts p calls) i = record {
  owner = λ q h. elim (Option-cases s.file) [
    | inl n ↦ ground (arith, h, n, i.owner q, nat_beq_iff p q)
    | inr (o, n) ↦ ground (arith, h, n, i.owner q, i.owner o, nat_beq_iff p q)
  ];
}
step-IsOwned s (crashes p) i = record {
  owner = λ q h. ground (arith, h, i.owner q, nat_beq_iff p q);
}
step-IsOwned s (ends p) i = record {
  owner = λ q h. ground (arith, h, i.owner q, i.owner p, nat_beq_iff p q);
}

run-IsOwned : (s : Place) (es : List Event) → IsOwned s → IsOwned (run s es)
unfolding run
run-IsOwned s [] i = i
run-IsOwned s (e ∷ es) i = run-IsOwned (step s e) es (step-IsOwned s e i)

listens_alone :
    (s : Place) (p q : ℕ) → IsOwned s → s.listening p ≡ true → s.listening q ≡ true → p ≡ q
listens_alone s p q i h k = ground (arith, i.owner p h, i.owner q k)

-- One server to a state directory, and no dead one in its way: whatever processes have started there, one
-- start after the other, crashed or ended, at most one listens; while one does, every start is
-- refused and changes nothing, and when none does, a start succeeds, if removing what is left,
-- binding and restricting the file do.
pub one_server :
    (es : List Event)
    → let s = run (record { file = none; listening = λ p. false }) es in
      ((p q : ℕ) → s.listening p ≡ true → s.listening q ≡ true → p ≡ q)
      × ((p me : ℕ) (calls : Calls)
          → s.listening p ≡ true
          → bind_control_socket me calls s ≡ (already_running, s))
      × ((me : ℕ)
          → ((p : ℕ) → s.listening p ≡ false)
          → let (result, after) = bind_control_socket me works s in
            (result ≡ ok) × (after.listening me ≡ true))
unfolding bind_control_socket
one_server es =
    let s = run (record { file = none; listening = λ p. false }) es in
    let i : IsOwned s =
      run-IsOwned (record { file = none; listening = λ p. false }) es
        (record { owner = λ p h. absurd (ground (arith, h)) }) in
    (
      λ p q h k. listens_alone s p q i h k,
      λ p me calls h. ground (arith, h, i.owner p h),
      λ me nobody. elim (Option-cases s.file) [
        | inl n ↦ (ground (arith, n), ground (arith, n, nat_beq_iff me me))
        | inr (o, n) ↦ (ground (arith, n, nobody o), ground (arith, n, nobody o, nat_beq_iff me me))
      ],
    )

-- What a process does after its probe found a file at which nobody answers.
abbrev pub taken : ℕ → Place → Place
taken p s = (bind_fresh p works (without_file works s)).1

-- Two processes that start at once both get through, where a crashed one has left its file: if both
-- probe the socket before either binds it, then both listen afterwards, and the file is the second
-- one's; and when the first one ends, it removes the file of the second, which listens on.
pub both_start :
    (s : Place) (o p q : ℕ)
    → p ≢ q
    → s.file ≡ some o
    → s.listening o ≡ false
    → (control_socket_is_live s ≡ false)
      × (let t = taken q (taken p s) in
          (t.listening p ≡ true)
          × (t.listening q ≡ true)
          × (t.file ≡ some q)
          × ((shut_down p t).file ≡ none)
          × ((shut_down p t).listening q ≡ true))
unfolding control_socket_is_live bind_fresh shut_down
both_start s o p q d left dead =
    ground
      (arith, left, dead, d, nat_beq_iff p q, nat_beq_iff q p, nat_beq_iff p p, nat_beq_iff q q)
