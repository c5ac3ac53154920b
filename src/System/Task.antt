-- ===== src/System/Task.antt =====
-- The whole task `handle_connection` of src/wire/connection.rs as a path of steps of the running server.
use holler_server.Prelude.{ℕ, ◌≡◌, Bool, String, List, [], ◌∷◌, Option, none, some, if◌then◌else◌}
use holler_server.Lockout.{is_locked_out}
use holler_server.Token.Record.{VerifiedClient}
use holler_server.Wire.Registry.{insert_client}
use holler_server.Wire.Connection.{Server, Context, Incoming, next_text_frame, in_time}
use holler_server.Wire.Connection.Admission.{authenticated, first_frame}
use holler_server.Wire.Connection.Session.{
  Script, Turn, Ended, Ran, running, over, take_turn, teardown,
}
use holler_server.System.{
  System, Phase, before_first_frame, greeting, serving, Reach, moved, after_first, after_turn,
  turns,
}

module _ {Contents : Type 0} (ctx : Context Contents) (k : ℕ) where
  -- What other tasks do while this one waits: a path of steps from the state in which it waits, in which
  -- other connections may come, go on and end, to one in which it still waits there. They leave
  -- the shared objects that the function gives.
  pub record Interlude (f : Server Contents → Server Contents) (s : System Contents) : Type 0 where
    pub after : System Contents
    pub path : Reach ctx s after
    pub shared : after.server ≡ f s.server
    pub stays : after.tasks k ≡ s.tasks k

  -- The states after the task's own steps.
  abbrev pub accepted : Script Contents → System Contents → System Contents
  accepted c s =
      let (lockout, locked) = is_locked_out s.server.lockout c.peer c.accepted_at in
      moved s k (if locked then none else some before_first_frame)
        (record s.server { lockout = lockout })

  abbrev pub presented : Script Contents → String → System Contents → System Contents
  presented c raw s =
      let (server, result) = first_frame ctx c.peer c.attempt raw s.server in
      moved s k (after_first result) server

  abbrev pub greeted : Script Contents → VerifiedClient → System Contents → System Contents
  greeted c v s =
      let registered = record s.server {
        registry = (insert_client s.server.registry v.token_id v.client_id v.machine c.channel).0;
      } in
      moved (moved s k (some (greeting v)) registered) k (some (serving v)) registered

  abbrev pub turned : VerifiedClient → Turn Contents → System Contents → System Contents
  turned v t s =
      let r = take_turn ctx v t.happening t.moment s.server in
      moved s k (some (after_turn v r.ended)) r.server

  -- What the other tasks do before each turn, and after the last.
  abbrev pub Between :
      VerifiedClient
      → (Server Contents → Server Contents)
      → List (Turn Contents)
      → System Contents
      → Type 0
  Between v last [] s = Unit
  Between v last (t ∷ ts) s =
      (i : Interlude t.others s) × ((take_turn ctx v t.happening t.moment i.after.server).ended
          ≡ running
        → Between v last ts (turned v t i.after))
      × ((certain : Bool)
          → (take_turn ctx v t.happening t.moment i.after.server).ended ≡ over certain
          → Interlude last (turned v t i.after))

  -- What they do during the whole of a connection.
  abbrev pub Meanwhile : Script Contents → System Contents → Type 0
  Meanwhile c s =
      (raw : String) (rest : List Incoming)
      → next_text_frame (in_time ctx.limits.pre_auth_timeout c.first) ≡ some (raw, rest)
      → (i : Interlude c.before_first (accepted c s)) × ((v : VerifiedClient)
          → (first_frame ctx c.peer c.attempt raw i.after.server).1 ≡ authenticated v
          → (j : Interlude c.before_insert (presented c raw i.after)) × Between v c.before_removal
              c.turns (greeted c v j.after))

  -- A state that can be reached, with these shared objects, in which the task stands here.
  pub record IsAt (s : System Contents) (server : Server Contents) (phase : Option Phase)
      : Type 0 where
    pub system : System Contents
    pub path : Reach ctx s system
    pub shared : system.server ≡ server
    pub at : system.tasks k ≡ phase

  -- The end of a connection, or where its task stands.
  abbrev pub IsDone : System Contents → Ran Contents → Type 0
  IsDone s r =
      (phase : Option Phase) × IsAt s r.server phase
      × ((certain : Bool) → r.ended ≡ over certain → phase ≡ none)

  -- The shared objects after the loop and the teardown.
  abbrev torn :
      VerifiedClient → (Server Contents → Server Contents) → Ran Contents → Server Contents
  torn v last r = elim r.ended [
    | running ↦ r.server
    | over certain ↦ teardown ctx v certain (last r.server)
  ]

  abbrev stands : VerifiedClient → Ended → Option Phase
  stands v running = some (serving v)
  stands v (over certain) = none
