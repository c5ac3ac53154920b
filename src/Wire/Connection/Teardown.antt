-- ===== src/Wire/Connection/Teardown.antt =====
-- How a session of src/wire/connection.rs ends, and what it writes before.
use holler_server.Prelude.{
  ℕ, ◌≡◌, ◌≢◌, refl, sym, ◌↔◌, ◌∙◌, ap, Bool, true, false, String, List, [], ◌∷◌, none, some,
  string_eq, arith, inl, inr, eq_iff, Option-cases,
}
use holler_server.Prelude.Dict.{get, get-remove, get-map_values}
use holler_server.Token.Record.{VerifiedClient}
use holler_server.Roster.{Roster, resolve_session, mark_gone, state_at}
use holler_server.Roster.Steps.{left}
use holler_server.Wire.Registry.{remove_client, insert_client}
use holler_server.Wire.Connection.{Server, Context, Incoming}
use holler_server.Wire.Connection.Dispatch.{Moment, handle_frame}
use holler_server.Wire.Connection.Cases.{Ended-cases}
use holler_server.Wire.Connection.Session.{
  Turn, Happening, incoming, outgoing, channel_closed, running, over, Ran, Script, take_turn,
  session_loop, teardown, serve_client, stay_or_close,
}

same_end : (certain : Bool) → over certain ≡ over true → certain ≡ true
same_end certain e = ground (arith, e)

not_certain : (b : Bool) → stay_or_close b ≢ over true
not_certain true e = ground (arith, e)
not_certain false e = ground (arith, e)

module _ {Contents : Type 0} (ctx : Context Contents) where
  -- The client closed the connection, or the stream ended.
  pub data Left : Happening → Type 0 where
    closed : Left (incoming Incoming.close)
    ended : Left (incoming Incoming.eof)

  -- The loop comes to a turn in which the client has left.
  pub data LeavesIn (v : VerifiedClient) : List (Turn Contents) → Server Contents → Type 0 where
    now :
        {t : Turn Contents} {ts : List (Turn Contents)} {s : Server Contents}
        → Left t.happening
        → LeavesIn v (t ∷ ts) s
    later :
        {t : Turn Contents} {ts : List (Turn Contents)} {s : Server Contents}
        → (take_turn ctx v t.happening t.moment (t.others s)).ended ≡ running
        → LeavesIn v ts (take_turn ctx v t.happening t.moment (t.others s)).server
        → LeavesIn v (t ∷ ts) s

  take_turn-Left :
      (v : VerifiedClient) (h : Happening) (m : Moment Contents) (s : Server Contents)
      → (take_turn ctx v h m s).ended ≡ over true
      → Left h
  unfolding take_turn
  take_turn-Left v (incoming (Incoming.text raw)) m s e =
      absurd (not_certain (handle_frame ctx v.token_id v.client_id m raw s).stays e)
  take_turn-Left v (incoming Incoming.ping) m s e = absurd (ground (arith, e))
  take_turn-Left v (incoming Incoming.pong) m s e = absurd (ground (arith, e))
  take_turn-Left v (incoming Incoming.close) m s e = closed
  take_turn-Left v (incoming Incoming.eof) m s e = ended
  take_turn-Left v (incoming Incoming.binary) m s e = absurd (ground (arith, e))
  take_turn-Left v (incoming Incoming.failed) m s e = absurd (ground (arith, e))
  take_turn-Left v (outgoing env true) m s e = absurd (ground (arith, e))
  take_turn-Left v (outgoing env false) m s e = absurd (ground (arith, e))
  take_turn-Left v channel_closed m s e = absurd (ground (arith, e))

  Left-take_turn :
      (v : VerifiedClient) (h : Happening) (m : Moment Contents) (s : Server Contents)
      → Left h
      → (take_turn ctx v h m s).ended ≡ over true
  unfolding take_turn
  Left-take_turn v h m s closed = refl
  Left-take_turn v h m s ended = refl

  loop-LeavesIn :
      (v : VerifiedClient) (ts : List (Turn Contents)) (s : Server Contents)
      → (session_loop ctx v ts s).ended ≡ over true
      → LeavesIn v ts s
  unfolding session_loop
  loop-LeavesIn v [] s e = absurd (ground (arith, e))
  loop-LeavesIn v (t ∷ ts) s e =
      let first = take_turn ctx v t.happening t.moment (t.others s) in
      elim (Ended-cases first.ended) [
        | inl h ↦ later h (loop-LeavesIn v ts first.server (ground (arith, e, h)))
        | inr (certain, h) ↦
            now (take_turn-Left v t.happening t.moment (t.others s) (ground (arith, e, h)))
      ]

  LeavesIn-loop :
      (v : VerifiedClient) (ts : List (Turn Contents)) (s : Server Contents)
      → LeavesIn v ts s
      → (session_loop ctx v ts s).ended ≡ over true
  unfolding session_loop
  LeavesIn-loop v [] s l = elim l [ ]
  LeavesIn-loop v (t ∷ ts) s (now l) =
      let h = Left-take_turn v t.happening t.moment (t.others s) l in ground (arith, h)
  LeavesIn-loop v (t ∷ ts) s (later h l) =
      let first = take_turn ctx v t.happening t.moment (t.others s) in
      ground (arith, h, LeavesIn-loop v ts first.server l)

  -- No session is routed to the token.
  abbrev pub Unrouted : String → Roster → Type 0
  Unrouted token_id r = (x : ℕ) (name : String) → resolve_session r x name ≢ some token_id

  mark_gone-Unrouted : (r : Roster) (token_id : String) → Unrouted token_id (mark_gone r token_id)
  unfolding mark_gone resolve_session state_at
  mark_gone-Unrouted r token_id x name e = elim (Option-cases (get r.entries name)) [
    | inl h ↦ ground (arith, e, h, get-map_values (left token_id) r.entries name)
    | inr (row, h) ↦
        ground
          (arith, e, h, get-map_values (left token_id) r.entries name, eq_iff row.token_id token_id)
  ]

  teardown_removes :
      (v : VerifiedClient) (certain : Bool) (s : Server Contents)
      → get (teardown ctx v certain s).registry.entries v.token_id ≡ none
  unfolding teardown remove_client
  teardown_removes v true s =
      ground
        (arith, get-remove s.registry.entries v.token_id v.token_id, eq_iff v.token_id v.token_id)
  teardown_removes v false s =
      ground
        (arith, get-remove s.registry.entries v.token_id v.token_id, eq_iff v.token_id v.token_id)

  -- The loop of a client that is registered, and what the others do before it is removed.
  abbrev pub registered_for : Script Contents → VerifiedClient → Server Contents → Server Contents
  registered_for c v s = record s {
    registry = (insert_client s.registry v.token_id v.client_id v.machine c.channel).0;
  }

  abbrev pub loop_of : Script Contents → VerifiedClient → Server Contents → Ran Contents
  loop_of c v s = session_loop ctx v c.turns (registered_for c v s)

  serve_client-over :
      (c : Script Contents) (v : VerifiedClient) (s : Server Contents) (certain : Bool)
      → c.hello_written ≡ true
      → (serve_client ctx c v s).ended ≡ over certain
      → ((loop_of c v s).ended ≡ over certain)
        × ((serve_client ctx c v s).server
            ≡ teardown ctx v certain (c.before_removal (loop_of c v s).server))
  unfolding serve_client
  serve_client-over c v s certain w e = elim (Ended-cases (loop_of c v s).ended) [
    | inl h ↦ absurd (ground (arith, w, e, h))
    | inr (x, h) ↦
        let same : x ≡ certain = ground (arith, w, e, h) in
        (ground (arith, h, same), ground (arith, w, h, same))
  ]

  -- A session that is over is off the registry, and off the roster exactly if that is certain: when a
  -- client that was greeted is no longer served, its token has no connection; if, and only if, the
  -- client closed the connection or the stream ended is the end certain, and then none of its
  -- sessions is routed, at any time, until it is announced again; if the end came otherwise, the
  -- rows are as they were and decay by their age.
  pub session_ends :
      (c : Script Contents) (v : VerifiedClient) (s : Server Contents) (certain : Bool)
      → c.hello_written ≡ true
      → (serve_client ctx c v s).ended ≡ over certain
      → let r = (serve_client ctx c v s).server in
        (get r.registry.entries v.token_id ≡ none)
        × ((certain ≡ true) ↔ LeavesIn v c.turns (registered_for c v s))
        × (LeavesIn v c.turns (registered_for c v s) → Unrouted v.token_id r.roster)
        × ((certain ≡ false) → r.roster ≡ (c.before_removal (loop_of c v s).server).roster)
  unfolding teardown
  session_ends c v s certain w e =
      let (looped, torn) = serve_client-over c v s certain w e in
      let last = c.before_removal (loop_of c v s).server in
      let sure : LeavesIn v c.turns (registered_for c v s) → certain ≡ true =
        λ l. same_end certain (sym looped ∙ LeavesIn-loop v c.turns (registered_for c v s) l) in
      (
        rw torn (teardown_removes v certain last),
        (λ h. loop-LeavesIn v c.turns (registered_for c v s) (looped ∙ ap over h), sure),
        λ l. rw (torn, sure l) (mark_gone-Unrouted last.roster v.token_id),
        λ h. rw (torn, h) refl,
      )
