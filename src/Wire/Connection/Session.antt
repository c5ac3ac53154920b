-- ===== src/Wire/Connection/Session.antt =====
-- `handle_connection` of src/wire/connection.rs: the session loop and what stands around it.
use holler_server.Prelude.{
  ℕ, Bool, true, false, String, List, [], ◌∷◌, ◌++◌, none, some, if◌then◌else◌,
}
use holler_server.Net.{IpAddr}
use holler_server.Lockout.{is_locked_out}
use holler_server.Token.Record.{VerifiedClient}
use holler_server.Proto.{Envelope, error_with_message}
use holler_server.Roster.{mark_gone}
use holler_server.Wire.Frames.{server_hello}
use holler_server.Wire.Registry.{Effect, insert_client, remove_client}
use holler_server.Wire.Connection.{
  Server, Context, Incoming, Sent, frame, code_unknown_type, next_text_frame, in_time,
}
use holler_server.Wire.Connection.Admission.{Attempt, closed, authenticated, first_frame}
use holler_server.Wire.Connection.Dispatch.{Moment, Reaction, handle_frame}

-- What the loop waits for: a frame of the client, or one that another task has for its socket; the
-- channel closes when the entry is replaced.
pub data Happening : Type 0 where
  incoming : Incoming → Happening
  outgoing : Envelope → (is_written : Bool) → Happening
  channel_closed : Happening

-- A turn of the loop, and what other tasks did to the shared objects before it.
pub record Turn (Contents : Type 0) : Type 0 where
  pub others : Server Contents → Server Contents
  pub happening : Happening
  pub moment : Moment Contents

-- Whether the loop is over, and whether it is certain that the client is.
pub data Ended : Type 0 where
  running : Ended
  over : (certain_close : Bool) → Ended

pub record Ran (Contents : Type 0) : Type 0 where
  pub server : Server Contents
  pub sent : List Sent
  pub effects : List Effect
  pub ended : Ended

abbrev binary_refusal : Sent
binary_refusal =
    frame
      (error_with_message code_unknown_type "binary frames are not part of Holler v1" "" "server")

abbrev pub ran : {Contents : Type 0} → Server Contents → List Sent → Ended → Ran Contents
ran s sent ended = record { server = s; sent = sent; effects = []; ended = ended }

abbrev pub stay_or_close : Bool → Ended
stay_or_close true = running
stay_or_close false = over false

abbrev reacted : {Contents : Type 0} → Reaction Contents → Ran Contents
reacted r = record {
  server = r.server;
  sent = r.sent;
  effects = r.effects;
  ended = stay_or_close r.stays;
}

-- Everything that a task does from outside: when it is accepted, whether the WebSocket handshake
-- succeeds, what the stream yields at first and when, whether the hello is written, the turns of the
-- loop, and what the other tasks do in between.
pub record Script (Contents : Type 0) : Type 0 where
  pub peer : IpAddr
  pub accepted_at : ℕ
  pub handshakes : Bool
  pub first : List (ℕ × Incoming)
  pub before_first : Server Contents → Server Contents
  pub attempt : Attempt
  pub before_insert : Server Contents → Server Contents
  pub channel : ℕ
  pub hello_id : String
  pub hello_ts : String
  pub hello_written : Bool
  pub turns : List (Turn Contents)
  pub before_removal : Server Contents → Server Contents

module _ {Contents : Type 0} (ctx : Context Contents) where
  unfoldable pub take_turn :
      VerifiedClient → Happening → Moment Contents → Server Contents → Ran Contents
  unfolding handle_frame
  take_turn v (incoming (Incoming.text raw)) m s =
      reacted (handle_frame ctx v.token_id v.client_id m raw s)
  take_turn v (incoming Incoming.ping) m s = ran s (Sent.pong ∷ []) running
  take_turn v (incoming Incoming.pong) m s = ran s [] running
  take_turn v (incoming Incoming.close) m s = ran s [] (over true)
  take_turn v (incoming Incoming.eof) m s = ran s [] (over true)
  take_turn v (incoming Incoming.binary) m s = ran s (binary_refusal ∷ []) (over false)
  take_turn v (incoming Incoming.failed) m s = ran s [] (over false)
  take_turn v (outgoing env true) m s = ran s (frame env ∷ []) running
  take_turn v (outgoing env false) m s = ran s [] (over false)
  take_turn v channel_closed m s = ran s [] (over false)

  abbrev after_turn : Ran Contents → Ran Contents → Ran Contents
  after_turn first rest = elim first.ended [
    | over certain ↦ first
    | running ↦ record {
      server = rest.server;
      sent = first.sent ++ rest.sent;
      effects = first.effects ++ rest.effects;
      ended = rest.ended;
    }
  ]

  unfoldable pub session_loop :
      VerifiedClient → List (Turn Contents) → Server Contents → Ran Contents
  unfolding take_turn
  session_loop v [] s = ran s [] running
  session_loop v (t ∷ ts) s =
      let first = take_turn v t.happening t.moment (t.others s) in
      after_turn first (session_loop v ts first.server)

  -- What follows the loop.
  unfoldable pub teardown : VerifiedClient → Bool → Server Contents → Server Contents
  teardown v certain s =
      let removed = record s { registry = (remove_client s.registry v.token_id).1 } in
      if certain then record removed { roster = mark_gone s.roster v.token_id } else removed

  abbrev finish : Script Contents → VerifiedClient → Ran Contents → Ran Contents
  finish c v r = elim r.ended [
    | running ↦ r
    | over certain ↦ record r { server = teardown v certain (c.before_removal r.server) }
  ]

  abbrev with_output : List Sent → List Effect → Ran Contents → Ran Contents
  with_output sent effects r = record r { sent = sent ++ r.sent; effects = effects ++ r.effects }

  unfoldable pub serve_client : Script Contents → VerifiedClient → Server Contents → Ran Contents
  unfolding session_loop teardown
  serve_client c v s =
      let (g, effects) = insert_client s.registry v.token_id v.client_id v.machine c.channel in
      let registered = record s { registry = g } in
      if c.hello_written
      then with_output (frame (server_hello c.hello_ts c.hello_id ctx.server_hostname) ∷ []) effects
          (finish c v (session_loop v c.turns registered))
      else with_output [] effects
          (ran (record registered { registry = (remove_client g v.token_id).1 }) [] (over false))

  -- What the first frame leads to.
  unfoldable pub admit : Script Contents → String → Server Contents → Ran Contents
  unfolding serve_client
  admit c raw s =
      let (s', admitted) = first_frame ctx c.peer c.attempt raw s in
      elim admitted [
        | closed sent ↦ ran s' sent (over false)
        | authenticated v ↦ serve_client c v (c.before_insert s')
      ]

  unfoldable pub handle_connection : Script Contents → Server Contents → Ran Contents
  unfolding admit
  handle_connection c s =
      let (lockout, locked) = is_locked_out s.lockout c.peer c.accepted_at in
      let checked = record s { lockout = lockout } in
      if locked
      then ran checked [] (over false)
      else if c.handshakes
      then elim (next_text_frame (in_time ctx.limits.pre_auth_timeout c.first)) [
        | none ↦ ran checked [] (over false)
        | some (raw, rest) ↦ admit c raw (c.before_first checked)
      ]
      else ran checked [] (over false)
