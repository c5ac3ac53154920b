-- ===== src/Wire/Control.antt =====
-- src/wire/control.rs: what a running server answers to the local command line. It works on the same
-- shared objects as the connections.
pub mod Client
pub mod Requests
pub mod Confirmed
pub mod Calm
pub mod Socket
pub mod Lines
pub mod Tests
use Prim.Native.String.{◌++◌ as append}
use holler_server.Prelude.{
  ℕ, Bool, true, false, String, List, [], ◌∷◌, map, Option, none, some, if◌then◌else◌, ◌==◌,
  string_eq,
}
use holler_server.Text.{codes, trim}
use holler_server.Token.Record.{ConnectionStatus}
use holler_server.Proto.Json.{ℤ, as_bool, field_of}
use holler_server.Proto.{ErrorBody, QueryOkBody}
use holler_server.Roster.{
  Roster, RosterRow, RosterState, connected, reconnecting, gone, resolve_session, mark_gone,
  snapshot, live_count,
}
use holler_server.Wire.Registry.{
  Registry, Effect, PendingQueryReply, PendingAnswerReply, PromptEvent, len, remove_client,
  resolve_target, hostname_of, record_harness_confirmed, confirmed_harnesses_snapshot,
}
use holler_server.Wire.Registry.Waiting.{
  World, Ending, QueryOutcome, PromptOutcome, InterruptOutcome, AnswerOutcome, ping as ping_client,
  query as query_client, prompt as prompt_client, interrupt as interrupt_client,
  answer as answer_client,
}
use holler_server.Wire.TalkLog.{Write, record_prompt}
use holler_server.Wire.Query.{Answered, Facts, dispatch}
use holler_server.Wire.Connection.{Server, Context}

pub data Request : Type 0 where
  status roster : Request
  ping : (token_id : String) → Request
  query : (target : Option String) (query_cmd : String) (args : List String) → Request
  say : (session text : String) → Request
  interrupt : (session : String) → Request
  answer : (session choice : String) → Request
  revoke : (token_id : String) → Request

pub record PingReply : Type 0 where
  pub connected : Bool
  pub hostname : Option String
  pub rtt_ms : Option ℕ

pub data QueryReply : Type 0 where
  ok : QueryOkBody → QueryReply
  err : ErrorBody → QueryReply
  not_connected : QueryReply

pub data SayReply : Type 0 where
  ok : (text : String) (exit : Option ℤ) → SayReply
  interrupted : SayReply
  err : ErrorBody → SayReply

pub data InterruptReply : Type 0 where
  ok timed_out disconnected : InterruptReply
  err : ErrorBody → InterruptReply

pub data AnswerReply : Type 0 where
  ok timed_out disconnected : AnswerReply
  err : ErrorBody → AnswerReply

pub record StatusDoc : Type 0 where
  pub hostname : String
  pub listening : List String
  pub clients : ℕ

pub record RosterRowDoc : Type 0 where
  pub name : String
  pub harness : String
  pub client_id : String
  pub state : String
  pub last_seen_ms : ℕ
  pub mode : Option String
  pub harness_session_id : Option String
  pub blocked : Bool

pub data Response : Type 0 where
  status : StatusDoc → Response
  ping : PingReply → Response
  roster : List RosterRowDoc → Response
  query : QueryReply → Response
  say : SayReply → Response
  interrupt : InterruptReply → Response
  answer : AnswerReply → Response
  revoke : (closed : Bool) → Response

abbrev code_unknown_session : String
code_unknown_session = "unknown_session"

abbrev pub unknown_session : String → ErrorBody
unknown_session session = record {
  code = code_unknown_session;
  cmd = none;
  message = some (append "unknown session: " session);
}

abbrev connection_gone : String → ErrorBody
connection_gone session = record {
  code = code_unknown_session;
  cmd = none;
  message = some (append "session " (append session "'s connection is gone"));
}

unfoldable state_name : RosterState → String
state_name connected = "connected"
state_name reconnecting = "reconnecting"
state_name gone = "gone"

unfoldable row_doc : RosterRow → RosterRowDoc
unfolding state_name
row_doc r = record {
  name = r.name;
  harness = r.harness;
  client_id = r.client_id;
  state = state_name r.state;
  last_seen_ms = r.last_seen_ms_ago;
  mode = r.mode;
  harness_session_id = r.harness_session_id;
  blocked = r.blocked;
}

abbrev ping_reply : ConnectionStatus → PingReply
ping_reply (ConnectionStatus.connected hostname rtt_ms) = record {
  connected = true;
  hostname = some hostname;
  rtt_ms = some rtt_ms;
}
ping_reply ConnectionStatus.disconnected = record {
  connected = false;
  hostname = none;
  rtt_ms = none;
}

abbrev pub query_reply : Answered → QueryReply
query_reply (Answered.ok body) = QueryReply.ok body
query_reply (Answered.err body) = QueryReply.err body

abbrev say_reply : String → PromptOutcome → SayReply
say_reply quoted (PromptOutcome.done text exit) = SayReply.ok text exit
say_reply quoted (PromptOutcome.err body) = SayReply.err body
say_reply quoted PromptOutcome.cancelled = SayReply.interrupted
say_reply quoted PromptOutcome.disconnected = SayReply.err (connection_gone quoted)

abbrev interrupt_reply : InterruptOutcome → InterruptReply
interrupt_reply InterruptOutcome.acked = InterruptReply.ok
interrupt_reply InterruptOutcome.timed_out = InterruptReply.timed_out
interrupt_reply InterruptOutcome.disconnected = InterruptReply.disconnected

abbrev answer_reply : AnswerOutcome → AnswerReply
answer_reply AnswerOutcome.acked = AnswerReply.ok
answer_reply (AnswerOutcome.err body) = AnswerReply.err body
answer_reply AnswerOutcome.timed_out = AnswerReply.timed_out
answer_reply AnswerOutcome.disconnected = AnswerReply.disconnected

-- What a request meets: the clock, the id and the waiter of the call that it makes, what other tasks do
-- meanwhile, how the wait ends, and how the talk log's write ends.
pub record Meets (Contents : Type 0) : Type 0 where
  pub now : ℕ
  pub ts : String
  pub id : String
  pub waiter : ℕ
  pub world : World
  pub pong : Ending ℕ
  pub answered : Ending PendingQueryReply
  pub events : List PromptEvent
  pub interrupted : Ending (Unit {0})
  pub chosen : Ending PendingAnswerReply
  pub written : Write Contents

-- The shared objects after a request, the response, and what it sent.
abbrev pub Served : Type 0 → Type 0
Served Contents = Server Contents × Response × List Effect

-- A harness is confirmed by a client that answered `support` with ok.
unfoldable pub confirm : String → List String → Option String → QueryOkBody → Registry → Registry
confirm query_cmd (feature ∷ args) (some host) body g =
    if query_cmd == "support"
    then elim (as_bool (field_of "ok" body.rest)) [
      | some true ↦ record_harness_confirmed g feature host
      | _ ↦ g
    ]
    else g
confirm query_cmd _ _ body g = g

module _ {Contents : Type 0} (ctx : Context Contents) where
  abbrev facts_at : Server Contents → ℕ → Facts
  facts_at s now = record {
    hostname = ctx.server_hostname;
    listening = ctx.listening;
    clients = len s.registry;
    sessions = live_count s.roster now;
    confirmed = confirmed_harnesses_snapshot s.registry;
  }

  abbrev with_registry : Server Contents → Registry → Server Contents
  with_registry s g = record s { registry = g }

  unfoldable pub query_target :
      Meets Contents → String → List String → String → Server Contents → Served Contents
  unfolding confirm
  query_target m query_cmd args token_id s =
      let host = hostname_of s.registry token_id in
      let (g, outcome, effects) =
        query_client m.world s.registry token_id query_cmd args m.id m.ts m.waiter m.answered in
      elim outcome [
        | QueryOutcome.ok body ↦ (
          with_registry s (confirm query_cmd args host body g),
          Response.query (QueryReply.ok body),
          effects,
        )
        | QueryOutcome.err body ↦ (with_registry s g, Response.query (QueryReply.err body), effects)
        | QueryOutcome.disconnected ↦
            (with_registry s g, Response.query QueryReply.not_connected, effects)
      ]

  unfoldable pub say_to :
      Meets Contents → String → String → String → Server Contents → Served Contents
  say_to m session text token_id s =
      let talks = record_prompt ctx.talk_json m.written s.talks m.ts m.id session text in
      let (g, outcome, effects) =
        prompt_client m.world s.registry token_id m.id session text none m.ts m.waiter m.events in
      (
        record s { registry = g; talks = talks },
        Response.say (say_reply (ctx.quoted session) outcome),
        effects,
      )

  unfoldable pub interrupt_to : Meets Contents → String → String → Server Contents → Served Contents
  interrupt_to m session token_id s =
      let (g, outcome, effects) =
        interrupt_client m.world s.registry token_id m.id session m.ts m.waiter m.interrupted in
      (with_registry s g, Response.interrupt (interrupt_reply outcome), effects)

  unfoldable pub answer_to :
      Meets Contents → String → String → String → Server Contents → Served Contents
  answer_to m session choice token_id s =
      let (g, outcome, effects) =
        answer_client m.world s.registry token_id m.id session choice m.ts m.waiter m.chosen in
      (with_registry s g, Response.answer (answer_reply outcome), effects)

  -- The match on the request in the loop of `handle_control_conn`.
  unfoldable pub handle_request : Meets Contents → Request → Server Contents → Served Contents
  unfolding query_target say_to interrupt_to answer_to row_doc
  handle_request m Request.status s = (
    s,
    Response.status (record {
      hostname = ctx.server_hostname;
      listening = ctx.listening;
      clients = len s.registry;
    }),
    [],
  )
  handle_request m (Request.ping token_id) s =
      let (g, outcome, effects) =
        ping_client m.world s.registry token_id m.id ctx.server_hostname m.ts m.now m.waiter
          m.pong in
      (with_registry s g, Response.ping (ping_reply outcome), effects)
  handle_request m Request.roster s =
      (s, Response.roster (map row_doc (snapshot s.roster m.now)), [])
  handle_request m (Request.query none query_cmd args) s =
      let reply = query_reply (dispatch ctx.quoted query_cmd args (facts_at s m.now)) in
      (s, Response.query reply, [])
  handle_request m (Request.query (some target) query_cmd args) s =
      elim (resolve_target s.registry target) [
        | none ↦ (s, Response.query QueryReply.not_connected, [])
        | some token_id ↦ query_target m query_cmd args token_id s
      ]
  handle_request m (Request.say session text) s = elim (resolve_session s.roster m.now session) [
    | none ↦ (s, Response.say (SayReply.err (unknown_session session)), [])
    | some token_id ↦ say_to m session text token_id s
  ]
  handle_request m (Request.interrupt session) s = elim (resolve_session s.roster m.now session) [
    | none ↦ (s, Response.interrupt (InterruptReply.err (unknown_session session)), [])
    | some token_id ↦ interrupt_to m session token_id s
  ]
  handle_request m (Request.answer session choice) s =
      elim (resolve_session s.roster m.now session) [
        | none ↦ (s, Response.answer (AnswerReply.err (unknown_session session)), [])
        | some token_id ↦ answer_to m session choice token_id s
      ]
  handle_request m (Request.revoke token_id) s =
      let (closed, g) = remove_client s.registry token_id in
      (record s { registry = g; roster = mark_gone s.roster token_id }, Response.revoke closed, [])
