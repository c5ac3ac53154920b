-- ===== src/Wire/Connection/Dispatch.antt =====
-- `handle_frame` of src/wire/connection.rs: what a frame of an authenticated client does. The calls
-- that one frame makes are taken as made in a row.
use holler_server.Prelude.{
  ℕ, suc, Bool, true, false, String, List, [], ◌∷◌, ◌++◌, Option, none, some,
}
use holler_server.Proto.Json.{Value}
use holler_server.Proto.{MessageType, Body, Envelope, ErrorBody}
use holler_server.Proto.Codec.{Decoded, value, failed}
use holler_server.Proto.Decode.{decode}
use holler_server.Roster.{Roster, touch_client, live_count, set_blocked, advertise_with_mode}
use holler_server.Wire.Frames.{new_pong_envelope}
use holler_server.Wire.Registry.{Registry, Effect, set_hostname, confirmed_harnesses_snapshot, len}
use holler_server.Wire.Registry.Resolve.{
  resolve_pong, resolve_query_ok, resolve_query_err, resolve_prompt_err, resolve_answer_err,
  resolve_reply, resolve_interrupt_ack, resolve_answer_ack,
}
use holler_server.Wire.TalkLog.{Write, record_reply}
use holler_server.Wire.Query.{Answered, Facts, dispatch}
use holler_server.Wire.Connection.{Server, Context, Sent, frame, decode_error_envelope}

-- What a frame meets: the clock, at each of its readings during the frame, and as a text; and how
-- the talk log's write ends.
pub record Moment (Contents : Type 0) : Type 0 where
  pub instant : ℕ → ℕ
  pub ts : String
  pub written : Write Contents

-- What a frame does: the shared objects after it, what is written to its connection, what reaches
-- other tasks, and whether the connection stays open.
pub record Reaction (Contents : Type 0) : Type 0 where
  pub server : Server Contents
  pub sent : List Sent
  pub effects : List Effect
  pub stays : Bool

abbrev pub quiet {ℓ} : {C : Type ℓ} → C → C × List Sent × List Effect
quiet s = (s, [], [])

abbrev pub query_reply : Envelope → Answered → Envelope
query_reply env (Answered.ok body) = record {
  v = 1;
  msg_type = MessageType.query_ok;
  id = env.id;
  ts = env.ts;
  from = "server";
  body = Body.query_ok body;
}
query_reply env (Answered.err body) = record {
  v = 1;
  msg_type = MessageType.error;
  id = env.id;
  ts = env.ts;
  from = "server";
  body = Body.error body;
}

-- Two calls of the registry, one after the other.
abbrev then_resolve :
    Registry × List Effect → (Registry → Registry × List Effect) → Registry × List Effect
then_resolve (g, before) next = let (g', after) = next g in (g', before ++ after)

abbrev pub resolve_error : Registry → String → String → ErrorBody → Registry × List Effect
resolve_error g token_id id body =
    then_resolve
      (then_resolve (resolve_query_err g token_id id body)
        (λ g. resolve_prompt_err g token_id id body))
      (λ g. resolve_answer_err g token_id id body)

abbrev pub resolve_ack : Registry → String → Option String → Registry × List Effect
resolve_ack g token_id none = (g, [])
resolve_ack g token_id (some of_id) =
    then_resolve (resolve_interrupt_ack g token_id of_id) (λ g. resolve_answer_ack g token_id of_id)

module _ {Contents : Type 0} (ctx : Context Contents) (token_id client_id : String) where
  -- The rows of a `presence` frame; `k` readings of the clock came before.
  unfoldable pub advertise_rows : (ℕ → ℕ) → ℕ → List Value → Roster → Roster
  advertise_rows instant k [] r = r
  advertise_rows instant k (row ∷ rows) r = elim (ctx.to_session row) [
    | failed e ↦ advertise_rows instant k rows r
    | value session ↦
        advertise_rows instant (suc k) rows
          (advertise_with_mode r (instant k) session.name session.harness token_id client_id
            session.mode session.harness_session_id).0
  ]

  abbrev with_registry :
      Server Contents → Registry × List Effect → Server Contents × List Sent × List Effect
  with_registry s (g, effects) = (record s { registry = g }, [], effects)

  abbrev facts_at : Server Contents → ℕ → Facts
  facts_at s now = record {
    hostname = ctx.server_hostname;
    listening = ctx.listening;
    clients = len s.registry;
    sessions = live_count s.roster now;
    confirmed = confirmed_harnesses_snapshot s.registry;
  }

  unfoldable pub handle_body :
      Moment Contents
      → Envelope
      → Body
      → Server Contents
      → Server Contents × List Sent × List Effect
  unfolding advertise_rows
  handle_body m env (Body.hello b) s =
      quiet (record s { registry = set_hostname s.registry token_id b.hostname })
  handle_body m env (Body.query b) s =
      let answer = dispatch ctx.quoted b.cmd b.args (facts_at s (m.instant 0)) in
      (s, frame (query_reply env answer) ∷ [], [])
  handle_body m env (Body.query_ok b) s =
      with_registry s (resolve_query_ok s.registry token_id env.id b)
  handle_body m env (Body.ping b) s = (
    record s { roster = touch_client s.roster (m.instant 0) token_id },
    frame (new_pong_envelope m.ts env.id ctx.server_hostname) ∷ [],
    [],
  )
  handle_body m env (Body.pong b) s =
      with_registry s (resolve_pong s.registry token_id env.id (m.instant 0))
  handle_body m env (Body.error b) s = with_registry s (resolve_error s.registry token_id env.id b)
  handle_body m env (Body.auth b) s = quiet s
  handle_body m env (Body.join b) s = quiet s
  handle_body m env (Body.join_ok b) s = quiet s
  handle_body m env (Body.presence b) s =
      quiet (record s { roster = advertise_rows m.instant 0 b.sessions s.roster })
  handle_body m env (Body.session_blocked b) s =
      quiet (record s { roster = set_blocked s.roster b.session b.blocked })
  handle_body m env (Body.reply b) s =
      let talks = record_reply ctx.talk_json m.written s.talks m.ts env.id b.session b in
      with_registry (record s { talks = talks }) (resolve_reply s.registry token_id env.id b)
  handle_body m env (Body.ack b) s = with_registry s (resolve_ack s.registry token_id b.of)
  handle_body m env (Body.prompt b) s = quiet s
  handle_body m env (Body.interrupt b) s = quiet s
  handle_body m env (Body.answer b) s = quiet s

  unfoldable pub handle_frame : Moment Contents → String → Server Contents → Reaction Contents
  unfolding handle_body
  handle_frame m raw s = elim (decode ctx.serde raw) [
    | Decoded.err e ↦ record {
      server = s;
      sent = frame (decode_error_envelope ctx.shown e) ∷ [];
      effects = [];
      stays = false;
    }
    | Decoded.ok env ↦
        let (s', sent, effects) = handle_body m env env.body s in
        record { server = s'; sent = sent; effects = effects; stays = true }
  ]
