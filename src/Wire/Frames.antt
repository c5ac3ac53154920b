-- ===== src/Wire/Frames.antt =====
-- The frames of src/wire/hello.rs; the time of sending, and the id of the server's own hello, are
-- arguments. The vocabularies that src/wire/query.rs reads stand here too.
use holler_server.Prelude.{String, List, [], ◌∷◌, Option, none, some, ℕ}
use holler_server.Proto.Json.{Value}
use holler_server.Proto.{MessageType, Role, Body, Envelope}

abbrev pub protocol_version : ℕ
protocol_version = 1

abbrev pub server_features : List String
server_features = "query" ∷ "ping" ∷ "token" ∷ "presence" ∷ "roster" ∷ "interrupt" ∷ "answer" ∷ []

abbrev pub protocol_features : List String
protocol_features =
    "interrupt" ∷ "answer" ∷ "presence" ∷ "ping" ∷ "query" ∷ "roster" ∷ "token" ∷ "wait" ∷ []

abbrev pub harnesses_known : List String
harnesses_known =
    "opencode" ∷ "claude" ∷ "codex" ∷ "grok" ∷ "hermes" ∷ "pi" ∷ "cursor" ∷ "copilot" ∷ "droid"
    ∷ "kimi" ∷ "qwen" ∷ "kilo" ∷ "goose" ∷ []

abbrev server_frame : MessageType → String → String → Body → Envelope
server_frame msg_type id ts body = record {
  v = 1;
  msg_type = msg_type;
  id = id;
  ts = ts;
  from = "server";
  body = body;
}

unfoldable pub new_ping_envelope : String → String → String → Envelope
new_ping_envelope ts id server_hostname =
    server_frame MessageType.ping id ts (Body.ping (record { hostname = some server_hostname }))

unfoldable pub new_query_envelope : String → String → String → List String → Envelope
new_query_envelope ts id cmd args =
    server_frame MessageType.query id ts (Body.query (record { cmd = cmd; args = args }))

unfoldable pub new_prompt_envelope : String → String → String → String → Option Value → Envelope
new_prompt_envelope ts id session text meta =
    server_frame MessageType.prompt id ts
      (Body.prompt (record { session = session; text = text; meta = meta }))

unfoldable pub new_interrupt_envelope : String → String → String → Envelope
new_interrupt_envelope ts id session =
    server_frame MessageType.interrupt id ts (Body.interrupt (record { session = session }))

unfoldable pub new_answer_envelope : String → String → String → String → Envelope
new_answer_envelope ts id session choice =
    server_frame MessageType.answer id ts
      (Body.answer (record { session = session; choice = choice }))

unfoldable pub new_pong_envelope : String → String → String → Envelope
new_pong_envelope ts reply_id server_hostname =
    server_frame MessageType.pong reply_id ts
      (Body.pong (record { hostname = some server_hostname }))

unfoldable pub server_hello : String → String → String → Envelope
server_hello ts id hostname = server_frame MessageType.hello id ts (
    Body.hello (record {
      protocol = protocol_version;
      protocol_min = protocol_version;
      protocol_max = protocol_version;
      role = Role.server;
      hostname = hostname;
      token_id = none;
      client_id = none;
      harnesses = [];
      harnesses_known = harnesses_known;
      harnesses_confirmed = [];
      features = server_features;
      sessions = [];
    }))
