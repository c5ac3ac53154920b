-- ===== src/Proto.antt =====
-- The data of protocol v1 in src/proto/mod.rs: envelopes, message types and bodies.
pub mod Json
pub mod Codec
pub mod Decode
pub mod Classes
pub mod Encode
pub mod Tests
use Prim.Native.String.{◌++◌ as append}
use holler_server.Prelude.{ℕ, Bool, String, List, Option}
use holler_server.Proto.Json.{Value, ℤ}

pub data Role : Type 0 where
  client server : Role

pub data MessageType : Type 0 where
  join join_ok auth hello query query_ok prompt reply : MessageType
  interrupt answer presence session_blocked ping pong ack error : MessageType

pub record JoinBody : Type 0 where
  pub secret : String
  pub hostname : String

pub record JoinOkBody : Type 0 where
  pub client_id : String
  pub credential : String

pub record AuthBody : Type 0 where
  pub credential : Value

pub record HelloSession : Type 0 where
  pub name : String
  pub harness : String

pub record HelloBody : Type 0 where
  pub protocol : ℕ
  pub protocol_min : ℕ
  pub protocol_max : ℕ
  pub role : Role
  pub hostname : String
  pub token_id : Option String
  pub client_id : Option String
  pub harnesses : List String
  pub harnesses_known : List String
  pub harnesses_confirmed : List String
  pub features : List String
  pub sessions : List HelloSession

pub record QueryBody : Type 0 where
  pub cmd : String
  pub args : List String

pub record QueryOkBody : Type 0 where
  pub cmd : String
  pub rest : Value

pub record PromptBody : Type 0 where
  pub session : String
  pub text : String
  pub meta : Option Value

pub record ReplyBody : Type 0 where
  pub session : String
  pub text : Option String
  pub chunks : List String
  pub done : Bool
  pub exit : Option ℤ

pub record InterruptBody : Type 0 where
  pub session : String

pub record AnswerBody : Type 0 where
  pub session : String
  pub choice : String

pub record PresenceBody : Type 0 where
  pub sessions : List Value

pub record SessionBlockedBody : Type 0 where
  pub session : String
  pub blocked : Bool

pub record PingBody : Type 0 where
  pub hostname : Option String

pub record PongBody : Type 0 where
  pub hostname : Option String

pub record AckBody : Type 0 where
  pub of : Option String

pub record ErrorBody : Type 0 where
  pub code : String
  pub cmd : Option String
  pub message : Option String

pub data Body : Type 0 where
  join : JoinBody → Body
  join_ok : JoinOkBody → Body
  auth : AuthBody → Body
  hello : HelloBody → Body
  query : QueryBody → Body
  query_ok : QueryOkBody → Body
  prompt : PromptBody → Body
  reply : ReplyBody → Body
  interrupt : InterruptBody → Body
  answer : AnswerBody → Body
  presence : PresenceBody → Body
  session_blocked : SessionBlockedBody → Body
  ping : PingBody → Body
  pong : PongBody → Body
  ack : AckBody → Body
  error : ErrorBody → Body

pub record Envelope : Type 0 where
  pub v : ℕ
  pub msg_type : MessageType
  pub id : String
  pub ts : String
  pub from : String
  pub body : Body

-- `new_error_envelope`
abbrev new_error_envelope : String → Option String → Option String → String → String → Envelope
new_error_envelope code cmd message reply_id from = record {
  v = 1;
  msg_type = MessageType.error;
  id = reply_id;
  ts = "1970-01-01T00:00:00Z";
  from = from;
  body = Body.error (record { code = code; cmd = cmd; message = message });
}

abbrev pub error_with_message : String → String → String → String → Envelope
error_with_message code message reply_id from =
    new_error_envelope code Option.none (Option.some message) reply_id from

abbrev pub code_session_superseded : String
code_session_superseded = "session_superseded"

abbrev code_unknown_type : String
code_unknown_type = "unknown_type"

abbrev code_unknown_cmd : String
code_unknown_cmd = "unknown_cmd"

abbrev error_for_unknown_type : String → String → String → Envelope
error_for_unknown_type unknown_type reply_id from =
    new_error_envelope code_unknown_type Option.none
      (Option.some (append "unknown type: " unknown_type)) reply_id from

abbrev error_for : String → String → String → Envelope
error_for code reply_id from = new_error_envelope code Option.none Option.none reply_id from

abbrev error_for_unknown_cmd : String → String → String → Envelope
error_for_unknown_cmd cmd reply_id from =
    new_error_envelope code_unknown_cmd (Option.some cmd)
      (Option.some (append "unknown query cmd: " cmd)) reply_id from
