-- ===== src/Proto/Codec.antt =====
-- The names of the message types in src/proto/mod.rs, and the choice of a body by the type of its
-- envelope.
use holler_server.Prelude.{
  ℕ, ◌≡◌, refl, String, Option, none, some, if◌then◌else◌, ◌==◌, string_eq, ==→≡, Bool-cases, inl,
  inr, sym, arith, ◌↔◌,
}
use holler_server.Proto.Json.{Value}
use holler_server.Proto.{
  MessageType, Body, JoinBody, JoinOkBody, AuthBody, HelloBody, QueryBody, QueryOkBody, PromptBody,
  ReplyBody, InterruptBody, AnswerBody, PresenceBody, SessionBlockedBody, PingBody, PongBody,
  AckBody, ErrorBody,
}

unfoldable pub from_wire : String → Option MessageType
from_wire s =
    if s == "join"
    then some MessageType.join
    else if s == "join_ok"
    then some MessageType.join_ok
    else if s == "auth"
    then some MessageType.auth
    else if s == "hello"
    then some MessageType.hello
    else if s == "query"
    then some MessageType.query
    else if s == "query_ok"
    then some MessageType.query_ok
    else if s == "prompt"
    then some MessageType.prompt
    else if s == "reply"
    then some MessageType.reply
    else if s == "interrupt"
    then some MessageType.interrupt
    else if s == "answer"
    then some MessageType.answer
    else if s == "presence"
    then some MessageType.presence
    else if s == "session_blocked"
    then some MessageType.session_blocked
    else if s == "ping"
    then some MessageType.ping
    else if s == "pong"
    then some MessageType.pong
    else if s == "ack"
    then some MessageType.ack
    else if s == "error"
    then some MessageType.error
    else none

unfoldable pub as_wire_str : MessageType → String
as_wire_str MessageType.join = "join"
as_wire_str MessageType.join_ok = "join_ok"
as_wire_str MessageType.auth = "auth"
as_wire_str MessageType.hello = "hello"
as_wire_str MessageType.query = "query"
as_wire_str MessageType.query_ok = "query_ok"
as_wire_str MessageType.prompt = "prompt"
as_wire_str MessageType.reply = "reply"
as_wire_str MessageType.interrupt = "interrupt"
as_wire_str MessageType.answer = "answer"
as_wire_str MessageType.presence = "presence"
as_wire_str MessageType.session_blocked = "session_blocked"
as_wire_str MessageType.ping = "ping"
as_wire_str MessageType.pong = "pong"
as_wire_str MessageType.ack = "ack"
as_wire_str MessageType.error = "error"

-- Writing a type and reading it back.
as_wire_str-read : (t : MessageType) → from_wire (as_wire_str t) ≡ some t
unfolding from_wire as_wire_str
as_wire_str-read MessageType.join = refl
as_wire_str-read MessageType.join_ok = refl
as_wire_str-read MessageType.auth = refl
as_wire_str-read MessageType.hello = refl
as_wire_str-read MessageType.query = refl
as_wire_str-read MessageType.query_ok = refl
as_wire_str-read MessageType.prompt = refl
as_wire_str-read MessageType.reply = refl
as_wire_str-read MessageType.interrupt = refl
as_wire_str-read MessageType.answer = refl
as_wire_str-read MessageType.presence = refl
as_wire_str-read MessageType.session_blocked = refl
as_wire_str-read MessageType.ping = refl
as_wire_str-read MessageType.pong = refl
as_wire_str-read MessageType.ack = refl
as_wire_str-read MessageType.error = refl

-- One comparison of `from_wire`.
pick :
    {s : String} {t : MessageType} {rest : Option MessageType} (u : MessageType)
    → (rest ≡ some t → s ≡ as_wire_str t)
    → (if s == as_wire_str u then some u else rest) ≡ some t
    → s ≡ as_wire_str t
pick {s} {t} {rest} u later e = elim (Bool-cases (s == as_wire_str u)) [
  | inl q ↦ let same : u ≡ t = ground (arith, q, e) in rw (sym same) (==→≡ s (as_wire_str u) q)
  | inr q ↦ later (ground (arith, q, e))
]

from_wire-written : (s : String) (t : MessageType) → from_wire s ≡ some t → s ≡ as_wire_str t
unfolding from_wire as_wire_str
from_wire-written s t = pick MessageType.join (
    pick MessageType.join_ok (
      pick MessageType.auth (
        pick MessageType.hello (
          pick MessageType.query (
            pick MessageType.query_ok (
              pick MessageType.prompt (
                pick MessageType.reply (
                  pick MessageType.interrupt (
                    pick MessageType.answer (
                      pick MessageType.presence (
                        pick MessageType.session_blocked (
                          pick MessageType.ping (
                            pick MessageType.pong (
                              pick MessageType.ack
                                (pick MessageType.error (λ e. ground arith))))))))))))))))

-- A text is read as a message type exactly when it is the text that is written for that type.
pub from_wire-as_wire_str :
    (s : String) (t : MessageType) → (from_wire s ≡ some t) ↔ (s ≡ as_wire_str t)
from_wire-as_wire_str s t = (from_wire-written s t, λ e. rw e (as_wire_str-read t))

pub data DecodeError : Type 0 where
  unsupported_version : ℕ → DecodeError
  unknown_type : DecodeError
  malformed : String → DecodeError

pub data Decoded (A : Type 0) : Type 0 where
  ok : A → Decoded A
  err : DecodeError → Decoded A

infixl 5 ◌>>=◌
abbrev pub ◌>>=◌ : {A B : Type 0} → Decoded A → (A → Decoded B) → Decoded B
ok a >>= f = f a
err e >>= f = err e

-- What reading a body with serde gives: the body, or the message of the failure.
pub data Serde (A : Type 0) : Type 0 where
  value : A → Serde A
  failed : String → Serde A

-- The crate serde_json: reading a text, and `from_value` at the type of each body.
pub record SerdeJson : Type 0 where
  pub from_str : String → Serde Value
  pub to_join : Value → Serde JoinBody
  pub to_join_ok : Value → Serde JoinOkBody
  pub to_auth : Value → Serde AuthBody
  pub to_hello : Value → Serde HelloBody
  pub to_query : Value → Serde QueryBody
  pub to_query_ok : Value → Serde QueryOkBody
  pub to_prompt : Value → Serde PromptBody
  pub to_reply : Value → Serde ReplyBody
  pub to_interrupt : Value → Serde InterruptBody
  pub to_answer : Value → Serde AnswerBody
  pub to_presence : Value → Serde PresenceBody
  pub to_session_blocked : Value → Serde SessionBlockedBody
  pub to_ping : Value → Serde PingBody
  pub to_pong : Value → Serde PongBody
  pub to_ack : Value → Serde AckBody
  pub to_error : Value → Serde ErrorBody

abbrev pub or_malformed : {A : Type 0} → (A → Body) → Serde A → Decoded Body
or_malformed f (value a) = ok (f a)
or_malformed f (failed message) = err (malformed message)

module _ (j : SerdeJson) where
  unfoldable pub deserialize_value : Value → MessageType → Decoded Body
  deserialize_value body MessageType.join = or_malformed Body.join (j.to_join body)
  deserialize_value body MessageType.join_ok = or_malformed Body.join_ok (j.to_join_ok body)
  deserialize_value body MessageType.auth = or_malformed Body.auth (j.to_auth body)
  deserialize_value body MessageType.hello = or_malformed Body.hello (j.to_hello body)
  deserialize_value body MessageType.query = or_malformed Body.query (j.to_query body)
  deserialize_value body MessageType.query_ok = or_malformed Body.query_ok (j.to_query_ok body)
  deserialize_value body MessageType.prompt = or_malformed Body.prompt (j.to_prompt body)
  deserialize_value body MessageType.reply = or_malformed Body.reply (j.to_reply body)
  deserialize_value body MessageType.interrupt = or_malformed Body.interrupt (j.to_interrupt body)
  deserialize_value body MessageType.answer = or_malformed Body.answer (j.to_answer body)
  deserialize_value body MessageType.presence = or_malformed Body.presence (j.to_presence body)
  deserialize_value body MessageType.session_blocked =
      or_malformed Body.session_blocked (j.to_session_blocked body)
  deserialize_value body MessageType.ping = or_malformed Body.ping (j.to_ping body)
  deserialize_value body MessageType.pong = or_malformed Body.pong (j.to_pong body)
  deserialize_value body MessageType.ack = or_malformed Body.ack (j.to_ack body)
  deserialize_value body MessageType.error = or_malformed Body.error (j.to_error body)
