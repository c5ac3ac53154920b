-- ===== src/Proto/Encode.antt =====
-- `encode` of src/proto/mod.rs, and what `decode` makes of its texts.
use holler_server.Prelude.{◌≡◌, refl, String, Option, none, some, arith, string_eq}
use holler_server.Proto.Json.{Value, Fields, no_fields, field, unsigned, get_field}
use holler_server.Proto.{
  Body, Envelope, JoinBody, JoinOkBody, AuthBody, HelloBody, QueryBody, QueryOkBody, PromptBody,
  ReplyBody, InterruptBody, AnswerBody, PresenceBody, SessionBlockedBody, PingBody, PongBody,
  AckBody, ErrorBody,
}
use holler_server.Proto.Codec.{
  as_wire_str, Decoded, value, SerdeJson, deserialize_value, from_wire-as_wire_str,
}
use holler_server.Proto.Decode.{decode, decode_value, parse_fields, try_from}
use holler_server.Proto.Classes.{type_of}

-- The crate serde_json: the value of each body, where it has one, and the text of an object.
pub record Writer : Type 0 where
  pub of_join : JoinBody → Option Value
  pub of_join_ok : JoinOkBody → Option Value
  pub of_auth : AuthBody → Option Value
  pub of_hello : HelloBody → Option Value
  pub of_query : QueryBody → Option Value
  pub of_query_ok : QueryOkBody → Option Value
  pub of_prompt : PromptBody → Option Value
  pub of_reply : ReplyBody → Option Value
  pub of_interrupt : InterruptBody → Option Value
  pub of_answer : AnswerBody → Option Value
  pub of_presence : PresenceBody → Option Value
  pub of_session_blocked : SessionBlockedBody → Option Value
  pub of_ping : PingBody → Option Value
  pub of_pong : PongBody → Option Value
  pub of_ack : AckBody → Option Value
  pub of_error : ErrorBody → Option Value
  pub to_string : Fields → Option String

module _ (w : Writer) where
  -- `Serialize for Body`
  unfoldable pub serialize : Body → Option Value
  serialize (Body.join b) = w.of_join b
  serialize (Body.join_ok b) = w.of_join_ok b
  serialize (Body.auth b) = w.of_auth b
  serialize (Body.hello b) = w.of_hello b
  serialize (Body.query b) = w.of_query b
  serialize (Body.query_ok b) = w.of_query_ok b
  serialize (Body.prompt b) = w.of_prompt b
  serialize (Body.reply b) = w.of_reply b
  serialize (Body.interrupt b) = w.of_interrupt b
  serialize (Body.answer b) = w.of_answer b
  serialize (Body.presence b) = w.of_presence b
  serialize (Body.session_blocked b) = w.of_session_blocked b
  serialize (Body.ping b) = w.of_ping b
  serialize (Body.pong b) = w.of_pong b
  serialize (Body.ack b) = w.of_ack b
  serialize (Body.error b) = w.of_error b

  -- `Serialize for Envelope`, which serde derives.
  abbrev pub envelope_fields : Envelope → Value → Fields
  envelope_fields env body = field "v" (Value.number (unsigned env.v)) (
      field "type" (Value.string (as_wire_str env.msg_type)) (
        field "id" (Value.string env.id) (
          field "ts" (Value.string env.ts)
            (field "from" (Value.string env.from) (field "body" body no_fields)))))

  unfoldable pub encode : Envelope → Option String
  unfolding serialize
  encode env = elim (serialize env.body) [
    | none ↦ none
    | some body ↦ w.to_string (envelope_fields env body)
  ]

-- The crate reads a body as it wrote it, as a value.
abbrev pub ReadsBack : SerdeJson → Writer → Body → Value → Type 0
ReadsBack j w (Body.join b) x = (w.of_join b ≡ some x) × (j.to_join x ≡ value b)
ReadsBack j w (Body.join_ok b) x = (w.of_join_ok b ≡ some x) × (j.to_join_ok x ≡ value b)
ReadsBack j w (Body.auth b) x = (w.of_auth b ≡ some x) × (j.to_auth x ≡ value b)
ReadsBack j w (Body.hello b) x = (w.of_hello b ≡ some x) × (j.to_hello x ≡ value b)
ReadsBack j w (Body.query b) x = (w.of_query b ≡ some x) × (j.to_query x ≡ value b)
ReadsBack j w (Body.query_ok b) x = (w.of_query_ok b ≡ some x) × (j.to_query_ok x ≡ value b)
ReadsBack j w (Body.prompt b) x = (w.of_prompt b ≡ some x) × (j.to_prompt x ≡ value b)
ReadsBack j w (Body.reply b) x = (w.of_reply b ≡ some x) × (j.to_reply x ≡ value b)
ReadsBack j w (Body.interrupt b) x = (w.of_interrupt b ≡ some x) × (j.to_interrupt x ≡ value b)
ReadsBack j w (Body.answer b) x = (w.of_answer b ≡ some x) × (j.to_answer x ≡ value b)
ReadsBack j w (Body.presence b) x = (w.of_presence b ≡ some x) × (j.to_presence x ≡ value b)
ReadsBack j w (Body.session_blocked b) x =
    (w.of_session_blocked b ≡ some x) × (j.to_session_blocked x ≡ value b)
ReadsBack j w (Body.ping b) x = (w.of_ping b ≡ some x) × (j.to_ping x ≡ value b)
ReadsBack j w (Body.pong b) x = (w.of_pong b ≡ some x) × (j.to_pong x ≡ value b)
ReadsBack j w (Body.ack b) x = (w.of_ack b ≡ some x) × (j.to_ack x ≡ value b)
ReadsBack j w (Body.error b) x = (w.of_error b ≡ some x) × (j.to_error x ≡ value b)

module _ (j : SerdeJson) (w : Writer) where
  reads_serialized : (b : Body) (x : Value) → ReadsBack j w b x → serialize w b ≡ some x
  unfolding serialize
  reads_serialized (Body.join b) x h = h.0
  reads_serialized (Body.join_ok b) x h = h.0
  reads_serialized (Body.auth b) x h = h.0
  reads_serialized (Body.hello b) x h = h.0
  reads_serialized (Body.query b) x h = h.0
  reads_serialized (Body.query_ok b) x h = h.0
  reads_serialized (Body.prompt b) x h = h.0
  reads_serialized (Body.reply b) x h = h.0
  reads_serialized (Body.interrupt b) x h = h.0
  reads_serialized (Body.answer b) x h = h.0
  reads_serialized (Body.presence b) x h = h.0
  reads_serialized (Body.session_blocked b) x h = h.0
  reads_serialized (Body.ping b) x h = h.0
  reads_serialized (Body.pong b) x h = h.0
  reads_serialized (Body.ack b) x h = h.0
  reads_serialized (Body.error b) x h = h.0

  reads_deserialized :
      (b : Body) (x : Value) → ReadsBack j w b x → deserialize_value j x (type_of b) ≡ Decoded.ok b
  unfolding deserialize_value
  reads_deserialized (Body.join b) x h = ground (arith, h)
  reads_deserialized (Body.join_ok b) x h = ground (arith, h)
  reads_deserialized (Body.auth b) x h = ground (arith, h)
  reads_deserialized (Body.hello b) x h = ground (arith, h)
  reads_deserialized (Body.query b) x h = ground (arith, h)
  reads_deserialized (Body.query_ok b) x h = ground (arith, h)
  reads_deserialized (Body.prompt b) x h = ground (arith, h)
  reads_deserialized (Body.reply b) x h = ground (arith, h)
  reads_deserialized (Body.interrupt b) x h = ground (arith, h)
  reads_deserialized (Body.answer b) x h = ground (arith, h)
  reads_deserialized (Body.presence b) x h = ground (arith, h)
  reads_deserialized (Body.session_blocked b) x h = ground (arith, h)
  reads_deserialized (Body.ping b) x h = ground (arith, h)
  reads_deserialized (Body.pong b) x h = ground (arith, h)
  reads_deserialized (Body.ack b) x h = ground (arith, h)
  reads_deserialized (Body.error b) x h = ground (arith, h)

  -- What the crate does with the text of an envelope: it is an object with the fields that were
  -- written, in whatever order, and the body is read as it was written.
  pub record IsWritten (env : Envelope) (text : String) : Type 0 where
    pub body : Value
    pub object : Fields
    pub reads_back : ReadsBack j w env.body body
    pub text_of : w.to_string (envelope_fields w env body) ≡ some text
    pub read_as : j.from_str text ≡ value (Value.object object)
    pub same_fields :
        (key : String) → get_field key object ≡ get_field key (envelope_fields w env body)

  -- A frame is received as it was sent: where the crate reads back the body and the text that it wrote,
  -- an envelope of version 1 that has the type of its body is encoded, and its text is decoded as
  -- this envelope.
  pub decode-encode :
      (env : Envelope) (text : String)
      → env.v ≡ 1
      → env.msg_type ≡ type_of env.body
      → IsWritten env text
      → (encode w env ≡ some text) × (decode j text ≡ Decoded.ok env)
  unfolding encode decode decode_value parse_fields try_from
  decode-encode env text v1 typed h =
      let written = reads_serialized env.body h.body h.reads_back in
      let back = reads_deserialized env.body h.body h.reads_back in
      let text_of = h.text_of in
      let read_as = h.read_as in
      let named = (from_wire-as_wire_str (as_wire_str env.msg_type) env.msg_type).1 refl in
      (
        ground (arith, written, text_of),
        ground (
          arith,
          read_as,
          h.same_fields "type",
          h.same_fields "v",
          h.same_fields "id",
          h.same_fields "ts",
          h.same_fields "from",
          h.same_fields "body",
          named,
          v1,
          typed,
          back,
        ),
      )
