-- ===== src/Proto/Tests.antt =====
-- Tests of src/proto/mod.rs: the theorems at a `ping` frame.
use holler_server.Prelude.{ℕ, ◌%◌, ◌^◌, ◌≡◌, refl, none, some}
use holler_server.Proto.Json.{Value, unsigned, Fields, no_fields, field}
use holler_server.Proto.{MessageType, Body, Envelope}
use holler_server.Proto.Codec.{Serde, value, failed, SerdeJson, from_wire, ok, deserialize_value}
use holler_server.Proto.Decode.{decode_value, parse_fields, try_from}
use holler_server.Proto.Encode.{Writer, IsWritten, envelope_fields, encode, decode-encode}
use holler_server.Proto.Decode.{decode}
use holler_server.Proto.Classes.{HasFields, type_of, decoded_as_sent}

abbrev no_body : {A : Type 0} → Value → Serde A
no_body x = failed "not read"

abbrev reads_ping : SerdeJson
reads_ping = record {
  from_str = λ s. failed "not read";
  to_join = no_body;
  to_join_ok = no_body;
  to_auth = no_body;
  to_hello = no_body;
  to_query = no_body;
  to_query_ok = no_body;
  to_prompt = no_body;
  to_reply = no_body;
  to_interrupt = no_body;
  to_answer = no_body;
  to_presence = no_body;
  to_session_blocked = no_body;
  to_ping = λ x. value (record { hostname = none });
  to_pong = no_body;
  to_ack = no_body;
  to_error = no_body;
}

abbrev frame : ℕ → Fields
frame n = field "type" (Value.string "ping") (
    field "v" (Value.number (unsigned n)) (
      field "id" (Value.string "p1") (
        field "ts" (Value.string "t") (
          field "from" (Value.string "server") (field "body" (Value.object no_fields) no_fields)))))

abbrev ping_sent : Envelope
ping_sent = record {
  v = 1;
  msg_type = MessageType.ping;
  id = "p1";
  ts = "t";
  from = "server";
  body = Body.ping (record { hostname = none });
}

-- 2 ^ 32 + 1 is read as version 1.
wrapped : decode_value reads_ping (Value.object (frame 4294967297)) ≡ ok ping_sent
unfolding decode_value parse_fields try_from from_wire deserialize_value
wrapped = refl

decoded_as_sent_example :
    (n : ℕ) × (body : Value) × HasFields
      (frame 4294967297)
      MessageType.ping
      n
      "p1"
      "t"
      "server"
      body
    × (n % 2 ^ 32 ≡ 1)
    × (ping_sent.v ≡ 1)
    × (type_of ping_sent.body ≡ ping_sent.msg_type)
    × (deserialize_value reads_ping body MessageType.ping
        ≡ ok (Body.ping (record { hostname = none })))
decoded_as_sent_example = decoded_as_sent reads_ping (frame 4294967297) ping_sent wrapped

-- The crate as it is for a ping without a hostname, with "{…}" for its text.
abbrev writes_ping : Writer
writes_ping = record {
  of_join = λ b. none;
  of_join_ok = λ b. none;
  of_auth = λ b. none;
  of_hello = λ b. none;
  of_query = λ b. none;
  of_query_ok = λ b. none;
  of_prompt = λ b. none;
  of_reply = λ b. none;
  of_interrupt = λ b. none;
  of_answer = λ b. none;
  of_presence = λ b. none;
  of_session_blocked = λ b. none;
  of_ping = λ b. some (Value.object no_fields);
  of_pong = λ b. none;
  of_ack = λ b. none;
  of_error = λ b. none;
  to_string = λ o. some "{…}";
}

abbrev ping_object : Fields
ping_object = envelope_fields writes_ping ping_sent (Value.object no_fields)

abbrev reads_text : SerdeJson
reads_text = record reads_ping { from_str = λ s. value (Value.object ping_object) }

ping-IsWritten : IsWritten reads_text writes_ping ping_sent "{…}"
ping-IsWritten = record {
  body = Value.object no_fields;
  object = ping_object;
  reads_back = (refl, refl);
  text_of = refl;
  read_as = refl;
  same_fields = λ key. refl;
}

decode-encode_example :
    (encode writes_ping ping_sent ≡ some "{…}") × (decode reads_text "{…}" ≡ ok ping_sent)
decode-encode_example =
    decode-encode reads_text writes_ping ping_sent "{…}" refl refl ping-IsWritten
