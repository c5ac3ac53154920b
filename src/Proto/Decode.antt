-- ===== src/Proto/Decode.antt =====
-- `decode` of src/proto/mod.rs.
use Prim.Native.String.{◌++◌ as append}
use holler_server.Prelude.{
  ℕ, ◌%◌, ◌^◌, String, Option, none, some, if◌then◌else◌, string_eq, nat_beq,
}
use holler_server.Proto.Json.{Value, Fields, get_field, as_str, as_u64}
use holler_server.Proto.{MessageType, Body, Envelope}
use holler_server.Proto.Codec.{
  from_wire, as_wire_str, DecodeError, unsupported_version, unknown_type, malformed, Decoded, ok,
  err, ◌>>=◌, Serde, value, failed, SerdeJson, deserialize_value,
}

pub record ParsedEnvelope : Type 0 where
  pub v : ℕ
  pub msg_type : MessageType
  pub id : String
  pub ts : String
  pub from : String
  pub body : Value

abbrev pub or_err : {A : Type 0} → Option A → DecodeError → Decoded A
or_err (some a) e = ok a
or_err none e = err e

abbrev or_malformed : {A : Type 0} → Option A → String → Decoded A
or_malformed o message = or_err o (malformed message)

abbrev read_json : Serde Value → Decoded Value
read_json (value v) = ok v
read_json (failed message) = err (malformed message)

abbrev as_object : Value → Decoded Fields
as_object (Value.object o) = ok o
as_object _ = err (malformed "envelope must be a JSON object")

-- `parse_envelope` on the fields of the object; `v as u32` keeps the low 32 bits.
unfoldable pub parse_fields : Fields → Decoded ParsedEnvelope
parse_fields obj = do
  type_str ← or_malformed (as_str (get_field "type" obj)) "missing or non-string `type`"
  msg_type ← or_err (from_wire type_str) unknown_type
  v ← or_malformed (as_u64 (get_field "v" obj)) "missing or non-numeric `v`"
  id ← or_malformed (as_str (get_field "id" obj)) "missing or non-string `id`"
  ts ← or_malformed (as_str (get_field "ts" obj)) "missing or non-string `ts`"
  from ← or_malformed (as_str (get_field "from" obj)) "missing or non-string `from`"
  body ← or_malformed (get_field "body" obj) "missing `body`"
  ok (record { v = v % 2 ^ 32; msg_type = msg_type; id = id; ts = ts; from = from; body = body })

-- The message of a body that does not fit its type.
abbrev in_body : MessageType → DecodeError → DecodeError
in_body t (malformed message) =
    malformed
      (append (append (append "            body for `type: " (as_wire_str t)) "`: ") message)
in_body t (unsupported_version v) = unsupported_version v
in_body t unknown_type = unknown_type

abbrev with_body : ParsedEnvelope → Decoded Body → Decoded Envelope
with_body parsed (ok body) = ok (record {
  v = parsed.v;
  msg_type = parsed.msg_type;
  id = parsed.id;
  ts = parsed.ts;
  from = parsed.from;
  body = body;
})
with_body parsed (err e) = err (in_body parsed.msg_type e)

module _ (j : SerdeJson) where
  unfoldable pub try_from : ParsedEnvelope → Decoded Envelope
  unfolding deserialize_value
  try_from parsed = with_body parsed (deserialize_value j parsed.body parsed.msg_type)

  unfoldable pub decode_value : Value → Decoded Envelope
  unfolding parse_fields try_from
  decode_value json = do
    obj ← as_object json
    parsed ← parse_fields obj
    if nat_beq parsed.v 1 then try_from parsed else err (unsupported_version parsed.v)

  unfoldable pub decode : String → Decoded Envelope
  unfolding decode_value
  decode raw = do json ← read_json (j.from_str raw); decode_value json
