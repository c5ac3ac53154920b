-- ===== src/Proto/Classes.antt =====
-- What `decode` of src/proto/mod.rs accepts, and how it classifies what it refuses.
use holler_server.Prelude.{
  ℕ, ◌%◌, ◌^◌, ◌≡◌, ◌≢◌, refl, sym, String, Option, none, some, string_eq, nat_beq_iff, arith, ◌⊎◌,
  inl, inr,
}
use holler_server.Proto.Json.{Value, Fields, get_field, as_str, as_u64}
use holler_server.Proto.{MessageType, Body, Envelope}
use holler_server.Proto.Codec.{
  from_wire, as_wire_str, DecodeError, unsupported_version, Decoded, ok, err, ◌>>=◌, SerdeJson,
  deserialize_value, from_wire-as_wire_str,
}
use holler_server.Proto.Decode.{or_err, ParsedEnvelope, parse_fields, try_from, decode_value}

-- The message type that a body belongs to.
abbrev pub type_of : Body → MessageType
type_of (Body.join b) = MessageType.join
type_of (Body.join_ok b) = MessageType.join_ok
type_of (Body.auth b) = MessageType.auth
type_of (Body.hello b) = MessageType.hello
type_of (Body.query b) = MessageType.query
type_of (Body.query_ok b) = MessageType.query_ok
type_of (Body.prompt b) = MessageType.prompt
type_of (Body.reply b) = MessageType.reply
type_of (Body.interrupt b) = MessageType.interrupt
type_of (Body.answer b) = MessageType.answer
type_of (Body.presence b) = MessageType.presence
type_of (Body.session_blocked b) = MessageType.session_blocked
type_of (Body.ping b) = MessageType.ping
type_of (Body.pong b) = MessageType.pong
type_of (Body.ack b) = MessageType.ack
type_of (Body.error b) = MessageType.error

deserialize-type :
    (j : SerdeJson) (x : Value) (t : MessageType) (b : Body)
    → deserialize_value j x t ≡ ok b
    → type_of b ≡ t
unfolding deserialize_value
deserialize-type j x t b e = ground arith

-- The fields that an envelope must have, apart from the value of its version.
pub record HasFields (obj : Fields) (t : MessageType) (n : ℕ) (id ts from : String) (body : Value)
    : Type 0 where
  pub at_type : as_str (get_field "type" obj) ≡ some (as_wire_str t)
  pub at_v : as_u64 (get_field "v" obj) ≡ some n
  pub at_id : as_str (get_field "id" obj) ≡ some id
  pub at_ts : as_str (get_field "ts" obj) ≡ some ts
  pub at_from : as_str (get_field "from" obj) ≡ some from
  pub at_body : get_field "body" obj ≡ some body

parse-fields :
    (obj : Fields) (t : MessageType) (n : ℕ) (id ts from : String) (body : Value)
    → HasFields obj t n id ts from body
    → parse_fields obj
      ≡ ok (record { v = n % 2 ^ 32; msg_type = t; id = id; ts = ts; from = from; body = body })
unfolding parse_fields
parse-fields obj t n id ts from body h =
    let a = h.at_type in
    let b = h.at_v in
    let c = h.at_id in
    let d = h.at_ts in
    let e = h.at_from in
    let f = h.at_body in let g = (from_wire-as_wire_str (as_wire_str t) t).1 refl in ground arith

Decoded-cases :
    {A : Type 0} (x : Decoded A) → ((a : A) × (x ≡ ok a)) ⊎ ((e : DecodeError) × (x ≡ err e))
Decoded-cases (ok a) = inl (a, refl)
Decoded-cases (err e) = inr (e, refl)

-- Each field that is missing ends the parse.
or_err-ok :
    {A B : Type 0} (o : Option A) (x : DecodeError) (k : A → Decoded B) (b : B)
    → (or_err o x >>= k) ≡ ok b
    → (a : A) × (o ≡ some a) × (k a ≡ ok b)
or_err-ok none x k b h = absurd (ground arith)
or_err-ok (some a) x k b h = (a, refl, h)

parse-has :
    (obj : Fields) (p : ParsedEnvelope)
    → parse_fields obj ≡ ok p
    → (n : ℕ) × HasFields obj p.msg_type n p.id p.ts p.from p.body × (p.v ≡ n % 2 ^ 32)
unfolding parse_fields
parse-has obj p e =
    let (name, named, e1) = or_err-ok (as_str (get_field "type" obj)) _ _ p e in
    let (t, known, e2) = or_err-ok (from_wire name) _ _ p e1 in
    let (n, at_v, e3) = or_err-ok (as_u64 (get_field "v" obj)) _ _ p e2 in
    let (id, at_id, e4) = or_err-ok (as_str (get_field "id" obj)) _ _ p e3 in
    let (ts, at_ts, e5) = or_err-ok (as_str (get_field "ts" obj)) _ _ p e4 in
    let (from, at_from, e6) = or_err-ok (as_str (get_field "from" obj)) _ _ p e5 in
    let (body, at_body, e7) = or_err-ok (get_field "body" obj) _ _ p e6 in
    let at_type : as_str (get_field "type" obj) ≡ some (as_wire_str t) =
      rw named (rw ((from_wire-as_wire_str name t).0 known) refl) in
    let r : ParsedEnvelope = record {
      v = n % 2 ^ 32;
      msg_type = t;
      id = id;
      ts = ts;
      from = from;
      body = body;
    } in
    let same : r ≡ p = ground (arith, e7) in
    rw (sym same) (
      n,
      record {
        at_type = at_type;
        at_v = at_v;
        at_id = at_id;
        at_ts = at_ts;
        at_from = at_from;
        at_body = at_body;
      },
      refl,
    )

module _ (j : SerdeJson) where
  -- A JSON object with all the fields of an envelope and a known type whose version, taken modulo
  -- 2 ^ 32, is not 1 is refused for this version, whatever its body.
  pub version_refused :
      (obj : Fields) (t : MessageType) (n : ℕ) (id ts from : String) (body : Value)
      → HasFields obj t n id ts from body
      → n % 2 ^ 32 ≢ 1
      → decode_value j (Value.object obj) ≡ err (unsupported_version (n % 2 ^ 32))
  unfolding decode_value
  version_refused obj t n id ts from body h other =
      let e = parse-fields obj t n id ts from body h in
      ground (arith, e, nat_beq_iff (n % 2 ^ 32) 1)

  try_from-sent :
      (p : ParsedEnvelope) (e : Envelope)
      → try_from j p ≡ ok e
      → (deserialize_value j p.body p.msg_type ≡ ok e.body)
        × (e.v ≡ p.v)
        × (e.msg_type ≡ p.msg_type)
        × (e.id ≡ p.id)
        × (e.ts ≡ p.ts)
        × (e.from ≡ p.from)
  unfolding try_from
  try_from-sent p e h =
      (ground arith, ground arith, ground arith, ground arith, ground arith, ground arith)

  -- A JSON object is decoded only if it has all the fields of an envelope, and a version that is 1
  -- modulo 2 ^ 32: the envelope has these fields, version 1, and a body of its own message type.
  pub decoded_as_sent :
      (obj : Fields) (e : Envelope)
      → decode_value j (Value.object obj) ≡ ok e
      → (n : ℕ) × (body : Value) × HasFields obj e.msg_type n e.id e.ts e.from body
        × (n % 2 ^ 32 ≡ 1)
        × (e.v ≡ 1)
        × (type_of e.body ≡ e.msg_type)
        × (deserialize_value j body e.msg_type ≡ ok e.body)
  unfolding decode_value
  decoded_as_sent obj e h = elim (Decoded-cases (parse_fields obj)) [
    | inr (x, q) ↦ absurd (ground (arith, q, h))
    | inl (p, q) ↦
        let (n, f, v) = parse-has obj p q in
        let (d, sv, sm, si, st, sf) = try_from-sent p e (ground (arith, q, h)) in
        let one : p.v ≡ 1 = ground (arith, q, h, nat_beq_iff p.v 1) in
        let mine = deserialize-type j p.body p.msg_type e.body d in
        rw sm (
          rw si (
            rw st (rw sf (n, p.body, f, ground (arith, one, v), ground (arith, one, sv), mine, d))))
  ]
