-- ===== src/Wire/Connection/Admission.antt =====
-- The first frame of a connection in src/wire/connection.rs: `auth` or `join`. A panic of the task
-- drops the connection without a reply.
use holler_server.Prelude.{ℕ, String, List, [], ◌∷◌, none, some}
use holler_server.Net.{IpAddr}
use holler_server.Lockout.{record_failure}
use holler_server.Token.Record.{ok, err, panic, VerifiedClient}
use holler_server.Token.Secret.{Random}
use holler_server.Token.Store.{redeem, verify_credential}
use holler_server.Token.Message.{message}
use holler_server.Proto.Json.{as_str}
use holler_server.Proto.{MessageType, Body, Envelope, error_with_message}
use holler_server.Proto.Codec.{Decoded}
use holler_server.Proto.Decode.{decode}
use holler_server.Wire.Connection.{
  Server, Context, Sent, frame, close, code_unauthenticated, code_join_failed,
  decode_error_envelope,
}

-- What the first frame meets: the two clocks, and the generator of random bytes.
pub record Attempt : Type 0 where
  pub wall : ℕ
  pub instant : ℕ
  pub id_bytes : Random
  pub credential_bytes : Random

pub data Admitted : Type 0 where
  closed : List Sent → Admitted
  authenticated : VerifiedClient → Admitted

abbrev pub reject : String → String → Envelope → Sent
reject code text env = frame (error_with_message code text env.id "server")

abbrev join_ok_reply : Envelope → String → String → Envelope
join_ok_reply env client_id credential = record {
  v = 1;
  msg_type = MessageType.join_ok;
  id = env.id;
  ts = env.ts;
  from = "server";
  body = Body.join_ok (record { client_id = client_id; credential = credential });
}

module _ {Contents : Type 0} (ctx : Context Contents) (ip : IpAddr) (a : Attempt) where
  unfoldable pub handle_join :
      Envelope → String → String → Server Contents → Server Contents × List Sent
  unfolding message
  handle_join env secret hostname s =
      let (result, d) =
        redeem ctx.platform ctx.pepper env.from secret hostname a.wall a.id_bytes a.credential_bytes
          s.disk in
      elim result [
        | ok joined ↦ (
          record s { disk = d },
          frame (join_ok_reply env joined.client_id joined.credential) ∷ close ∷ [],
        )
        | err e ↦ (
          record s { disk = d; lockout = (record_failure s.lockout ip a.instant).0 },
          reject code_join_failed (message ctx.quoted e) env ∷ close ∷ [],
        )
        | panic ↦ (record s { disk = d }, [])
      ]

  unfoldable pub authenticate : Envelope → String → Server Contents → Server Contents × Admitted
  authenticate env credential s =
      let (result, d) =
        verify_credential ctx.platform ctx.pepper env.from credential a.wall s.disk in
      elim result [
        | ok verified ↦ (record s { disk = d }, authenticated verified)
        | err e ↦ (
          record s { disk = d; lockout = (record_failure s.lockout ip a.instant).0 },
          closed (reject code_unauthenticated "authentication failed" env ∷ []),
        )
        | panic ↦ (record s { disk = d }, closed [])
      ]

  unfoldable pub first_body : Envelope → Body → Server Contents → Server Contents × Admitted
  unfolding handle_join authenticate
  first_body env (Body.join b) s =
      let (s', sent) = handle_join env b.secret b.hostname s in (s', closed sent)
  first_body env (Body.auth b) s = elim (as_str (some b.credential)) [
    | none ↦ (s, closed (reject code_unauthenticated "auth credential must be a string" env ∷ []))
    | some credential ↦ authenticate env credential s
  ]
  first_body env _ s =
      (s, closed (reject code_unauthenticated "first frame must be `auth` or `join`" env ∷ []))

  unfoldable pub first_frame : String → Server Contents → Server Contents × Admitted
  unfolding first_body
  first_frame raw s = elim (decode ctx.serde raw) [
    | Decoded.err e ↦ (s, closed (frame (decode_error_envelope ctx.shown e) ∷ []))
    | Decoded.ok env ↦ first_body env env.body s
  ]
