-- ===== src/Wire/Connection/Replies.antt =====
-- What a session of src/wire/connection.rs writes for a frame.
use holler_server.Prelude.{
  ◌≤◌, ◌≡◌, refl, true, false, String, List, [], ◌∷◌, All, arith, inl, inr, ◌⊎◌, length,
}
use holler_server.Proto.{Body, Envelope}
use holler_server.Proto.Codec.{Decoded, DecodeError}
use holler_server.Proto.Decode.{decode}
use holler_server.Wire.Frames.{new_pong_envelope}
use holler_server.Wire.Query.{Answered}
use holler_server.Wire.Connection.{Server, Context, Sent, frame, decode_error_envelope}
use holler_server.Wire.Connection.Dispatch.{Moment, handle_frame, handle_body, query_reply}
use holler_server.Wire.Connection.Gate.{decoded_cases}

-- A reply to a frame bears the id of the frame.
abbrev pub Answers : Envelope → Sent → Type 0
Answers env (frame reply) = reply.id ≡ env.id
Answers env _ = Unit

query_reply-id : (env : Envelope) (a : Answered) → (query_reply env a).id ≡ env.id
query_reply-id env (Answered.ok body) = refl
query_reply-id env (Answered.err body) = refl

module _ {Contents : Type 0} (ctx : Context Contents) (token_id client_id : String) where
  -- At most one reply, and it is to this frame.
  abbrev pub AnsweredOnce : Envelope → List Sent → Type 0
  AnsweredOnce env sent = (length sent ≤ 1) × All (Answers env) sent

  body-AnsweredOnce :
      (m : Moment Contents) (env : Envelope) (b : Body) (s : Server Contents)
      → AnsweredOnce env (handle_body ctx token_id client_id m env b s).1
  unfolding handle_body new_pong_envelope
  body-AnsweredOnce m env (Body.ping b) s = (omega arith, (refl, tt))
  body-AnsweredOnce m env (Body.query b) s = (omega arith, (query_reply-id env _, tt))
  body-AnsweredOnce m env _ s = (omega arith, tt)

  -- A session is closed over a frame exactly if the frame does not decode: then one error that says
  -- why is written, and nothing is changed and nobody woken. A frame that decodes keeps the session,
  -- whatever its type and its body, and is answered at most once, under its own id.
  pub malformed_closes :
      (m : Moment Contents) (raw : String) (s : Server Contents)
      → let r = handle_frame ctx token_id client_id m raw s in
        ((e : DecodeError) × (decode ctx.serde raw ≡ Decoded.err e)
          × (r.stays ≡ false)
          × (r.sent ≡ frame (decode_error_envelope ctx.shown e) ∷ [])
          × (r.server ≡ s)
          × (r.effects ≡ []))
        ⊎ ((env : Envelope) × (decode ctx.serde raw ≡ Decoded.ok env)
            × (r.stays ≡ true)
            × AnsweredOnce env r.sent)
  unfolding handle_frame
  malformed_closes m raw s = elim (decoded_cases (decode ctx.serde raw)) [
    | inl (e, h) ↦ inl (
      e,
      h,
      rw (h, handle_frame) refl,
      rw (h, handle_frame) refl,
      rw (h, handle_frame) refl,
      rw (h, handle_frame) refl,
    )
    | inr (env, h) ↦ inr (
      env,
      h,
      rw (h, handle_frame) refl,
      rw (h, handle_frame) (body-AnsweredOnce m env env.body s),
    )
  ]
