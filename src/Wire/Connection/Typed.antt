-- ===== src/Wire/Connection/Typed.antt =====
-- What a connection's task of src/wire/connection.rs writes to its client.
use holler_server.Prelude.{
  ◌≡◌, refl, subst, Bool, true, false, String, List, [], ◌∷◌, ◌++◌, none, some, arith, inl, inr,
  All, All-append, Bool-cases, Option-cases,
}
use holler_server.Lockout.{is_locked_out}
use holler_server.Token.Record.{VerifiedClient}
use holler_server.Token.Store.{redeem, verify_credential}
use holler_server.Token.Steps.{Result-cases}
use holler_server.Proto.Json.{as_str}
use holler_server.Proto.{Body, Envelope}
use holler_server.Proto.Codec.{DecodeError, unsupported_version, unknown_type, malformed}
use holler_server.Proto.Classes.{type_of}
use holler_server.Proto.Decode.{decode}
use holler_server.Net.{IpAddr}
use holler_server.Wire.Registry.{insert_client}
use holler_server.Wire.Frames.{new_pong_envelope, server_hello}
use holler_server.Wire.Query.{Answered}
use holler_server.Wire.Connection.{
  Server, Context, Incoming, Sent, frame, decode_error_envelope, next_text_frame, in_time,
}
use holler_server.Wire.Connection.Admission.{
  Attempt, closed, authenticated, Admitted, handle_join, authenticate, first_body, first_frame,
}
use holler_server.Wire.Connection.Dispatch.{Moment, query_reply, handle_body, handle_frame}
use holler_server.Wire.Connection.Cases.{Admitted-cases, Ended-cases}
use holler_server.Wire.Connection.Gate.{decoded_cases}
use holler_server.Wire.Connection.Session.{
  Script, Turn, Happening, incoming, outgoing, channel_closed, take_turn, session_loop,
  serve_client, admit, handle_connection,
}

-- An envelope of version 1 with a body of its own type.
abbrev pub IsTyped : Sent → Type 0
IsTyped (frame env) = (env.v ≡ 1) × (env.msg_type ≡ type_of env.body)
IsTyped Sent.pong = Unit
IsTyped Sent.close = Unit

-- What another task has for the socket.
abbrev pub QueuesTyped : {Contents : Type 0} → Turn Contents → Type 0
QueuesTyped t = (env : Envelope) (w : Bool) → t.happening ≡ outgoing env w → IsTyped (frame env)

-- The frames of a client that is not let in.
abbrev refusal : Admitted → List Sent
refusal (closed sent) = sent
refusal (authenticated v) = []

module _ {Contents : Type 0} (ctx : Context Contents) where
  reply-IsTyped : (env : Envelope) (answer : Answered) → IsTyped (frame (query_reply env answer))
  reply-IsTyped env (Answered.ok b) = (refl, refl)
  reply-IsTyped env (Answered.err b) = (refl, refl)

  error-IsTyped : (e : DecodeError) → IsTyped (frame (decode_error_envelope ctx.shown e))
  unfolding decode_error_envelope
  error-IsTyped (unsupported_version n) = (refl, refl)
  error-IsTyped unknown_type = (refl, refl)
  error-IsTyped (malformed m) = (refl, refl)

  module _ (v : VerifiedClient) where
    body-AllTyped :
        (m : Moment Contents) (env : Envelope) (b : Body) (s : Server Contents)
        → All IsTyped (handle_body ctx v.token_id v.client_id m env b s).1
    unfolding handle_body new_pong_envelope
    body-AllTyped m env (Body.query b) s = (reply-IsTyped env _, tt)
    body-AllTyped m env (Body.ping b) s = ((refl, refl), tt)
    body-AllTyped m env _ s = tt

    frame-AllTyped :
        (m : Moment Contents) (raw : String) (s : Server Contents)
        → All IsTyped (handle_frame ctx v.token_id v.client_id m raw s).sent
    unfolding handle_frame
    frame-AllTyped m raw s = elim (decoded_cases (decode ctx.serde raw)) [
      | inl (e, h) ↦ rw (h, handle_frame) (error-IsTyped e, tt)
      | inr (env, h) ↦ rw (h, handle_frame) (body-AllTyped m env env.body s)
    ]

    turn-AllTyped :
        (h : Happening) (m : Moment Contents) (s : Server Contents)
        → ((env : Envelope) (w : Bool) → h ≡ outgoing env w → IsTyped (frame env))
        → All IsTyped (take_turn ctx v h m s).sent
    unfolding take_turn
    turn-AllTyped (incoming (Incoming.text raw)) m s q = frame-AllTyped m raw s
    turn-AllTyped (incoming Incoming.ping) m s q = (tt, tt)
    turn-AllTyped (incoming Incoming.pong) m s q = tt
    turn-AllTyped (incoming Incoming.close) m s q = tt
    turn-AllTyped (incoming Incoming.eof) m s q = tt
    turn-AllTyped (incoming Incoming.binary) m s q = ((refl, refl), tt)
    turn-AllTyped (incoming Incoming.failed) m s q = tt
    turn-AllTyped (outgoing env true) m s q = (q env true refl, tt)
    turn-AllTyped (outgoing env false) m s q = tt
    turn-AllTyped channel_closed m s q = tt

    loop-AllTyped :
        (ts : List (Turn Contents)) (s : Server Contents)
        → All QueuesTyped ts
        → All IsTyped (session_loop ctx v ts s).sent
    unfolding session_loop
    loop-AllTyped [] s q = tt
    loop-AllTyped (t ∷ ts) s (q, qs) =
        let first = take_turn ctx v t.happening t.moment (t.others s) in
        let now = turn-AllTyped t.happening t.moment (t.others s) q in
        elim (Ended-cases first.ended) [
          | inl e ↦
              let is : (session_loop ctx v (t ∷ ts) s).sent
                  ≡ first.sent ++ (session_loop ctx v ts first.server).sent =
                ground (arith, e) in
              rw is (
                All-append IsTyped first.sent (session_loop ctx v ts first.server).sent now
                  (loop-AllTyped ts first.server qs))
          | inr (certain, e) ↦
              let is : (session_loop ctx v (t ∷ ts) s).sent ≡ first.sent = ground (arith, e) in
              rw is now
        ]

    serve-AllTyped :
        (c : Script Contents) (s : Server Contents)
        → All QueuesTyped c.turns
        → All IsTyped (serve_client ctx c v s).sent
    unfolding serve_client server_hello
    serve-AllTyped c s q = elim (Bool-cases c.hello_written) [
      | inl w ↦
          let g = record s {
            registry = (insert_client s.registry v.token_id v.client_id v.machine c.channel).0;
          } in
          let all : All IsTyped (session_loop ctx v c.turns g).sent = loop-AllTyped c.turns g q in
          elim (Ended-cases (session_loop ctx v c.turns g).ended) [
            | inl e ↦
                let is : (serve_client ctx c v s).sent
                    ≡ frame (server_hello c.hello_ts c.hello_id ctx.server_hostname)
                      ∷ (session_loop ctx v c.turns g).sent =
                  ground (arith, w, e) in
                rw is ((refl, refl), all)
            | inr (certain, e) ↦
                let is : (serve_client ctx c v s).sent
                    ≡ frame (server_hello c.hello_ts c.hello_id ctx.server_hostname)
                      ∷ (session_loop ctx v c.turns g).sent =
                  ground (arith, w, e) in
                rw is ((refl, refl), all)
          ]
      | inr w ↦ rw (w, serve_client) tt
    ]

  handle_join-AllTyped :
      (ip : IpAddr) (a : Attempt) (env : Envelope) (secret hostname : String) (s : Server Contents)
      → All IsTyped (handle_join ctx ip a env secret hostname s).1
  unfolding handle_join
  handle_join-AllTyped ip a env secret hostname s =
      elim (Result-cases
        (redeem ctx.platform ctx.pepper env.from secret hostname a.wall a.id_bytes
          a.credential_bytes s.disk).0) [
            | inl (j, h) ↦ rw (h, handle_join) ((refl, refl), (tt, tt))
            | inr (some e, h) ↦ rw (h, handle_join) ((refl, refl), (tt, tt))
            | inr (none, h) ↦ rw (h, handle_join) tt
          ]

  authenticate-AllTyped :
      (ip : IpAddr) (a : Attempt) (env : Envelope) (credential : String) (s : Server Contents)
      → All IsTyped (refusal (authenticate ctx ip a env credential s).1)
  unfolding authenticate
  authenticate-AllTyped ip a env credential s =
      elim (Result-cases
        (verify_credential ctx.platform ctx.pepper env.from credential a.wall s.disk).0) [
          | inl (j, h) ↦ rw (h, authenticate) tt
          | inr (some e, h) ↦ rw (h, authenticate) ((refl, refl), tt)
          | inr (none, h) ↦ rw (h, authenticate) tt
        ]

  first_body-AllTyped :
      (ip : IpAddr) (a : Attempt) (env : Envelope) (b : Body) (s : Server Contents)
      → All IsTyped (refusal (first_body ctx ip a env b s).1)
  unfolding first_body
  first_body-AllTyped ip a env (Body.join b) s = handle_join-AllTyped ip a env b.secret b.hostname s
  first_body-AllTyped ip a env (Body.auth b) s = elim (Option-cases (as_str (some b.credential))) [
    | inl h ↦ rw (h, first_body) ((refl, refl), tt)
    | inr (text, h) ↦ rw (h, first_body) (authenticate-AllTyped ip a env text s)
  ]
  first_body-AllTyped ip a env _ s = ((refl, refl), tt)

  first_frame-AllTyped :
      (ip : IpAddr) (a : Attempt) (raw : String) (s : Server Contents)
      → All IsTyped (refusal (first_frame ctx ip a raw s).1)
  unfolding first_frame
  first_frame-AllTyped ip a raw s = elim (decoded_cases (decode ctx.serde raw)) [
    | inl (e, h) ↦ rw (h, first_frame) (error-IsTyped e, tt)
    | inr (env, h) ↦ rw (h, first_frame) (first_body-AllTyped ip a env env.body s)
  ]

  admit-AllTyped :
      (c : Script Contents) (raw : String) (s : Server Contents)
      → All QueuesTyped c.turns
      → All IsTyped (admit ctx c raw s).sent
  unfolding admit
  admit-AllTyped c raw s q =
      let answered = first_frame-AllTyped c.peer c.attempt raw s in
      elim (Admitted-cases (first_frame ctx c.peer c.attempt raw s).1) [
        | inl (sent, e) ↦
            let is : (admit ctx c raw s).sent ≡ sent = rw (e, admit) refl in
            rw is (subst (λ x. All IsTyped (refusal x)) e answered)
        | inr (v, e) ↦
            let after = c.before_insert (first_frame ctx c.peer c.attempt raw s).0 in
            let is : (admit ctx c raw s).sent ≡ (serve_client ctx c v after).sent =
              rw (e, admit) refl in
            rw is (serve-AllTyped v c after q)
      ]

  -- Each frame that a connection's task writes to its client is an envelope of version 1 whose type is
  -- that of its body, if what the other tasks queue for the client is.
  pub written_frames_match :
      (c : Script Contents) (s : Server Contents)
      → All QueuesTyped c.turns
      → All IsTyped (handle_connection ctx c s).sent
  unfolding handle_connection
  written_frames_match c s q =
      let checked = record s { lockout = (is_locked_out s.lockout c.peer c.accepted_at).0 } in
      elim (Bool-cases (is_locked_out s.lockout c.peer c.accepted_at).1) [
        | inl e ↦ rw (e, handle_connection) tt
        | inr e ↦ elim (Bool-cases c.handshakes) [
          | inr plain ↦ rw (e, plain, handle_connection) tt
          | inl upgraded ↦
              elim (Option-cases (next_text_frame (in_time ctx.limits.pre_auth_timeout c.first))) [
                | inl f ↦ rw (e, upgraded, f, handle_connection) tt
                | inr ((raw, rest), f) ↦
                    let is : (handle_connection ctx c s).sent
                        ≡ (admit ctx c raw (c.before_first checked)).sent =
                      ground (arith, e, upgraded, f) in
                    rw is (admit-AllTyped c raw (c.before_first checked) q)
              ]
        ]
      ]
