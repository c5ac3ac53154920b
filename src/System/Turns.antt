-- ===== src/System/Turns.antt =====
-- What a connection's task of src/wire/connection.rs does to the connections of the registry and to the
-- records of the store while it serves.
use holler_server.Prelude.{
  ℕ, Bool, ◌≡◌, refl, true, false, String, Option, none, some, Option-cases, inl, inr,
}
use holler_server.Proto.{Body, Envelope, ErrorBody}
use holler_server.Proto.Decode.{decode}
use holler_server.Token.Record.{VerifiedClient}
use holler_server.Wire.Registry.{Registry, Entry, Effect, set_hostname, at_entry}
use holler_server.Wire.Registry.Entries.{
  BeginsNone, none_refl, none_trans, at_entry-BeginsNone, remove-BeginsNone,
}
use holler_server.Wire.Registry.Resolve.{
  resolve_pong, resolve_query_ok, resolve_query_err, resolve_prompt_err, resolve_answer_err,
  resolve_reply, resolve_interrupt_ack, resolve_answer_ack, forget_pending, forget_pending_query,
  forget_pending_interrupt, forget_pending_answer, wake, waiter_in,
}
use holler_server.Wire.Connection.{Server, Context, Incoming}
use holler_server.Wire.Connection.Dispatch.{
  Moment, handle_body, handle_frame, resolve_ack, resolve_error,
}
use holler_server.Wire.Connection.Gate.{decoded_cases}
use holler_server.Wire.Connection.Session.{
  Happening, incoming, outgoing, channel_closed, take_turn, teardown,
}

wake-BeginsNone :
    (token_id : String) (g : Registry) (w : Option ℕ) (f : Entry → Entry) (effect : ℕ → Effect)
    → ((e : Entry) → (f e).client_id ≡ e.client_id)
    → BeginsNone g (wake g w (λ g. at_entry g token_id f) effect).0
wake-BeginsNone token_id g none f effect keeps = none_refl g
wake-BeginsNone token_id g (some w) f effect keeps = at_entry-BeginsNone g token_id f keeps

error-BeginsNone :
    (g : Registry) (token_id id : String) (b : ErrorBody)
    → BeginsNone g (resolve_error g token_id id b).0
unfolding resolve_query_err resolve_prompt_err resolve_answer_err forget_pending_query
    forget_pending_answer
error-BeginsNone g token_id id b =
    let g1 = (resolve_query_err g token_id id b).0 in
    none_trans g g1 (resolve_error g token_id id b).0 (wake-BeginsNone token_id g _ _ _ (λ e. refl))
      (wake-BeginsNone token_id g1 _ _ _ (λ e. refl))

ack-BeginsNone :
    (g : Registry) (token_id : String) (of_id : Option String)
    → BeginsNone g (resolve_ack g token_id of_id).0
unfolding resolve_interrupt_ack resolve_answer_ack forget_pending_interrupt forget_pending_answer
ack-BeginsNone g token_id none = none_refl g
ack-BeginsNone g token_id (some of_id) =
    let g1 = (resolve_interrupt_ack g token_id of_id).0 in
    none_trans g g1 (resolve_ack g token_id (some of_id)).0
      (wake-BeginsNone token_id g _ _ _ (λ e. refl)) (wake-BeginsNone token_id g1 _ _ _ (λ e. refl))

pong-BeginsNone :
    (g : Registry) (token_id id : String) (now : ℕ)
    → BeginsNone g (resolve_pong g token_id id now).0
unfolding resolve_pong forget_pending
pong-BeginsNone g token_id id now =
    elim (Option-cases (waiter_in g token_id (λ (e : Entry). e.pending) id)) [
      | inl h ↦ rw (h, resolve_pong) (none_refl g)
      | inr (w, h) ↦ rw (h, resolve_pong) (at_entry-BeginsNone g token_id _ (λ e. refl))
    ]

-- What a task that serves leaves: the store as it was, and no connection that was not there.
pub record Tame {Contents : Type 0} (s s' : Server Contents) : Type 0 where
  pub disk : s'.disk ≡ s.disk
  pub registry : BeginsNone s.registry s'.registry

module _ {Contents : Type 0} (ctx : Context Contents) (v : VerifiedClient) where
  Tame-refl : (s : Server Contents) → Tame s s
  Tame-refl s = record { disk = refl; registry = none_refl s.registry }

  body-Tame :
      (m : Moment Contents) (env : Envelope) (b : Body) (s : Server Contents)
      → Tame s (handle_body ctx v.token_id v.client_id m env b s).0
  unfolding handle_body set_hostname resolve_query_ok forget_pending_query resolve_reply
  body-Tame m env (Body.hello b) s = record {
    disk = refl;
    registry = at_entry-BeginsNone s.registry v.token_id _ (λ e. refl);
  }
  body-Tame m env (Body.query_ok b) s = record {
    disk = refl;
    registry = wake-BeginsNone v.token_id s.registry _ _ _ (λ e. refl);
  }
  body-Tame m env (Body.pong b) s = record {
    disk = refl;
    registry = pong-BeginsNone s.registry v.token_id env.id _;
  }
  body-Tame m env (Body.error b) s = record {
    disk = refl;
    registry = error-BeginsNone s.registry v.token_id env.id b;
  }
  body-Tame m env (Body.ack b) s = record {
    disk = refl;
    registry = ack-BeginsNone s.registry v.token_id b.of;
  }
  body-Tame m env _ s = record { disk = refl; registry = none_refl s.registry }

  frame-Tame :
      (m : Moment Contents) (raw : String) (s : Server Contents)
      → Tame s (handle_frame ctx v.token_id v.client_id m raw s).server
  unfolding handle_frame
  frame-Tame m raw s = elim (decoded_cases (decode ctx.serde raw)) [
    | inl (e, h) ↦ rw (h, handle_frame) (Tame-refl s)
    | inr (env, h) ↦ rw (h, handle_frame) (body-Tame m env env.body s)
  ]

  pub turn-Tame :
      (h : Happening) (m : Moment Contents) (s : Server Contents)
      → Tame s (take_turn ctx v h m s).server
  unfolding take_turn
  turn-Tame (incoming (Incoming.text raw)) m s = frame-Tame m raw s
  turn-Tame (incoming Incoming.ping) m s = Tame-refl s
  turn-Tame (incoming Incoming.pong) m s = Tame-refl s
  turn-Tame (incoming Incoming.close) m s = Tame-refl s
  turn-Tame (incoming Incoming.eof) m s = Tame-refl s
  turn-Tame (incoming Incoming.binary) m s = Tame-refl s
  turn-Tame (incoming Incoming.failed) m s = Tame-refl s
  turn-Tame (outgoing env true) m s = Tame-refl s
  turn-Tame (outgoing env false) m s = Tame-refl s
  turn-Tame channel_closed m s = Tame-refl s

  pub teardown-Tame : (certain : Bool) (s : Server Contents) → Tame s (teardown ctx v certain s)
  unfolding teardown
  teardown-Tame true s = record { disk = refl; registry = remove-BeginsNone s.registry v.token_id }
  teardown-Tame false s = record { disk = refl; registry = remove-BeginsNone s.registry v.token_id }
