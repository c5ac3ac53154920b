-- ===== src/Wire/Control/Calm.antt =====
-- No request of src/wire/control.rs begins a connection.
use holler_server.Prelude.{
  ℕ, ◌/◌, ◌%◌, ◌^◌, ◌≡◌, refl, String, List, [], ◌∷◌, Option, none, some, arith, Option-cases, inl,
  inr, string_eq, if◌then◌else◌,
}
use holler_server.Proto.{QueryOkBody}
use holler_server.Prelude.Dict.{insert}
use holler_server.Token.Record.{ConnectionStatus}
use holler_server.Roster.{resolve_session}
use holler_server.Wire.Registry.{
  Registry, Entry, at_entry, PendingQueryReply, PendingAnswerReply, PromptEvent, resolve_target,
  hostname_of, record_harness_confirmed,
}
use holler_server.Wire.Registry.Resolve.{
  forget_pending, forget_pending_query, forget_pending_prompt, forget_pending_interrupt,
  forget_pending_answer, cancel_pending_prompts_for_session,
}
use holler_server.Wire.Registry.Waiting.{
  World, ping, query, prompt, interrupt, answer, Ending, received, dropped, timeout, QueryOutcome,
  InterruptOutcome, AnswerOutcome, is_connected, prompt_loop,
}
use holler_server.Wire.Registry.Entries.{
  BeginsNone, none_refl, none_trans, at_entry-BeginsNone, remove-BeginsNone, IsCalm,
  started-BeginsNone,
}
use holler_server.Wire.Control.Confirmed.{outcome_cases}
use holler_server.Wire.Connection.{Server, Context}
use holler_server.Wire.Control.{
  Request, Meets, Served, confirm, handle_request, query_target, say_to, interrupt_to, answer_to,
}

confirm-BeginsNone :
    (query_cmd : String) (args : List String) (host : Option String) (body : QueryOkBody)
    (g : Registry)
    → BeginsNone g (confirm query_cmd args host body g)
unfolding confirm record_harness_confirmed
confirm-BeginsNone query_cmd [] host body g = λ id e at. (e, at, refl)
confirm-BeginsNone query_cmd (feature ∷ args) none body g = λ id e at. (e, at, refl)
confirm-BeginsNone query_cmd (feature ∷ args) (some h) body g =
    λ id e at. (e, ground (arith, at), refl)

forget-BeginsNone :
    (token_id : String) (f : Entry → Entry)
    → ((e : Entry) → (f e).client_id ≡ e.client_id)
    → (g : Registry) → BeginsNone g (at_entry g token_id f)
forget-BeginsNone token_id f keeps g = at_entry-BeginsNone g token_id f keeps

module _ (w : World) (calm : IsCalm w) (g : Registry) (token_id : String) where
  checked-BeginsNone :
      (g : Registry) (f : Entry → Entry)
      → ((e : Entry) → (f e).client_id ≡ e.client_id)
      → BeginsNone g (w.at_check (at_entry g token_id f))
  checked-BeginsNone g f keeps =
      none_trans g (at_entry g token_id f) (w.at_check (at_entry g token_id f))
        (at_entry-BeginsNone g token_id f keeps) (calm.at_check (at_entry g token_id f))

  ping-BeginsNone :
      (ping_id host ts : String) (now waiter : ℕ) (ending : Ending ℕ)
      → BeginsNone g (ping w g token_id ping_id host ts now waiter ending).0
  unfolding ping forget_pending
  ping-BeginsNone ping_id host ts now waiter (received rtt) =
      started-BeginsNone w calm g token_id
        (λ (e : Entry). record e { pending = insert e.pending ping_id (now, waiter) }) _ _
        (λ (g : Registry). forget_pending g token_id ping_id)
        (λ e g. (ConnectionStatus.connected e.hostname (rtt / 1_000_000 % 2 ^ 64), g, []))
        (λ e. refl) (forget-BeginsNone token_id _ (λ e. refl)) (λ e g. none_refl g)
  ping-BeginsNone ping_id host ts now waiter dropped =
      started-BeginsNone w calm g token_id
        (λ (e : Entry). record e { pending = insert e.pending ping_id (now, waiter) }) _ _
        (λ (g : Registry). forget_pending g token_id ping_id)
        (λ e g. (ConnectionStatus.disconnected, forget_pending g token_id ping_id, [])) (λ e. refl)
        (forget-BeginsNone token_id _ (λ e. refl)) (λ e. forget-BeginsNone token_id _ (λ e. refl))
  ping-BeginsNone ping_id host ts now waiter timeout =
      started-BeginsNone w calm g token_id
        (λ (e : Entry). record e { pending = insert e.pending ping_id (now, waiter) }) _ _
        (λ (g : Registry). forget_pending g token_id ping_id)
        (λ e g. (ConnectionStatus.disconnected, forget_pending g token_id ping_id, [])) (λ e. refl)
        (forget-BeginsNone token_id _ (λ e. refl)) (λ e. forget-BeginsNone token_id _ (λ e. refl))

  query-BeginsNone :
      (query_id cmd : String) (args : List String) (ts : String) (waiter : ℕ)
      (ending : Ending PendingQueryReply)
      → BeginsNone g (query w g token_id cmd args query_id ts waiter ending).0
  unfolding query forget_pending_query
  query-BeginsNone query_id cmd args ts waiter (received (PendingQueryReply.ok body)) =
      started-BeginsNone w calm g token_id
        (λ (e : Entry). record e { pending_queries = insert e.pending_queries query_id waiter }) _ _
        (λ (g : Registry). forget_pending_query g token_id query_id)
        (λ e g. (QueryOutcome.ok body, g, [])) (λ e. refl)
        (forget-BeginsNone token_id _ (λ e. refl)) (λ e g. none_refl g)
  query-BeginsNone query_id cmd args ts waiter (received (PendingQueryReply.err body)) =
      started-BeginsNone w calm g token_id
        (λ (e : Entry). record e { pending_queries = insert e.pending_queries query_id waiter }) _ _
        (λ (g : Registry). forget_pending_query g token_id query_id)
        (λ e g. (QueryOutcome.err body, g, [])) (λ e. refl)
        (forget-BeginsNone token_id _ (λ e. refl)) (λ e g. none_refl g)
  query-BeginsNone query_id cmd args ts waiter dropped =
      started-BeginsNone w calm g token_id
        (λ (e : Entry). record e { pending_queries = insert e.pending_queries query_id waiter }) _ _
        (λ (g : Registry). forget_pending_query g token_id query_id)
        (λ e g. (QueryOutcome.disconnected, forget_pending_query g token_id query_id, []))
        (λ e. refl) (forget-BeginsNone token_id _ (λ e. refl))
        (λ e. forget-BeginsNone token_id _ (λ e. refl))
  query-BeginsNone query_id cmd args ts waiter timeout =
      started-BeginsNone w calm g token_id
        (λ (e : Entry). record e { pending_queries = insert e.pending_queries query_id waiter }) _ _
        (λ (g : Registry). forget_pending_query g token_id query_id)
        (λ e g. (QueryOutcome.disconnected, forget_pending_query g token_id query_id, []))
        (λ e. refl) (forget-BeginsNone token_id _ (λ e. refl))
        (λ e. forget-BeginsNone token_id _ (λ e. refl))

  interrupt-BeginsNone :
      (interrupt_id session ts : String) (waiter : ℕ) (ending : Ending (Unit {0}))
      → BeginsNone g (interrupt w g token_id interrupt_id session ts waiter ending).0
  unfolding interrupt forget_pending_interrupt
  interrupt-BeginsNone interrupt_id session ts waiter (received reply) =
      started-BeginsNone w calm g token_id
        (λ (e : Entry). record e {
          pending_interrupts = insert e.pending_interrupts interrupt_id waiter;
        })
        _ _ (λ (g : Registry). forget_pending_interrupt g token_id interrupt_id)
        (λ e g. (InterruptOutcome.acked, g, cancel_pending_prompts_for_session g token_id session))
        (λ e. refl) (forget-BeginsNone token_id _ (λ e. refl)) (λ e g. none_refl g)
  interrupt-BeginsNone interrupt_id session ts waiter dropped =
      started-BeginsNone w calm g token_id
        (λ (e : Entry). record e {
          pending_interrupts = insert e.pending_interrupts interrupt_id waiter;
        })
        _ _ (λ (g : Registry). forget_pending_interrupt g token_id interrupt_id)
        (λ e g. (InterruptOutcome.disconnected, g, [])) (λ e. refl)
        (forget-BeginsNone token_id _ (λ e. refl)) (λ e g. none_refl g)
  interrupt-BeginsNone interrupt_id session ts waiter timeout =
      started-BeginsNone w calm g token_id
        (λ (e : Entry). record e {
          pending_interrupts = insert e.pending_interrupts interrupt_id waiter;
        })
        _ _ (λ (g : Registry). forget_pending_interrupt g token_id interrupt_id)
        (λ e g. (
          (if is_connected (w.at_check (forget_pending_interrupt g token_id interrupt_id)) token_id
              then InterruptOutcome.timed_out
              else InterruptOutcome.disconnected),
          w.at_check (forget_pending_interrupt g token_id interrupt_id),
          [],
        ))
        (λ e. refl) (forget-BeginsNone token_id _ (λ e. refl))
        (λ e g. checked-BeginsNone g _ (λ e. refl))

  answer-BeginsNone :
      (answer_id session choice ts : String) (waiter : ℕ) (ending : Ending PendingAnswerReply)
      → BeginsNone g (answer w g token_id answer_id session choice ts waiter ending).0
  unfolding answer forget_pending_answer
  answer-BeginsNone answer_id session choice ts waiter (received PendingAnswerReply.acked) =
      started-BeginsNone w calm g token_id
        (λ (e : Entry). record e { pending_answers = insert e.pending_answers answer_id waiter }) _
        _ (λ (g : Registry). forget_pending_answer g token_id answer_id)
        (λ e g. (AnswerOutcome.acked, g, [])) (λ e. refl) (forget-BeginsNone token_id _ (λ e. refl))
        (λ e g. none_refl g)
  answer-BeginsNone answer_id session choice ts waiter (received (PendingAnswerReply.err body)) =
      started-BeginsNone w calm g token_id
        (λ (e : Entry). record e { pending_answers = insert e.pending_answers answer_id waiter }) _
        _ (λ (g : Registry). forget_pending_answer g token_id answer_id)
        (λ e g. (AnswerOutcome.err body, g, [])) (λ e. refl)
        (forget-BeginsNone token_id _ (λ e. refl)) (λ e g. none_refl g)
  answer-BeginsNone answer_id session choice ts waiter dropped =
      started-BeginsNone w calm g token_id
        (λ (e : Entry). record e { pending_answers = insert e.pending_answers answer_id waiter }) _
        _ (λ (g : Registry). forget_pending_answer g token_id answer_id)
        (λ e g. (AnswerOutcome.disconnected, g, [])) (λ e. refl)
        (forget-BeginsNone token_id _ (λ e. refl)) (λ e g. none_refl g)
  answer-BeginsNone answer_id session choice ts waiter timeout =
      started-BeginsNone w calm g token_id
        (λ (e : Entry). record e { pending_answers = insert e.pending_answers answer_id waiter }) _
        _ (λ (g : Registry). forget_pending_answer g token_id answer_id)
        (λ e g. (
          (if is_connected (w.at_check (forget_pending_answer g token_id answer_id)) token_id
              then AnswerOutcome.timed_out
              else AnswerOutcome.disconnected),
          w.at_check (forget_pending_answer g token_id answer_id),
          [],
        ))
        (λ e. refl) (forget-BeginsNone token_id _ (λ e. refl))
        (λ e g. checked-BeginsNone g _ (λ e. refl))

  prompt-BeginsNone :
      (prompt_id session text ts : String) (waiter : ℕ) (events : List PromptEvent)
      → BeginsNone g (prompt w g token_id prompt_id session text none ts waiter events).0
  unfolding prompt forget_pending_prompt
  prompt-BeginsNone prompt_id session text ts waiter events =
      let forget = λ (g : Registry). forget_pending_prompt g token_id prompt_id in
      started-BeginsNone w calm g token_id
        (λ (e : Entry). record e {
          pending_prompts = insert e.pending_prompts prompt_id (session, waiter);
        })
        _ _ forget (λ e g. (prompt_loop [] events, forget g, [])) (λ e. refl)
        (forget-BeginsNone token_id _ (λ e. refl)) (λ e. forget-BeginsNone token_id _ (λ e. refl))

module _ {Contents : Type 0} (ctx : Context Contents) (m : Meets Contents)
    (calm : IsCalm m.world) where
  target-BeginsNone :
      (cmd : String) (args : List String) (token_id : String) (s : Server Contents)
      → BeginsNone s.registry (query_target ctx m cmd args token_id s).0.registry
  unfolding query_target
  target-BeginsNone cmd args token_id s =
      let call = query m.world s.registry token_id cmd args m.id m.ts m.waiter m.answered in
      let first =
        query-BeginsNone m.world calm s.registry token_id m.id cmd args m.ts m.waiter m.answered in
      elim (outcome_cases call.1) [
        | inr (none, e) ↦ rw (e, query_target) first
        | inr (some error, e) ↦ rw (e, query_target) first
        | inl (body, e) ↦
            let host = hostname_of s.registry token_id in
            rw (e, query_target)
              (none_trans s.registry call.0 (confirm cmd args host body call.0) first
                (confirm-BeginsNone cmd args host body call.0))
      ]

  -- What a request does if its session is routed, and if it is not.
  routed-BeginsNone :
      (s : Server Contents) (session : String) (refusal : Served Contents)
      (serve : String → Served Contents)
      → refusal.0 ≡ s
      → ((t : String) → BeginsNone s.registry (serve t).0.registry)
      → BeginsNone s.registry
          (elim (resolve_session s.roster m.now session) as (λ x. Served Contents) [
            | none ↦ refusal
            | some t ↦ serve t
          ]).0.registry
  routed-BeginsNone s session refusal serve same each =
      elim (Option-cases (resolve_session s.roster m.now session)) [
        | inl e ↦ rw (e, same) (none_refl s.registry)
        | inr (t, e) ↦ rw e (each t)
      ]

  pub handle_request-BeginsNone :
      (q : Request) (s : Server Contents)
      → BeginsNone s.registry (handle_request ctx m q s).0.registry
  unfolding handle_request say_to interrupt_to answer_to
  handle_request-BeginsNone Request.status s = none_refl s.registry
  handle_request-BeginsNone Request.roster s = none_refl s.registry
  handle_request-BeginsNone (Request.ping token_id) s =
      ping-BeginsNone m.world calm s.registry token_id m.id ctx.server_hostname m.ts m.now m.waiter
        m.pong
  handle_request-BeginsNone (Request.query none cmd args) s = none_refl s.registry
  handle_request-BeginsNone (Request.query (some target) cmd args) s =
      elim (Option-cases (resolve_target s.registry target)) [
        | inl e ↦ rw (e, handle_request) (none_refl s.registry)
        | inr (t, e) ↦ rw (e, handle_request) (target-BeginsNone cmd args t s)
      ]
  handle_request-BeginsNone (Request.say session text) s =
      routed-BeginsNone s session _ (λ t. say_to ctx m session text t s) refl
        (λ t. prompt-BeginsNone m.world calm s.registry t m.id session text m.ts m.waiter m.events)
  handle_request-BeginsNone (Request.interrupt session) s =
      routed-BeginsNone s session _ (λ t. interrupt_to ctx m session t s) refl
        (λ t.
          interrupt-BeginsNone m.world calm s.registry t m.id session m.ts m.waiter m.interrupted)
  handle_request-BeginsNone (Request.answer session choice) s =
      routed-BeginsNone s session _ (λ t. answer_to ctx m session choice t s) refl
        (λ t.
          answer-BeginsNone m.world calm s.registry t m.id session choice m.ts m.waiter m.chosen)
  handle_request-BeginsNone (Request.revoke token_id) s = remove-BeginsNone s.registry token_id
