-- ===== src/Wire/Registry/Waiting.antt =====
-- The calls of src/wire/registry.rs that wait for an answer. The locks are given back between the parts
-- of a call; what other tasks do to the registry there is an argument.
use Prim.Native.String.{◌++◌ as append}
use holler_server.Prelude.{
  ◌/◌, ◌%◌, ◌^◌, ℕ, Bool, true, false, String, List, [], ◌∷◌, ◌++◌, Option, none, some,
  if◌then◌else◌, string_eq,
}
use holler_server.Prelude.Dict.{get, insert}
use holler_server.Proto.Json.{Value, ℤ}
use holler_server.Proto.{ErrorBody, QueryOkBody, ReplyBody, Envelope}
use holler_server.Token.Record.{ConnectionStatus}
use holler_server.Wire.Frames.{
  new_ping_envelope, new_query_envelope, new_prompt_envelope, new_interrupt_envelope,
  new_answer_envelope,
}
use holler_server.Wire.Registry.{
  Registry, Entry, Effect, sends, PendingQueryReply, PendingAnswerReply, PromptEvent, at_entry,
}
use holler_server.Wire.Registry.Resolve.{
  forget_pending, forget_pending_query, forget_pending_prompt, forget_pending_interrupt,
  forget_pending_answer, cancel_pending_prompts_for_session,
}

pub data QueryOutcome : Type 0 where
  ok : QueryOkBody → QueryOutcome
  err : ErrorBody → QueryOutcome
  disconnected : QueryOutcome

pub data PromptOutcome : Type 0 where
  done : (text : String) (exit : Option ℤ) → PromptOutcome
  err : ErrorBody → PromptOutcome
  disconnected cancelled : PromptOutcome

pub data InterruptOutcome : Type 0 where
  acked timed_out disconnected : InterruptOutcome

pub data AnswerOutcome : Type 0 where
  acked : AnswerOutcome
  err : ErrorBody → AnswerOutcome
  timed_out disconnected : AnswerOutcome

-- How the wait for one answer ends: with it, with its sender dropped, or at the time limit.
pub data Ending (A : Type 0) : Type 0 where
  received : A → Ending A
  dropped timeout : Ending A

-- What is not up to the call: the changes by other tasks after the first lock, while the frame is sent,
-- during the wait, and before the last lock; and whether the receiver of the channel is still there.
pub record World : Type 0 where
  pub at_register : Registry → Registry
  pub at_send : Registry → Registry
  pub at_wait : Registry → Registry
  pub at_check : Registry → Registry
  pub is_open : Bool

-- The registry that a call leaves, its result, and what it sent.
abbrev Returned : Type 0 → Type 0
Returned A = Registry × A × List Effect

-- The parts that these calls share: take the channel, register the waiter, send the frame; then
-- `forget` and `gone` if the channel is closed, else the wait.
unfoldable pub started :
    {A : Type 0}
    → World
    → Registry
    → String
    → (Entry → Entry)
    → Envelope
    → A
    → (Registry → Registry)
    → (Entry → Registry → A × Registry × List Effect)
    → Returned A
started w g token_id register frame gone forget finish = elim (get g.entries token_id) [
  | none ↦ (g, gone, [])
  | some e ↦
      let g1 = w.at_register g in
      elim (get g1.entries token_id) [
        | none ↦ (g1, gone, [])
        | some e1 ↦
            let g2 = w.at_send (at_entry g1 token_id register) in
            if w.is_open
            then (let (a, g3, effects) = finish e (w.at_wait g2) in
                (g3, a, sends e.out_tx frame ∷ effects))
            else (forget g2, gone, [])
      ]
]

unfoldable pub ping :
    World
    → Registry
    → String
    → String
    → String
    → String
    → ℕ
    → ℕ
    → Ending ℕ
    → Returned ConnectionStatus
unfolding started forget_pending
ping w g token_id ping_id server_hostname ts now waiter ending =
    let forget = λ (g : Registry). forget_pending g token_id ping_id in
    started w g token_id
      (λ (e : Entry). record e { pending = insert e.pending ping_id (now, waiter) })
      (new_ping_envelope ts ping_id server_hostname) ConnectionStatus.disconnected forget
      (λ (e : Entry) (g : Registry). elim ending [
        | received rtt ↦ (ConnectionStatus.connected e.hostname (rtt / 1_000_000 % 2 ^ 64), g, [])
        | _ ↦ (ConnectionStatus.disconnected, forget g, [])
      ])

unfoldable pub query :
    World
    → Registry
    → String
    → String
    → List String
    → String
    → String
    → ℕ
    → Ending PendingQueryReply
    → Returned QueryOutcome
unfolding started forget_pending_query
query w g token_id cmd args query_id ts waiter ending =
    let forget = λ (g : Registry). forget_pending_query g token_id query_id in
    started w g token_id
      (λ (e : Entry). record e { pending_queries = insert e.pending_queries query_id waiter })
      (new_query_envelope ts query_id cmd args) QueryOutcome.disconnected forget
      (λ (e : Entry) (g : Registry). elim ending [
        | received (PendingQueryReply.ok body) ↦ (QueryOutcome.ok body, g, [])
        | received (PendingQueryReply.err body) ↦ (QueryOutcome.err body, g, [])
        | _ ↦ (QueryOutcome.disconnected, forget g, [])
      ])

abbrev pub concat : List String → String
concat [] = ""
concat (s ∷ rest) = append s (concat rest)

-- The pieces that a reply adds.
abbrev pub pieces_of : ReplyBody → List String
pieces_of reply = elim reply.text [ none ↦ reply.chunks | some t ↦ t ∷ reply.chunks ]

-- The loop of a prompt over the events that it receives; after the last of them it finds the channel
-- closed, or waits until the time limit.
unfoldable pub prompt_loop : List String → List PromptEvent → PromptOutcome
prompt_loop pieces [] = PromptOutcome.disconnected
prompt_loop pieces (PromptEvent.reply reply ∷ events) =
    let all = pieces ++ pieces_of reply in
    let rest = prompt_loop all events in
    if reply.done then PromptOutcome.done (concat all) reply.exit else rest
prompt_loop pieces (PromptEvent.err body ∷ events) = PromptOutcome.err body
prompt_loop pieces (PromptEvent.cancelled ∷ events) = PromptOutcome.cancelled

unfoldable pub prompt :
    World
    → Registry
    → String
    → String
    → String
    → String
    → Option Value
    → String
    → ℕ
    → List PromptEvent
    → Returned PromptOutcome
unfolding started forget_pending_prompt prompt_loop
prompt w g token_id prompt_id session text meta ts waiter events =
    let forget = λ (g : Registry). forget_pending_prompt g token_id prompt_id in
    started w g token_id
      (λ (e : Entry). record e {
        pending_prompts = insert e.pending_prompts prompt_id (session, waiter);
      })
      (new_prompt_envelope ts prompt_id session text meta) PromptOutcome.disconnected forget
      (λ (e : Entry) (g : Registry). (prompt_loop [] events, forget g, []))

abbrev pub is_connected : Registry → String → Bool
is_connected g token_id = elim (get g.entries token_id) [ none ↦ false | some e ↦ true ]

unfoldable pub interrupt :
    World
    → Registry
    → String
    → String
    → String
    → String
    → ℕ
    → Ending (Unit {0})
    → Returned InterruptOutcome
unfolding started forget_pending_interrupt cancel_pending_prompts_for_session
interrupt w g token_id interrupt_id session ts waiter ending =
    let forget = λ (g : Registry). forget_pending_interrupt g token_id interrupt_id in
    started w g token_id
      (λ (e : Entry). record e {
        pending_interrupts = insert e.pending_interrupts interrupt_id waiter;
      })
      (new_interrupt_envelope ts interrupt_id session) InterruptOutcome.disconnected forget
      (λ (e : Entry) (g : Registry). elim ending [
        | received reply ↦
            (InterruptOutcome.acked, g, cancel_pending_prompts_for_session g token_id session)
        | dropped ↦ (InterruptOutcome.disconnected, g, [])
        | timeout ↦
            let after = w.at_check (forget g) in
            (
              (if is_connected after token_id
                  then InterruptOutcome.timed_out
                  else InterruptOutcome.disconnected),
              after,
              [],
            )
      ])

unfoldable pub answer :
    World
    → Registry
    → String
    → String
    → String
    → String
    → String
    → ℕ
    → Ending PendingAnswerReply
    → Returned AnswerOutcome
unfolding started forget_pending_answer
answer w g token_id answer_id session choice ts waiter ending =
    let forget = λ (g : Registry). forget_pending_answer g token_id answer_id in
    let check : Registry → AnswerOutcome × Registry × List Effect = λ g.
      let after = w.at_check (forget g) in
      (
        (if is_connected after token_id
            then AnswerOutcome.timed_out
            else AnswerOutcome.disconnected),
        after,
        [],
      ) in
    started w g token_id
      (λ (e : Entry). record e { pending_answers = insert e.pending_answers answer_id waiter })
      (new_answer_envelope ts answer_id session choice) AnswerOutcome.disconnected forget
      (λ (e : Entry) (g : Registry). elim ending [
        | received (PendingAnswerReply.err body) ↦ (AnswerOutcome.err body, g, [])
        | received PendingAnswerReply.acked ↦ (AnswerOutcome.acked, g, [])
        | dropped ↦ (AnswerOutcome.disconnected, g, [])
        | timeout ↦ check g
      ])
