-- ===== src/Wire/Registry/Resolve.antt =====
-- The calls of src/wire/registry.rs that a connection's task makes for an incoming frame: each finds
-- the waiter that a frame answers.
use holler_server.Prelude.{
  ℕ, ◌-◌, String, List, [], ◌∷◌, Option, none, some, if◌then◌else◌, ◌==◌, string_eq,
}
use holler_server.Prelude.Dict.{Dict, get, remove}
use holler_server.Proto.{ErrorBody, QueryOkBody, ReplyBody}
use holler_server.Wire.Registry.{
  Registry, Entry, Effect, wakes_ping, wakes_query, wakes_prompt, wakes_interrupt, wakes_answer,
  PendingQueryReply, PendingAnswerReply, PromptEvent, at_entry,
}

unfoldable pub forget_pending : Registry → String → String → Registry
forget_pending g token_id id =
    at_entry g token_id (λ (e : Entry). record e { pending = remove e.pending id })

unfoldable pub forget_pending_query : Registry → String → String → Registry
forget_pending_query g token_id id =
    at_entry g token_id (λ (e : Entry). record e { pending_queries = remove e.pending_queries id })

unfoldable pub forget_pending_prompt : Registry → String → String → Registry
forget_pending_prompt g token_id id =
    at_entry g token_id (λ (e : Entry). record e { pending_prompts = remove e.pending_prompts id })

unfoldable pub forget_pending_interrupt : Registry → String → String → Registry
forget_pending_interrupt g token_id id =
    at_entry g token_id
      (λ (e : Entry). record e { pending_interrupts = remove e.pending_interrupts id })

unfoldable pub forget_pending_answer : Registry → String → String → Registry
forget_pending_answer g token_id id =
    at_entry g token_id (λ (e : Entry). record e { pending_answers = remove e.pending_answers id })

-- The waiter under an id of the entry of a token, if both are there.
abbrev pub waiter_in :
    {V : Type 0} → Registry → String → (Entry → Dict String V) → String → Option V
waiter_in g token_id pending id = elim (get g.entries token_id) [
  | none ↦ none
  | some e ↦ get (pending e) id
]

abbrev pub wake :
    Registry → Option ℕ → (Registry → Registry) → (ℕ → Effect) → Registry × List Effect
wake g none forget effect = (g, [])
wake g (some waiter) forget effect = (forget g, effect waiter ∷ [])

unfoldable pub resolve_pong : Registry → String → String → ℕ → Registry × List Effect
unfolding forget_pending
resolve_pong g token_id reply_to now =
    elim (waiter_in g token_id (λ (e : Entry). e.pending) reply_to) [
      | none ↦ (g, [])
      | some (sent_at, waiter) ↦
          (forget_pending g token_id reply_to, wakes_ping waiter (now - sent_at) ∷ [])
    ]

unfoldable pub resolve_query_ok : Registry → String → String → QueryOkBody → Registry × List Effect
unfolding forget_pending_query
resolve_query_ok g token_id reply_to body =
    wake g (waiter_in g token_id (λ (e : Entry). e.pending_queries) reply_to)
      (λ g. forget_pending_query g token_id reply_to)
      (λ waiter. wakes_query waiter (PendingQueryReply.ok body))

unfoldable pub resolve_query_err : Registry → String → String → ErrorBody → Registry × List Effect
unfolding forget_pending_query
resolve_query_err g token_id reply_to body =
    wake g (waiter_in g token_id (λ (e : Entry). e.pending_queries) reply_to)
      (λ g. forget_pending_query g token_id reply_to)
      (λ waiter. wakes_query waiter (PendingQueryReply.err body))

abbrev forward : Option (String × ℕ) → PromptEvent → List Effect
forward none event = []
forward (some (session, waiter)) event = wakes_prompt waiter event ∷ []

-- The waiter of a prompt stays.
unfoldable pub resolve_reply : Registry → String → String → ReplyBody → Registry × List Effect
resolve_reply g token_id reply_to body = (
  g,
  forward (waiter_in g token_id (λ (e : Entry). e.pending_prompts) reply_to)
      (PromptEvent.reply body),
)

unfoldable pub resolve_prompt_err : Registry → String → String → ErrorBody → Registry × List Effect
resolve_prompt_err g token_id reply_to body = (
  g,
  forward (waiter_in g token_id (λ (e : Entry). e.pending_prompts) reply_to) (PromptEvent.err body),
)

unfoldable pub cancels : String → Dict String (String × ℕ) → List Effect
cancels session [] = []
cancels session ((id, (prompt_session, waiter)) ∷ rest) =
    let later = cancels session rest in
    if prompt_session == session then wakes_prompt waiter PromptEvent.cancelled ∷ later else later

unfoldable pub cancel_pending_prompts_for_session : Registry → String → String → List Effect
unfolding cancels
cancel_pending_prompts_for_session g token_id session = elim (get g.entries token_id) [
  | none ↦ []
  | some e ↦ cancels session e.pending_prompts
]

unfoldable pub resolve_interrupt_ack : Registry → String → String → Registry × List Effect
unfolding forget_pending_interrupt
resolve_interrupt_ack g token_id of_id =
    wake g (waiter_in g token_id (λ (e : Entry). e.pending_interrupts) of_id)
      (λ g. forget_pending_interrupt g token_id of_id) wakes_interrupt

unfoldable pub resolve_answer_ack : Registry → String → String → Registry × List Effect
unfolding forget_pending_answer
resolve_answer_ack g token_id of_id =
    wake g (waiter_in g token_id (λ (e : Entry). e.pending_answers) of_id)
      (λ g. forget_pending_answer g token_id of_id)
      (λ waiter. wakes_answer waiter PendingAnswerReply.acked)

unfoldable pub resolve_answer_err : Registry → String → String → ErrorBody → Registry × List Effect
unfolding forget_pending_answer
resolve_answer_err g token_id reply_to body =
    wake g (waiter_in g token_id (λ (e : Entry). e.pending_answers) reply_to)
      (λ g. forget_pending_answer g token_id reply_to)
      (λ waiter. wakes_answer waiter (PendingAnswerReply.err body))
