-- ===== src/Wire/Registry/Prompts.antt =====
-- Prompts of src/wire/registry.rs: the replies that a prompt collects, and the prompts that an
-- interrupt cancels.
use mathlib.Core.List.{append_assoc}
use holler_server.Prelude.{
  ℕ, ◌≡◌, refl, true, false, String, List, [], ◌∷◌, ◌++◌, map, keep, some, arith, All, ◌==◌,
  string_eq,
}
use holler_server.Prelude.Dict.{Dict, get, insert}
use holler_server.Proto.{ReplyBody, ErrorBody}
use holler_server.Wire.Frames.{new_interrupt_envelope}
use holler_server.Wire.Registry.{sends, at_entry, Registry, Entry, wakes_prompt, PromptEvent}
use holler_server.Wire.Registry.Resolve.{cancels, cancel_pending_prompts_for_session}
use holler_server.Wire.Registry.Waiting.{
  World, started, interrupt, InterruptOutcome, received, timeout, PromptOutcome, done, prompt_loop,
  pieces_of, concat,
}

-- A reply that is not the last.
abbrev pub IsPartial : ReplyBody → Type 0
IsPartial r = r.done ≡ false

-- All pieces of some replies, in order.
abbrev pub pieces : List ReplyBody → List String
pieces [] = []
pieces (r ∷ rs) = pieces_of r ++ pieces rs

append_empty : (xs : List String) → xs ++ [] ≡ xs
append_empty [] = refl
append_empty (x ∷ xs) = ground (arith, append_empty xs)

prompt_loop-collects :
    (before : List String) (partial : List ReplyBody) (last : ReplyBody) (more : List PromptEvent)
    → All IsPartial partial
    → last.done ≡ true
    → prompt_loop before (map PromptEvent.reply partial ++ PromptEvent.reply last ∷ more)
      ≡ done (concat (before ++ pieces (partial ++ last ∷ []))) last.exit
unfolding prompt_loop
prompt_loop-collects before [] last more a d = ground (arith, d, append_empty (pieces_of last))
prompt_loop-collects before (r ∷ rs) last more a d =
    let first = a.0 in
    ground (
      arith,
      first,
      append_assoc before (pieces_of r) (pieces (rs ++ last ∷ [])),
      prompt_loop-collects (before ++ pieces_of r) rs last more a.1 d,
    )

-- A prompt that receives partial replies and then a final one, with any events after it, is done with
-- the texts and chunks of these replies, concatenated in the order of arrival, and the exit of the last.
pub prompt_collects_replies :
    (partial : List ReplyBody) (last : ReplyBody) (more : List PromptEvent)
    → All IsPartial partial
    → last.done ≡ true
    → prompt_loop [] (map PromptEvent.reply partial ++ PromptEvent.reply last ∷ more)
      ≡ done (concat (pieces (partial ++ last ∷ []))) last.exit
prompt_collects_replies partial last more a d = prompt_loop-collects [] partial last more a d

ends-early :
    (before : List String) (partial : List ReplyBody) (body : ErrorBody) (more : List PromptEvent)
    → All IsPartial partial
    → (prompt_loop before (map PromptEvent.reply partial ++ PromptEvent.err body ∷ more)
        ≡ PromptOutcome.err body)
      × (prompt_loop before (map PromptEvent.reply partial ++ PromptEvent.cancelled ∷ more)
          ≡ PromptOutcome.cancelled)
      × (prompt_loop before (map PromptEvent.reply partial) ≡ PromptOutcome.disconnected)
unfolding prompt_loop
ends-early before [] body more a = (refl, refl, refl)
ends-early before (r ∷ rs) body more a =
    let first = a.0 in
    let rest = ends-early (before ++ pieces_of r) rs body more a.1 in
    (ground (arith, first, rest.0), ground (arith, first, rest.1), ground (arith, first, rest.2))

-- Partial replies followed by an error or a cancellation end the prompt with it, without their text.
-- Partial replies and nothing more leave it disconnected.
prompt_ends_early :
    (partial : List ReplyBody) (body : ErrorBody) (more : List PromptEvent)
    → All IsPartial partial
    → (prompt_loop [] (map PromptEvent.reply partial ++ PromptEvent.err body ∷ more)
        ≡ PromptOutcome.err body)
      × (prompt_loop [] (map PromptEvent.reply partial ++ PromptEvent.cancelled ∷ more)
          ≡ PromptOutcome.cancelled)
      × (prompt_loop [] (map PromptEvent.reply partial) ≡ PromptOutcome.disconnected)
prompt_ends_early partial body more a = ends-early [] partial body more a

-- The prompts of a session, by their waiters.
abbrev waiters_of : String → Dict String (String × ℕ) → List ℕ
waiters_of session prompts = map (λ row. row.1.1) (keep (λ row. row.1.0 == session) prompts)

cancels-waiters :
    (session : String) (prompts : Dict String (String × ℕ))
    → cancels session prompts
      ≡ map (λ w. wakes_prompt w PromptEvent.cancelled) (waiters_of session prompts)
unfolding cancels
cancels-waiters session [] = refl
cancels-waiters session ((id, (s, w)) ∷ rest) = ground (arith, cancels-waiters session rest)

-- The registry when the wait of an interrupt ends.
abbrev pub interrupt_waited : World → Registry → String → String → ℕ → Registry
interrupt_waited w g token_id interrupt_id waiter =
    let add : Entry → Entry =
      λ e. record e { pending_interrupts = insert e.pending_interrupts interrupt_id waiter } in
    w.at_wait (w.at_send (at_entry (w.at_register g) token_id add))

-- An interrupt of a live token whose channel is open is sent to this token's socket. If the client
-- acknowledges it and is still connected then, the outcome is acked and every prompt that waits on the
-- connection for the same session is woken with a cancellation, and no other prompt. At the time
-- limit no prompt is woken.
pub interrupt_cancels_session :
    (w : World) (g : Registry) (token_id interrupt_id session ts : String) (waiter : ℕ)
    (e e1 e2 : Entry)
    → get g.entries token_id ≡ some e
    → get (w.at_register g).entries token_id ≡ some e1
    → get (interrupt_waited w g token_id interrupt_id waiter).entries token_id ≡ some e2
    → w.is_open ≡ true
    → let waited = interrupt_waited w g token_id interrupt_id waiter in
      let frame = sends e.out_tx (new_interrupt_envelope ts interrupt_id session) in
      (interrupt w g token_id interrupt_id session ts waiter (received tt) ≡ (
        waited,
        InterruptOutcome.acked,
        frame
            ∷ map
                (λ w. wakes_prompt w PromptEvent.cancelled)
                (waiters_of session e2.pending_prompts),
      ))
      × ((interrupt w g token_id interrupt_id session ts waiter timeout).2 ≡ frame ∷ [])
unfolding interrupt started cancel_pending_prompts_for_session
interrupt_cancels_session w g token_id interrupt_id session ts waiter e e1 e2 h h1 h2 o = (
  ground (arith, h, h1, o, h2, cancels-waiters session e2.pending_prompts),
  ground (arith, h, h1, o),
)
