-- ===== src/Wire/Registry/Tests.antt =====
-- Tests of src/wire/registry.rs: the theorems at two live connections.
use holler_server.Prelude.{◌≡◌, refl, true, [], ◌∷◌, none, some, string_eq}
use holler_server.Prelude.Dict.{get, alter, insert}
use holler_server.Proto.{ReplyBody}
use holler_server.Wire.Frames.{new_interrupt_envelope}
use holler_server.Wire.Registry.{
  Registry, Entry, sends, wakes_prompt, PromptEvent, new_entry, resolve_target, find_target,
}
use holler_server.Wire.Registry.Resolve.{waiter_in}
use holler_server.Wire.Registry.Waiting.{
  World, prompt, interrupt, InterruptOutcome, received, timeout,
}
use holler_server.Wire.Registry.Answers.{prompt_leaves_no_waiter}
use holler_server.Wire.Registry.Prompts.{interrupt_waited, interrupt_cancels_session}

-- A connection with a prompt in two sessions.
abbrev first : Entry
first = record (new_entry "cli_1" "alpha" 1) {
  pending_prompts = ("p1", ("main", 10)) ∷ ("p2", ("side", 11)) ∷ [];
}

abbrev two : Registry
two = record {
  entries = ("tok_1", first) ∷ ("tok_2", new_entry "cli_2" "beta" 2) ∷ [];
  confirmed_harnesses = ("pi", "beta" ∷ "alpha" ∷ []) ∷ ("claude", "alpha" ∷ []) ∷ [];
}

-- Nothing else happens.
abbrev quiet : World
quiet = record {
  at_register = λ g. g;
  at_send = λ g. g;
  at_wait = λ g. g;
  at_check = λ g. g;
  is_open = true;
}

abbrev last : ReplyBody
last = record { session = "main"; text = none; chunks = "c" ∷ []; done = true; exit = none }

first-live : get two.entries "tok_1" ≡ some first
unfolding get
first-live = refl

prompt_leaves_no_waiter_example :
    waiter_in
      (prompt quiet two "tok_2" "p3" "main" "hi" none "t" 12 (PromptEvent.reply last ∷ [])).0
      "tok_2"
      (λ (e : Entry). e.pending_prompts)
      "p3"
    ≡ none
prompt_leaves_no_waiter_example =
    prompt_leaves_no_waiter quiet two "tok_2" "p3" "main" "hi" none "t" 12
      (PromptEvent.reply last ∷ [])

still-live :
    get (interrupt_waited quiet two "tok_1" "i1" 30).entries "tok_1"
    ≡ some (record first { pending_interrupts = ("i1", 30) ∷ [] })
unfolding get alter insert
still-live = refl

interrupt_cancels_session_example :
    (interrupt quiet two "tok_1" "i1" "main" "t" 30 (received tt) ≡ (
      interrupt_waited quiet two "tok_1" "i1" 30,
      InterruptOutcome.acked,
      sends 1 (new_interrupt_envelope "t" "i1" "main") ∷ wakes_prompt 10 PromptEvent.cancelled ∷ [],
    ))
    × ((interrupt quiet two "tok_1" "i1" "main" "t" 30 timeout).2
        ≡ sends 1 (new_interrupt_envelope "t" "i1" "main") ∷ [])
interrupt_cancels_session_example =
    interrupt_cancels_session quiet two "tok_1" "i1" "main" "t" 30 first first
      (record first { pending_interrupts = ("i1", 30) ∷ [] }) first-live first-live still-live refl

by-host : resolve_target two "alpha" ≡ some "tok_1"
unfolding resolve_target get find_target
by-host = refl
