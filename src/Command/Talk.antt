-- ===== src/Command/Talk.antt =====
-- The commands of src/main.rs that talk to a session, `say`, `interrupt` and `answer`: what they print, and
-- the status that the process exits with.
use Prim.Native.String.{◌++◌ as append}
use holler_server.Prelude.{
  ℕ, Bool-cases, suc, ◌*◌, ◌-◌, ◌/◌, ◌%◌, ◌<◌, ◌≤◌, ◌^◌, ◌≡◌, refl, ◌↔◌, ◌⊎◌, inl, inr, String,
  List, [], ◌∷◌, Option, none, some, arith, leb, if◌then◌else◌,
}
use holler_server.Proto.Json.{ℤ, pos, negsuc}
use holler_server.Proto.{ErrorBody}
use holler_server.Token.Store.{or_empty}
use holler_server.Wire.Control.{SayReply, InterruptReply, AnswerReply}
use holler_server.Wire.Control.Client.{ControlOutcome, reached, not_reachable, timed_out}

-- The lines on the standard output, the error if there is one, and the status that the caller of the
-- process sees.
pub record Exit : Type 0 where
  pub lines : List String
  pub error : Option String
  pub status : ℕ

-- `main` prints an error and exits with 1.
abbrev pub fails : String → Exit
fails text = record { lines = []; error = some text; status = 1 }

abbrev pub prints : String → Exit
prints line = record { lines = line ∷ []; error = none; status = 0 }

abbrev pub error_text : ErrorBody → String
error_text e = append e.code (append ": " (or_empty e.message))

abbrev pub no_server : String
no_server = "no live `holler-server serve` process is reachable on this host"

-- `code.clamp(i32::MIN, i32::MAX)`
unfoldable pub clamp : ℤ → ℤ
clamp (pos n) = if leb (2 ^ 31) n then pos (2 ^ 31 - 1) else pos n
clamp (negsuc n) = if leb (2 ^ 31) n then negsuc (2 ^ 31 - 1) else negsuc n

-- `std::process::exit` on Unix: the caller sees the low 8 bits.
unfoldable pub process_exit : ℤ → ℕ
process_exit (pos n) = n % 256
process_exit (negsuc n) = 255 - n % 256

unfoldable pub exit_status : Option ℤ → ℕ
unfolding clamp process_exit
exit_status none = 0
exit_status (some code) = process_exit (clamp code)

-- Each command opens the store first, which may fail with a text.
module _ (quoted : String → String) where
  unfoldable pub run_say : Option String → String → ControlOutcome SayReply → Exit
  unfolding exit_status
  run_say (some e) session outcome = fails e
  run_say none session (reached (SayReply.ok text exit)) = record {
    lines = text ∷ [];
    error = none;
    status = exit_status exit;
  }
  run_say none session (reached SayReply.interrupted) =
      fails "prompt was interrupted before it completed"
  run_say none session (reached (SayReply.err e)) = fails (error_text e)
  run_say none session timed_out = fails (
      append "say to " (
        append (quoted session)
          " timed out waiting for a reply — the session may still be working; try `holler-server say` again or check `holler-server roster`"))
  run_say none session not_reachable = fails no_server

  unfoldable pub run_interrupt : Option String → String → ControlOutcome InterruptReply → Exit
  run_interrupt (some e) session outcome = fails e
  run_interrupt none session (reached InterruptReply.ok) = prints (append "interrupted " session)
  run_interrupt none session (reached InterruptReply.timed_out) = fails (
      append "interrupt sent to " (
        append (quoted session)
          ", but no ack arrived in time — the connection is alive but the cancel may not have landed"))
  run_interrupt none session (reached InterruptReply.disconnected) =
      fails (append "session " (append (quoted session) "'s connection is gone"))
  run_interrupt none session (reached (InterruptReply.err e)) = fails (error_text e)
  run_interrupt none session timed_out = fails (
      append "interrupt to " (
        append (quoted session)
          " timed out waiting for a reply from the server — the session may still be working; try `holler-server status` to check whether the server is still up"))
  run_interrupt none session not_reachable = fails no_server

  unfoldable pub run_answer : Option String → String → ControlOutcome AnswerReply → Exit
  run_answer (some e) session outcome = fails e
  run_answer none session (reached AnswerReply.ok) = prints (append "answered " session)
  run_answer none session (reached AnswerReply.timed_out) = fails (
      append "answer sent to " (
        append (quoted session)
          ", but no ack arrived in time — the connection is alive but the reply may not have landed"))
  run_answer none session (reached AnswerReply.disconnected) =
      fails (append "session " (append (quoted session) "'s connection is gone"))
  run_answer none session (reached (AnswerReply.err e)) = fails (error_text e)
  run_answer none session timed_out = fails (
      append "answer to " (
        append (quoted session)
          " timed out waiting for a reply from the server — the session may still be working; try `holler-server status` to check whether the server is still up"))
  run_answer none session not_reachable = fails no_server

-- A multiple of 256, or a number below those of 32 bits.
abbrev pub SeemsZero : ℤ → Type 0
SeemsZero (pos n) = (q : ℕ) × (n ≡ q * 256) × (n < 2 ^ 31)
SeemsZero (negsuc n) = ((q : ℕ) × (suc n ≡ q * 256)) ⊎ (2 ^ 31 ≤ n)

status-SeemsZero : (code : ℤ) → (exit_status (some code) ≡ 0) ↔ SeemsZero code
unfolding exit_status clamp process_exit
status-SeemsZero (pos n) = elim (Bool-cases (leb (2 ^ 31) n)) [
  | inl e ↦
      (λ h. absurd (ground (arith, h, e)), λ (q, is, small). absurd (ground (arith, e, small)))
  | inr e ↦ (
    λ h. (n / 256, ground (arith, h, e), ground (arith, e)),
    λ (q, is, small). ground (arith, e, is),
  )
]
status-SeemsZero (negsuc n) = elim (Bool-cases (leb (2 ^ 31) n)) [
  | inl e ↦ (λ h. inr (ground (arith, e)), λ h. ground (arith, e))
  | inr e ↦ (
    λ h. inl (suc n / 256, ground (arith, h, e)),
    λ h. elim h [ inl (q, is) ↦ ground (arith, e, is) | inr big ↦ absurd (ground (arith, e, big)) ],
  )
]

module _ (quoted : String → String) where
  -- A turn that a server finished, with no exit code or with one that is seen as 0.
  abbrev pub SeemsFinished : ControlOutcome SayReply → Type 0
  SeemsFinished o =
      (text : String) × (exit : Option ℤ) × (o ≡ reached (SayReply.ok text exit))
      × ((exit ≡ none) ⊎ ((code : ℤ) × (exit ≡ some code) × SeemsZero code))

  status-SeemsFinished :
      (open_error : Option String) (session : String) (o : ControlOutcome SayReply)
      → (run_say quoted open_error session o).status ≡ 0
      → (open_error ≡ none) × SeemsFinished o
  unfolding run_say exit_status
  status-SeemsFinished none session (reached (SayReply.ok text none)) h =
      (refl, (text, none, refl, inl refl))
  status-SeemsFinished none session (reached (SayReply.ok text (some code))) h =
      (refl, (text, some code, refl, inr (code, refl, (status-SeemsZero code).0 h)))
  status-SeemsFinished none session (reached SayReply.interrupted) h = absurd (ground (arith, h))
  status-SeemsFinished none session (reached (SayReply.err e)) h = absurd (ground (arith, h))
  status-SeemsFinished none session timed_out h = absurd (ground (arith, h))
  status-SeemsFinished none session not_reachable h = absurd (ground (arith, h))
  status-SeemsFinished (some e) session o h = absurd (ground (arith, h))

  -- When the caller of `say` sees success, on Unix: the status is 0 exactly if the store opens and a
  -- server answered that the turn is finished, with no exit code, or with a multiple of 256 below
  -- 2 ^ 31, or with a number below -(2 ^ 31). So a turn that was interrupted, refused or not
  -- answered is never taken for a success, and one that ended with 256 is.
  pub say_status :
      (open_error : Option String) (session : String) (o : ControlOutcome SayReply)
      → ((run_say quoted open_error session o).status ≡ 0) ↔ ((open_error ≡ none) × SeemsFinished o)
  unfolding run_say exit_status
  say_status open_error session o = (
    status-SeemsFinished open_error session o,
    λ (opens, (text, exit, is, how)). elim how [
      | inl e ↦ ground (arith, opens, is, e)
      | inr (code, e, zero_seen) ↦
          let status = (status-SeemsZero code).1 zero_seen in rw (opens, is, e, run_say) status
    ],
  )
