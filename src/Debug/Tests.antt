-- ===== src/Debug/Tests.antt =====
-- The theorems about src/debug.rs at a line with a secret in it.
use holler_server.Prelude.{ℕ, ◌≡◌, refl, false, List, [], ◌∷◌, some}
use holler_server.Text.{codes}
use holler_server.Debug.Redact.{
  redact_hlr_tokens, redact_loop, find_hlr, token_len, after_token, redact, redact_secret, replace,
}
use holler_server.Debug.Scrubbed.{Scrubbed}
use holler_server.Debug.Hidden.{has_token, redact_hlr_tokens_hides}
use holler_server.Debug.{DebugLevel, DebugConfig, debug, Direction, Event, new, Detail, build, json}
use holler_server.Debug.Levels.{frame_typed, field_typed, IsScrubbed, built-IsScrubbed}

-- The second `hlr_` has no token.
abbrev leaking : List ℕ
leaking = codes "a hlr_x9-_ and hlr_."

scrubbed : redact_hlr_tokens leaking ≡ some (codes "a [redacted] and hlr_.")
unfolding redact_hlr_tokens redact_loop find_hlr token_len after_token
scrubbed = refl

peppered : redact (codes "Pepper") leaking ≡ codes "[redacted]"
unfolding redact
peppered = refl

redact_hlr_tokens_hides_example :
    (out : List ℕ) × (redact_hlr_tokens leaking ≡ some out)
    × Scrubbed leaking out
    × (has_token out ≡ false)
    × ((has_token leaking ≡ false) → out ≡ leaking)
    × (redact_hlr_tokens out ≡ some out)
redact_hlr_tokens_hides_example = redact_hlr_tokens_hides leaking

abbrev noisy : DebugConfig
noisy = record { level = DebugLevel.noisy; format = json }

abbrev details : List Detail
details = Detail.field (codes "k") (codes "v") ∷ Detail.frame_of (some leaking) ∷ []

abbrev empty : Event
empty = new noisy debug Direction.out (codes "wire") (codes "ping")

built-IsScrubbed_example :
    ((build empty details).cfg ≡ noisy) × IsScrubbed details (build empty details)
built-IsScrubbed_example =
    built-IsScrubbed noisy debug Direction.out (codes "wire") (codes "ping") details
      (field_typed, (frame_typed, tt))

scrubs_twice : redact_secret (codes "a-ss-sss") (codes "ss") ≡ codes "a-[redacted]-[redacted]s"
unfolding redact_secret replace
scrubs_twice = refl
