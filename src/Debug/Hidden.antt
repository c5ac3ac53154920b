-- ===== src/Debug/Hidden.antt =====
-- No token gets through `redact_hlr_tokens` of src/debug.rs.
use holler_server.Prelude.{
  ℕ, zero, suc, ◌≤◌, ◌<◌, ◌≡◌, refl, sym, ap, ◌∙◌, Bool, true, false, List, [], ◌∷◌, ◌++◌, Option,
  none, some, arith, nat_beq, if◌then◌else◌, length, length-append, Option-cases, Bool-cases, inl,
  inr,
}
use holler_server.Debug.Scrubbed.{Scrubbed, find-split, loop-Scrubbed}
use holler_server.Debug.Redact.{
  redacted, hlr, is_token, strip_prefix, find_hlr, token_len, after_token, shown_for, redact_loop,
  redact_hlr_tokens,
}

-- A text that starts with a token character.
abbrev starts_token : List ℕ → Bool
starts_token [] = false
starts_token (c ∷ s) = is_token c

abbrev secret_here : Option (List ℕ) → Bool
secret_here none = false
secret_here (some after) = starts_token after

-- Whether `hlr_` and then a token character stand anywhere in a text.
unfoldable pub has_token : List ℕ → Bool
has_token [] = false
has_token (c ∷ s) =
    let later = has_token s in if secret_here (strip_prefix hlr (c ∷ s)) then true else later

-- A text without the prefix has no token.
none-has_token : (s : List ℕ) → find_hlr s ≡ none → has_token s ≡ false
unfolding find_hlr has_token
none-has_token [] h = refl
none-has_token (c ∷ s) h = elim (Option-cases (strip_prefix hlr (c ∷ s))) [
  | inl e ↦ elim (Option-cases (find_hlr s)) [
    | inl f ↦ ground (arith, h, e, f, none-has_token s f)
    | inr (p, f) ↦ absurd (ground (arith, h, e, f))
  ]
  | inr (after, e) ↦ absurd (ground (arith, h, e))
]

-- No occurrence begins before the first, whatever stands in the place of it.
bracket-crosses :
    (c : ℕ) (before after rest : List ℕ)
    → strip_prefix hlr (c ∷ before ++ (hlr ++ after)) ≡ none
    → secret_here (strip_prefix hlr (c ∷ before ++ b'[' ∷ rest)) ≡ false
bracket-crosses c [] after rest h = ground arith
bracket-crosses c (x ∷ []) after rest h = ground arith
bracket-crosses c (x ∷ y ∷ []) after rest h = ground arith
bracket-crosses c (x ∷ y ∷ z ∷ before) after rest h = ground (arith, h)

prefix-crosses :
    (c : ℕ) (before after rest : List ℕ)
    → strip_prefix hlr (c ∷ before ++ (hlr ++ after)) ≡ none
    → secret_here (strip_prefix hlr (c ∷ before ++ (hlr ++ rest))) ≡ false
prefix-crosses c [] after rest h = ground arith
prefix-crosses c (x ∷ []) after rest h = ground arith
prefix-crosses c (x ∷ y ∷ []) after rest h = ground arith
prefix-crosses c (x ∷ y ∷ z ∷ before) after rest h = ground (arith, h)

has_token-bracket :
    (s before after rest : List ℕ)
    → find_hlr s ≡ some (before, after)
    → has_token (before ++ b'[' ∷ rest) ≡ has_token (b'[' ∷ rest)
unfolding find_hlr has_token
has_token-bracket [] before after rest h = absurd (ground (arith, h))
has_token-bracket (c ∷ s) before after rest h = elim (Option-cases (strip_prefix hlr (c ∷ s))) [
  | inl e ↦ elim (Option-cases (find_hlr s)) [
    | inl f ↦ absurd (ground (arith, h, e, f))
    | inr ((b, a), f) ↦
        let same = find-split s b a f in
        let cross = bracket-crosses c b a rest (rw (sym same) e) in
        let shape : before ≡ c ∷ b = ground (arith, h, e, f) in
        rw shape (ground (arith, cross, has_token-bracket s b a rest f))
  ]
  | inr (a, e) ↦ let shape : before ≡ [] = ground (arith, h, e) in rw shape refl
]

has_token-prefix :
    (s before after rest : List ℕ)
    → find_hlr s ≡ some (before, after)
    → has_token (before ++ (hlr ++ rest)) ≡ has_token (hlr ++ rest)
unfolding find_hlr has_token
has_token-prefix [] before after rest h = absurd (ground (arith, h))
has_token-prefix (c ∷ s) before after rest h = elim (Option-cases (strip_prefix hlr (c ∷ s))) [
  | inl e ↦ elim (Option-cases (find_hlr s)) [
    | inl f ↦ absurd (ground (arith, h, e, f))
    | inr ((b, a), f) ↦
        let same = find-split s b a f in
        let cross = prefix-crosses c b a rest (rw (sym same) e) in
        let shape : before ≡ c ∷ b = ground (arith, h, e, f) in
        rw shape (ground (arith, cross, has_token-prefix s b a rest f))
  ]
  | inr (a, e) ↦ let shape : before ≡ [] = ground (arith, h, e) in rw shape refl
]

bracketed-has_token : (rest : List ℕ) → has_token (redacted ++ rest) ≡ has_token rest
unfolding has_token
bracketed-has_token rest = ground arith

prefixed-has_token :
    (rest : List ℕ) → has_token (hlr ++ rest) ≡ (if starts_token rest then true else has_token rest)
unfolding has_token
prefixed-has_token rest = ground arith

after_token-length : (s : List ℕ) → length (after_token s) ≤ length s
unfolding after_token
after_token-length [] = omega arith
after_token-length (c ∷ s) = ground (arith, after_token-length s)

after_token-starts : (s : List ℕ) → starts_token (after_token s) ≡ false
unfolding after_token
after_token-starts [] = refl
after_token-starts (c ∷ s) = ground (arith, after_token-starts s)

no_run : (s : List ℕ) → token_len s ≡ 0 → (after_token s ≡ s) × (starts_token s ≡ false)
unfolding token_len after_token
no_run [] h = (refl, refl)
no_run (c ∷ s) h = ground (arith, h)

-- What the loop promises of its output.
pub record IsHidden (text out : List ℕ) : Type 0 where
  pub hidden : has_token out ≡ false
  pub start : starts_token text ≡ false → starts_token out ≡ false
  pub kept : has_token text ≡ false → out ≡ text

shorter : (s before after : List ℕ) → find_hlr s ≡ some (before, after) → length after < length s
shorter s before after h =
    let e = find-split s before after h in
    let n = length-append before (hlr ++ after) in rw e (omega (arith, n))

same-start :
    (before after rest : List ℕ)
    → starts_token (before ++ (hlr ++ after)) ≡ false
    → starts_token (before ++ rest) ≡ false
same-start [] after rest h = absurd (ground (arith, h))
same-start (c ∷ before) after rest h = h

run_starts : (s : List ℕ) → nat_beq (token_len s) 0 ≡ false → starts_token s ≡ true
unfolding token_len
run_starts [] h = absurd (ground (arith, h))
run_starts (c ∷ s) h = ground (arith, h)

-- A text without a token has none behind its first prefix.
harmless :
    (rest before after : List ℕ)
    → find_hlr rest ≡ some (before, after)
    → has_token rest ≡ false
    → (starts_token after ≡ false) × (has_token after ≡ false)
harmless rest before after h none_there =
    let e : has_token (before ++ (hlr ++ after)) ≡ false =
      sym (ap has_token (find-split rest before after h)) ∙ none_there in
    let p = has_token-prefix rest before after after h in
    let q = prefixed-has_token after in (ground (arith, e, p, q), ground (arith, e, p, q))

-- One round, from the rounds that follow it.
round-IsHidden :
    (rest before after out : List ℕ)
    → find_hlr rest ≡ some (before, after)
    → IsHidden (after_token after) out
    → IsHidden rest (before ++ (shown_for after ++ out))
round-IsHidden rest before after out h i =
    let split = find-split rest before after h in
    let starts = i.start (after_token-starts after) in
    let start = λ (x : List ℕ) (e : starts_token rest ≡ false).
      same-start before after x (sym (ap starts_token split) ∙ e) in
    elim (Bool-cases (nat_beq (token_len after) 0)) [
      | inl e ↦
          let (same, plain) = no_run after (ground (arith, e)) in
          let out_is : shown_for after ≡ hlr = ground (arith, e) in
          rw out_is (record {
            hidden = ground (
              arith,
              has_token-prefix rest before after out h,
              prefixed-has_token out,
              starts,
              i.hidden,
            );
            start = start (hlr ++ out);
            kept = λ k.
                let clean = (harmless rest before after h k).1 in
                ap (λ x. before ++ (hlr ++ x)) (i.kept (rw same clean) ∙ same) ∙ sym split;
          })
      | inr e ↦
          let out_is : shown_for after ≡ redacted = ground (arith, e) in
          rw out_is (record {
            hidden = has_token-bracket rest before after _ h ∙ bracketed-has_token out ∙ i.hidden;
            start = start (redacted ++ out);
            kept = λ k.
                absurd (ground (arith, run_starts after e, (harmless rest before after h k).0));
          })
    ]

loop-IsHidden :
    (rounds : ℕ) (rest : List ℕ)
    → length rest < rounds
    → (out : List ℕ) × (redact_loop rounds rest ≡ some out) × IsHidden rest out
unfolding redact_loop
loop-IsHidden zero rest lt = absurd (omega (arith, lt))
loop-IsHidden (suc rounds) rest lt = elim (Option-cases (find_hlr rest)) [
  | inl h ↦ (
    rest,
    ground (arith, h),
    record { hidden = none-has_token rest h; start = λ e. e; kept = λ e. refl },
  )
  | inr ((before, after), h) ↦
      let less = shorter rest before after h in
      let fewer = after_token-length after in
      let (out, done, i) =
        loop-IsHidden rounds (after_token after) (omega (arith, lt, less, fewer)) in
      (
        before ++ (shown_for after ++ out),
        ground (arith, h, done),
        round-IsHidden rest before after out h i,
      )
]

-- The scrubbing ends, for every text, and replaces every token as a whole: each `hlr_`, from the front, is
-- replaced together with the longest run of ASCII letters, digits, `-` and `_` behind it, one
-- without such a run is kept, and all else is left as it is. So nowhere in the output does a token
-- character follow `hlr_`, a text in which this is so already is left as it is, and scrubbing
-- twice is scrubbing once.
pub redact_hlr_tokens_hides :
    (text : List ℕ)
    → (out : List ℕ) × (redact_hlr_tokens text ≡ some out)
      × Scrubbed text out
      × (has_token out ≡ false)
      × ((has_token text ≡ false) → out ≡ text)
      × (redact_hlr_tokens out ≡ some out)
unfolding redact_hlr_tokens
redact_hlr_tokens_hides text =
    let (out, done, i) = loop-IsHidden (suc (length text)) text (omega arith) in
    let (again, twice, j) = loop-IsHidden (suc (length out)) out (omega arith) in
    (
      out,
      done,
      loop-Scrubbed (suc (length text)) text out done,
      i.hidden,
      i.kept,
      twice ∙ ap some (j.kept i.hidden),
    )
