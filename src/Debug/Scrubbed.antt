-- ===== src/Debug/Scrubbed.antt =====
-- What the scrubbing of src/debug.rs is to make of a text, described apart from its loop: the text is taken
-- apart at the prefixes `hlr_`, each with the whole run of token characters behind it.
use holler_server.Prelude.{
  ℕ, zero, suc, ◌≤◌, ◌≡◌, ◌≢◌, subst, refl, sym, ap, ◌∙◌, true, false, List, [], ◌∷◌, ◌++◌, none,
  some, arith, Option-cases, Bool-cases, inl, inr, ◌⊎◌, All,
}
use holler_server.Debug.Redact.{
  redacted, hlr, is_token, strip_prefix, find_hlr, token_len, after_token, shown_for, redact_loop,
}

-- An ASCII letter or digit, `-` or `_`.
abbrev IsTokenChar : ℕ → Type 0
IsTokenChar c =
    ((b'0' ≤ c) × (c ≤ b'9'))
    ⊎ ((b'A' ≤ c) × (c ≤ b'Z'))
    ⊎ ((b'a' ≤ c) × (c ≤ b'z'))
    ⊎ (c ≡ b'-')
    ⊎ (c ≡ b'_')

-- The prefix stands somewhere in a text.
abbrev Occurs : List ℕ → Type 0
Occurs s = (before : List ℕ) × (after : List ℕ) × (s ≡ before ++ (hlr ++ after))

abbrev StartsToken : List ℕ → Type 0
StartsToken [] = ⊥
StartsToken (c ∷ s) = IsTokenChar c

-- A prefix with a run behind it is replaced as a whole, and one without is kept.
abbrev in_place_of : List ℕ → List ℕ
in_place_of [] = hlr
in_place_of (c ∷ run) = redacted

pub data Scrubbed : List ℕ → List ℕ → Type 0 where
  plain : {text out : List ℕ} → ¬ Occurs text → out ≡ text → Scrubbed text out
  cut :
      {text out : List ℕ} (before run after rest : List ℕ)
      → text ≡ before ++ (hlr ++ (run ++ after))
      → ¬ Occurs before
      → All IsTokenChar run
      → ¬ StartsToken after
      → out ≡ before ++ (in_place_of run ++ rest)
      → Scrubbed after rest
      → Scrubbed text out

token-IsTokenChar : (c : ℕ) → is_token c ≡ true → IsTokenChar c
token-IsTokenChar c h = ground (arith, h)

token_not : (c : ℕ) → is_token c ≡ false → ¬ IsTokenChar c
token_not c h t = ground (arith, h, t)

strip-append : (after : List ℕ) → strip_prefix hlr (hlr ++ after) ≡ some after
strip-append after = refl

finds : (before after : List ℕ) → find_hlr (before ++ (hlr ++ after)) ≢ none
unfolding find_hlr
finds [] after h = ground (arith, h)
finds (c ∷ before) after h = elim (Option-cases (strip_prefix hlr (c ∷ before ++ (hlr ++ after)))) [
  | inl e ↦ elim (Option-cases (find_hlr (before ++ (hlr ++ after)))) [
    | inl f ↦ finds before after f
    | inr (p, f) ↦ ground (arith, h, e, f)
  ]
  | inr (a, e) ↦ ground (arith, h, e)
]

none-plain : (s : List ℕ) → find_hlr s ≡ none → ¬ Occurs s
none-plain s h (before, after, e) = finds before after (sym (ap find_hlr e) ∙ h)

strip-longer :
    (s after more : List ℕ) → strip_prefix hlr s ≡ some after → strip_prefix hlr (s ++ more) ≢ none
strip-longer [] after more h k = ground (arith, h)
strip-longer (a ∷ []) after more h k = ground (arith, h)
strip-longer (a ∷ b ∷ []) after more h k = ground (arith, h)
strip-longer (a ∷ b ∷ c ∷ []) after more h k = ground (arith, h)
strip-longer (a ∷ b ∷ c ∷ d ∷ s) after more h k = ground (arith, h, k)

tails : (a b : ℕ) (s t : List ℕ) → a ∷ s ≡ b ∷ t → s ≡ t
tails a b s t e = ground (arith, e)

stripped : (s after : List ℕ) → strip_prefix hlr s ≡ some after → s ≡ hlr ++ after
stripped [] after h = absurd (ground (arith, h))
stripped (a ∷ []) after h = absurd (ground (arith, h))
stripped (a ∷ b ∷ []) after h = absurd (ground (arith, h))
stripped (a ∷ b ∷ c ∷ []) after h = absurd (ground (arith, h))
stripped (a ∷ b ∷ c ∷ d ∷ s) after h = ground (arith, h)

-- What `find_hlr` takes apart.
pub find-split :
    (s before after : List ℕ) → find_hlr s ≡ some (before, after) → s ≡ before ++ (hlr ++ after)
unfolding find_hlr
find-split [] before after h = absurd (ground (arith, h))
find-split (c ∷ s) before after h = elim (Option-cases (strip_prefix hlr (c ∷ s))) [
  | inl e ↦ elim (Option-cases (find_hlr s)) [
    | inl f ↦ absurd (ground (arith, h, e, f))
    | inr ((b, a), f) ↦ ground (arith, h, e, f, find-split s b a f)
  ]
  | inr (a, e) ↦ ground (arith, h, e, stripped (c ∷ s) a e)
]

-- No occurrence stands before the first.
before-plain : (s before after : List ℕ) → find_hlr s ≡ some (before, after) → ¬ Occurs before
unfolding find_hlr
before-plain [] before after h o = absurd (ground (arith, h))
before-plain (c ∷ s) before after h (p, q, e) = elim (Option-cases (strip_prefix hlr (c ∷ s))) [
  | inr (a, f) ↦
      let empty : before ≡ [] = ground (arith, h, f) in absurd (empty_no p q (sym empty ∙ e))
  | inl f ↦ elim (Option-cases (find_hlr s)) [
    | inl g ↦ absurd (ground (arith, h, f, g))
    | inr ((b, a), g) ↦
        let shape : before ≡ c ∷ b = ground (arith, h, f, g) in
        let text : s ≡ b ++ (hlr ++ a) = find-split s b a g in
        inside c s b a p q text f (sym shape ∙ e) (before-plain s b a g)
  ]
]
  where
    empty_no : (p q : List ℕ) → [] ≢ p ++ (hlr ++ q)
    empty_no [] q e = ground (arith, e)
    empty_no (x ∷ p) q e = ground (arith, e)

    inside :
        (c : ℕ) (s b a p q : List ℕ)
        → s ≡ b ++ (hlr ++ a)
        → strip_prefix hlr (c ∷ s) ≡ none
        → c ∷ b ≡ p ++ (hlr ++ q)
        → ¬ Occurs b
        → ⊥
    inside c s b a [] q text f e none_in =
        let starts : strip_prefix hlr (c ∷ b) ≡ some q = ap (strip_prefix hlr) e in
        strip-longer (c ∷ b) q (hlr ++ a) starts (ap (λ x. strip_prefix hlr (c ∷ x)) (sym text) ∙ f)
    inside c s b a (x ∷ p) q text f e none_in = none_in (p, q, tails c x b (p ++ (hlr ++ q)) e)

-- The run behind a prefix, and what follows it.
record Run (s : List ℕ) : Type 0 where
  run : List ℕ
  text : s ≡ run ++ after_token s
  tokens : All IsTokenChar run
  shown : shown_for s ≡ in_place_of run

taken_apart : (s : List ℕ) → Run s
unfolding after_token token_len
taken_apart [] = record { run = []; text = refl; tokens = tt; shown = refl }
taken_apart (c ∷ s) = elim (Bool-cases (is_token c)) [
  | inl e ↦
      let r = taken_apart s in
      record {
        run = c ∷ r.run;
        text = ground (arith, e, r.text);
        tokens = (token-IsTokenChar c e, r.tokens);
        shown = ground (arith, e);
      }
  | inr e ↦ record { run = []; text = ground (arith, e); tokens = tt; shown = ground (arith, e) }
]

after_token-stops : (s : List ℕ) → ¬ StartsToken (after_token s)
unfolding after_token
after_token-stops [] t = t
after_token-stops (c ∷ s) t = elim (Bool-cases (is_token c)) [
  | inl e ↦
      let is : after_token (c ∷ s) ≡ after_token s = ground (arith, e) in
      after_token-stops s (subst StartsToken is t)
  | inr e ↦
      let is : after_token (c ∷ s) ≡ c ∷ s = ground (arith, e) in
      token_not c e (subst StartsToken is t)
]

-- What the loop makes is what it is to make.
pub loop-Scrubbed :
    (rounds : ℕ) (rest out : List ℕ) → redact_loop rounds rest ≡ some out → Scrubbed rest out
unfolding redact_loop
loop-Scrubbed zero rest out h = absurd (ground (arith, h))
loop-Scrubbed (suc rounds) rest out h = elim (Option-cases (find_hlr rest)) [
  | inl f ↦ plain (none-plain rest f) (ground (arith, h, f))
  | inr ((before, after), f) ↦ elim (Option-cases (redact_loop rounds (after_token after))) [
    | inl g ↦ absurd (ground (arith, h, f, g))
    | inr (tail, g) ↦
        let r = taken_apart after in
        let made : out ≡ before ++ (shown_for after ++ tail) = ground (arith, h, f, g) in
        cut before r.run (after_token after) tail
          (find-split rest before after f ∙ ap (λ x. before ++ (hlr ++ x)) r.text)
          (before-plain rest before after f) r.tokens (after_token-stops after)
          (made ∙ ap (λ x. before ++ (x ++ tail)) r.shown)
          (loop-Scrubbed rounds (after_token after) tail g)
  ]
]
