-- ===== src/Debug/Redact.antt =====
-- What src/debug.rs hides: `redact`, `redact_hlr_tokens` and `redact_secret`. A text is the list of its code points.
use holler_server.Prelude.{
  ℕ, zero, suc, ◌+◌, ◌-◌, Bool, true, false, ◌&&◌, ◌||◌, String, List, [], ◌∷◌, ◌++◌, Option, none,
  some, leb, nat_beq, if◌then◌else◌, length,
}
use holler_server.Text.{codes}

abbrev pub redacted : List ℕ
redacted = codes "[redacted]"

abbrev pub hlr : List ℕ
hlr = codes "hlr_"

-- ASCII letters and digits, `-` and `_`.
abbrev pub is_token : ℕ → Bool
is_token c =
    leb b'0' c && leb c b'9'
    || leb b'A' c && leb c b'Z'
    || leb b'a' c && leb c b'z'
    || nat_beq c b'-'
    || nat_beq c b'_'

-- What follows a prefix.
abbrev pub strip_prefix : List ℕ → List ℕ → Option (List ℕ)
strip_prefix [] s = some s
strip_prefix (p ∷ ps) [] = none
strip_prefix (p ∷ ps) (c ∷ s) = let rest = strip_prefix ps s in if nat_beq p c then rest else none

abbrev before_found : ℕ → Option (List ℕ × List ℕ) → Option (List ℕ × List ℕ)
before_found c none = none
before_found c (some (before, after)) = some (c ∷ before, after)

-- `find`: what stands before and after the first occurrence of `hlr_`.
unfoldable pub find_hlr : List ℕ → Option (List ℕ × List ℕ)
find_hlr [] = none
find_hlr (c ∷ s) =
    let later = before_found c (find_hlr s) in
    elim (strip_prefix hlr (c ∷ s)) [ some after ↦ some ([], after) | none ↦ later ]

-- The run of token characters at the front, and what follows it.
unfoldable pub token_len : List ℕ → ℕ
token_len [] = 0
token_len (c ∷ s) = let n = token_len s in if is_token c then suc n else 0

unfoldable pub after_token : List ℕ → List ℕ
after_token [] = []
after_token (c ∷ s) = let rest = after_token s in if is_token c then rest else c ∷ s

abbrev pub prepend : List ℕ → Option (List ℕ) → Option (List ℕ)
prepend xs none = none
prepend xs (some ys) = some (xs ++ ys)

-- What the loop writes for an occurrence.
abbrev pub shown_for : List ℕ → List ℕ
shown_for after = if nat_beq (token_len after) 0 then hlr else redacted

-- The loop, with a bound on its rounds.
unfoldable pub redact_loop : ℕ → List ℕ → Option (List ℕ)
unfolding find_hlr token_len after_token
redact_loop zero rest = none
redact_loop (suc rounds) rest = elim (find_hlr rest) [
  | none ↦ some rest
  | some (before, after) ↦
      prepend before (prepend (shown_for after) (redact_loop rounds (after_token after)))
]

-- One round more than there are characters.
unfoldable pub redact_hlr_tokens : List ℕ → Option (List ℕ)
unfolding redact_loop
redact_hlr_tokens text = redact_loop (suc (length text)) text

-- ASCII letters in lower case.
abbrev to_lower : ℕ → ℕ
to_lower c = if leb b'A' c && leb c b'Z' then c + 32 else c

abbrev pub to_ascii_lowercase : List ℕ → List ℕ
to_ascii_lowercase [] = []
to_ascii_lowercase (c ∷ s) = to_lower c ∷ to_ascii_lowercase s

abbrev pub same_text : List ℕ → List ℕ → Bool
same_text [] [] = true
same_text (a ∷ xs) (b ∷ ys) = let rest = same_text xs ys in if nat_beq a b then rest else false
same_text _ _ = false

abbrev never_print_fields : List String
never_print_fields =
    "join secret" ∷ "join_secret" ∷ "client credential" ∷ "client_credential" ∷ "connect ticket"
    ∷ "connect_ticket" ∷ "authorization" ∷ "pepper" ∷ []

abbrev among : List String → List ℕ → Bool
among [] name = false
among (x ∷ xs) name = let later = among xs name in if same_text (codes x) name then true else later

unfoldable pub redact : List ℕ → List ℕ → List ℕ
redact field_name value =
    if among never_print_fields (to_ascii_lowercase field_name) then redacted else value

-- `replace`: each occurrence from the front, where as many characters are passed over as an occurrence
-- has left.
unfoldable pub replace : List ℕ → ℕ → List ℕ → List ℕ
replace secret left [] = []
replace secret (suc left) (c ∷ s) = replace secret left s
replace secret zero (c ∷ s) =
    let passed = replace secret (length secret - 1) s in
    let kept = replace secret zero s in
    elim (strip_prefix secret (c ∷ s)) [ none ↦ c ∷ kept | some after ↦ redacted ++ passed ]

unfoldable pub redact_secret : List ℕ → List ℕ → List ℕ
unfolding replace
redact_secret text [] = text
redact_secret text (c ∷ secret) = replace (c ∷ secret) 0 text
