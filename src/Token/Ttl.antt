-- ===== src/Token/Ttl.antt =====
-- `parse_ttl` of src/token/mod.rs. A text is the list of its code points, and its length is in bytes.
use holler_server.Prelude.{
  ℕ, zero, suc, ◌+◌, ◌≤◌, ◌^◌, ◌≡◌, refl, String, List, [], ◌∷◌, ◌++◌, Option, none, some,
  if◌then◌else◌, ltb, nat_beq, Option-cases, inl, inr, arith, length,
}
use holler_server.Text.{codes, trim, parse_number}
use holler_server.Text.Utf8.{utf8_char}
use holler_server.Proto.Json.{ℤ, pos, negsuc}
use holler_server.Token.Record.{Result, ok, err, panic}

pub data TtlUnit : Type 0 where
  seconds minutes hours days : TtlUnit

-- A duration, the error InvalidTtl with the trimmed text, or a panic.
pub data Ttl : Type 0 where
  duration : ℕ → Ttl
  invalid : List ℕ → Ttl
  panics : Ttl

-- `str::parse::<i64>`
unfoldable pub parse_i64 : List ℕ → Option ℤ
parse_i64 [] = none
parse_i64 (c ∷ s) =
    if nat_beq c b'-'
    then elim (parse_number (2 ^ 63 + 1) s) [
      | none ↦ none
      | some zero ↦ some (pos 0)
      | some (suc m) ↦ some (negsuc m)
    ]
    else elim (parse_number (2 ^ 63) (if nat_beq c b'+' then s else c ∷ s)) [
      | none ↦ none
      | some n ↦ some (pos n)
    ]

unfoldable pub unit_of : ℕ → Option TtlUnit
unit_of c =
    if nat_beq c b's'
    then some seconds
    else if nat_beq c b'm'
    then some minutes
    else if nat_beq c b'h'
    then some hours
    else if nat_beq c b'd'
    then some days
    else none

unfoldable pub byte_length : List ℕ → ℕ
byte_length [] = 0
byte_length (c ∷ s) = length (utf8_char c) + byte_length s

-- All characters but the last one, and the last one.
unfoldable pub split_last : List ℕ → Option (List ℕ × ℕ)
split_last [] = none
split_last (c ∷ s) = elim (split_last s) [
  | none ↦ some ([], c)
  | some (front, last) ↦ some (c ∷ front, last)
]

split_last-end : (front : List ℕ) (c : ℕ) → split_last (front ++ c ∷ []) ≡ some (front, c)
unfolding split_last
split_last-end [] c = refl
split_last-end (x ∷ front) c = ground (arith, split_last-end front c)

split_last-none : (s : List ℕ) → split_last s ≡ none → s ≡ []
unfolding split_last
split_last-none [] h = refl
split_last-none (c ∷ s) h = ground (arith, h)

split_last-back :
    (s front : List ℕ) (last : ℕ) → split_last s ≡ some (front, last) → s ≡ front ++ last ∷ []
unfolding split_last
split_last-back [] front last h = ground (arith, h)
split_last-back (c ∷ s) front last h = elim (Option-cases (split_last s)) [
  | inl e ↦ ground (arith, e, h, split_last-none s e)
  | inr ((f, x), e) ↦ ground (arith, e, h, split_last-back s f x e)
]

-- The duration of a number of units, which the crate `time` makes; an overflow is a panic there.
module _ (make : TtlUnit → ℕ → Result ℕ) where
  abbrev made : List ℕ → Result ℕ → Ttl
  made s (ok d) = duration d
  made s (err e) = invalid s
  made s panic = panics

  abbrev of_parts : List ℕ → Option ℤ → Option TtlUnit → Ttl
  of_parts s (some (pos n)) (some unit) = made s (make unit n)
  of_parts s _ _ = invalid s

  -- The cut one byte before the end panics inside a character.
  unfoldable pub parse_ttl : String → Ttl
  parse_ttl text =
      let s = trim (codes text) in
      if ltb (byte_length s) 2 then invalid s else elim (split_last s) [
        | none ↦ panics
        | some (front, last) ↦
            if nat_beq (length (utf8_char last)) 1
            then of_parts s (parse_i64 front) (unit_of last)
            else panics
      ]

  made-ok : (s : List ℕ) (r : Result ℕ) (d : ℕ) → made s r ≡ duration d → r ≡ ok d
  made-ok s (ok x) d h = ground (arith, h)
  made-ok s (err e) d h = ground (arith, h)
  made-ok s panic d h = ground (arith, h)

  of_parts-ok :
      (s : List ℕ) (o : Option ℤ) (u : Option TtlUnit) (d : ℕ)
      → of_parts s o u ≡ duration d
      → (n : ℕ) × (unit : TtlUnit) × (o ≡ some (pos n)) × (u ≡ some unit) × (make unit n ≡ ok d)
  of_parts-ok s (some (pos n)) (some unit) d h = (n, unit, refl, refl, made-ok s (make unit n) d h)
  of_parts-ok s (some (pos n)) none d h = absurd (ground (arith, h))
  of_parts-ok s (some (negsuc n)) u d h = absurd (ground (arith, h))
  of_parts-ok s none u d h = absurd (ground (arith, h))

  -- A text is accepted only if, trimmed, it is an integer that fits 64 bits and is not negative,
  -- followed by one of the units s, m, h and d; it stands for this number of the unit.
  pub ttl_accepted :
      (text : String) (d : ℕ)
      → parse_ttl text ≡ duration d
      → (front : List ℕ) × (c n : ℕ) × (unit : TtlUnit) × (trim (codes text) ≡ front ++ c ∷ [])
        × (parse_i64 front ≡ some (pos n))
        × (unit_of c ≡ some unit)
        × (make unit n ≡ ok d)
  unfolding parse_ttl
  ttl_accepted text d h = elim (Option-cases (split_last (trim (codes text)))) [
    | inl e ↦ absurd (ground (arith, e, h))
    | inr ((front, c), e) ↦
        let (n, unit, at_n, at_unit, at_d) =
          of_parts-ok (trim (codes text)) (parse_i64 front) (unit_of c) d (ground (arith, e, h)) in
        (front, c, n, unit, split_last-back (trim (codes text)) front c e, at_n, at_unit, at_d)
  ]

  -- A trimmed text of at least two bytes that does not end in a unit: the function panics if its last
  -- character is not ASCII, and gives the error with the text if it is.
  pub ttl_unit_panics :
      (text : String) (front : List ℕ) (c : ℕ)
      → trim (codes text) ≡ front ++ c ∷ []
      → unit_of c ≡ none
      → 2 ≤ byte_length (trim (codes text))
      → parse_ttl text ≡ (if ltb c 128 then invalid (trim (codes text)) else panics)
  unfolding parse_ttl utf8_char
  ttl_unit_panics text front c h u l =
      let e : split_last (trim (codes text)) ≡ some (front, c) = rw h (split_last-end front c) in
      ground (arith, e, u, l)
