-- ===== src/Token/Hex.antt =====
-- `to_hex` and `from_hex` of src/token/mod.rs.
use Prim.Native.Char.{Char, code}
use holler_server.Prelude.{
  ℕ, ◌+◌, ◌-◌, ◌*◌, ◌/◌, ◌%◌, ◌<◌, ◌≡◌, refl, Bool, true, false, not, ◌&&◌, String, List, [], ◌∷◌,
  Option, none, some, arith, nat_beq, ltb, leb, if◌then◌else◌, length, All, holds_below,
  holds_below-at,
}
use holler_server.Text.Utf8.{as_bytes, is_char_boundary}

-- A digit of `format!("{b:02x}")`.
unfoldable hex_digit : ℕ → Char
hex_digit n =
    if nat_beq n 0
    then "0"
    else if nat_beq n 1
    then "1"
    else if nat_beq n 2
    then "2"
    else if nat_beq n 3
    then "3"
    else if nat_beq n 4
    then "4"
    else if nat_beq n 5
    then "5"
    else if nat_beq n 6
    then "6"
    else if nat_beq n 7
    then "7"
    else if nat_beq n 8
    then "8"
    else if nat_beq n 9
    then "9"
    else if nat_beq n 10
    then "a"
    else if nat_beq n 11
    then "b"
    else if nat_beq n 12
    then "c"
    else if nat_beq n 13
    then "d"
    else if nat_beq n 14
    then "e"
    else "f"

unfoldable pub to_hex : List ℕ → String
unfolding hex_digit
to_hex [] = ""
to_hex (b ∷ bs) = String.◌∷◌ (hex_digit (b / 16)) (String.◌∷◌ (hex_digit (b % 16)) (to_hex bs))

-- A digit in base 16, of either case.
unfoldable digit_value : ℕ → Option ℕ
digit_value c =
    if leb b'0' c && leb c b'9'
    then some (c - b'0')
    else if leb b'a' c && leb c b'f'
    then some (c - b'a' + 10)
    else if leb b'A' c && leb c b'F'
    then some (c - b'A' + 10)
    else none

-- `u8::from_str_radix` of a text of two bytes, which may be a sign and one digit.
unfoldable pair_value : ℕ → ℕ → Option ℕ
unfolding digit_value
pair_value a b = if nat_beq a b'+' then digit_value b else elim (digit_value a) [
  | none ↦ none
  | some hi ↦ elim (digit_value b) [ none ↦ none | some lo ↦ some (hi * 16 + lo) ]
]

-- The result of a function that may panic.
pub data Parsed : Type 0 where
  parsed : List ℕ → Parsed
  not_hex : Parsed
  panics : Parsed

abbrev pub prepend : ℕ → Parsed → Parsed
prepend b (parsed bs) = parsed (b ∷ bs)
prepend b not_hex = not_hex
prepend b panics = panics

-- The pairs from the left, up to the first that is no number. A slice `&s[i..i + 2]` that cuts a
-- character panics.
unfoldable pub from_pairs : List ℕ → Parsed
unfolding pair_value
from_pairs [] = parsed []
from_pairs (a ∷ []) = panics
from_pairs (a ∷ b ∷ rest) =
    let later = from_pairs rest in
    let value : Parsed = elim (pair_value a b) [ none ↦ not_hex | some v ↦ prepend v later ] in
    if is_char_boundary (a ∷ []) && is_char_boundary rest then value else panics

unfoldable pub from_hex : String → Parsed
from_hex s =
    let bytes = as_bytes s in if nat_beq (length bytes % 2) 0 then from_pairs bytes else not_hex

abbrev pub IsByte : ℕ → Type 0
IsByte b = b < 256

abbrev reads_back : ℕ → Bool
reads_back n =
    let c = code (hex_digit n) in
    ltb c 0x80
    && not (nat_beq c b'+')
    && (elim (digit_value c) [ none ↦ false | some m ↦ nat_beq m n ])

digits_table : holds_below reads_back 16 ≡ true
unfolding holds_below hex_digit digit_value
digits_table = refl

digit_reads_back :
    (n : ℕ)
    → n < 16
    → (code (hex_digit n) < 0x80)
      × (nat_beq (code (hex_digit n)) b'+' ≡ false)
      × (digit_value (code (hex_digit n)) ≡ some n)
digit_reads_back n h = ground (arith, holds_below-at reads_back n 16 h digits_table)

bytes-to_hex :
    (b : ℕ) (bs : List ℕ)
    → IsByte b
    → as_bytes (to_hex (b ∷ bs))
      ≡ code (hex_digit (b / 16)) ∷ code (hex_digit (b % 16)) ∷ as_bytes (to_hex bs)
unfolding as_bytes to_hex
bytes-to_hex b bs h =
    ground (arith, digit_reads_back (b / 16) (omega arith), digit_reads_back (b % 16) (omega arith))

even-to_hex : (bs : List ℕ) → All IsByte bs → length (as_bytes (to_hex bs)) % 2 ≡ 0
even-to_hex [] h = unfold to_hex as_bytes in refl
even-to_hex (b ∷ bs) h = rw (bytes-to_hex b bs h.0) (omega (arith, even-to_hex bs h.1))

boundary-to_hex : (bs : List ℕ) → All IsByte bs → is_char_boundary (as_bytes (to_hex bs)) ≡ true
unfolding is_char_boundary
boundary-to_hex [] h = unfold to_hex as_bytes in refl
boundary-to_hex (b ∷ bs) h =
    rw (bytes-to_hex b bs h.0) (ground (arith, digit_reads_back (b / 16) (omega arith)))

pair-digits :
    (b : ℕ) → IsByte b → pair_value (code (hex_digit (b / 16))) (code (hex_digit (b % 16))) ≡ some b
unfolding pair_value
pair-digits b h =
    ground (arith, digit_reads_back (b / 16) (omega arith), digit_reads_back (b % 16) (omega arith))

from_pairs-cons :
    (b : ℕ) (bs : List ℕ)
    → IsByte b
    → All IsByte bs
    → from_pairs (as_bytes (to_hex bs)) ≡ parsed bs
    → from_pairs (as_bytes (to_hex (b ∷ bs))) ≡ parsed (b ∷ bs)
from_pairs-cons b bs h hs ih = rw (bytes-to_hex b bs h) (
    unfold from_pairs is_char_boundary in
    ground (arith, digit_reads_back (b / 16) (omega arith), boundary-to_hex bs hs, pair-digits b h))

from_pairs-to_hex : (bs : List ℕ) → All IsByte bs → from_pairs (as_bytes (to_hex bs)) ≡ parsed bs
from_pairs-to_hex [] h = unfold to_hex as_bytes from_pairs in refl
from_pairs-to_hex (b ∷ bs) h = from_pairs-cons b bs h.0 h.1 (from_pairs-to_hex bs h.1)

-- Decoding what `to_hex` printed gives back the bytes, and never panics.
pub from_hex-to_hex : (bs : List ℕ) → All IsByte bs → from_hex (to_hex bs) ≡ parsed bs
unfolding from_hex
from_hex-to_hex bs h = rw (even-to_hex bs h) (from_pairs-to_hex bs h)
