-- ===== src/Text.antt =====
-- What the program uses of the standard library's text: a text that it takes apart is the list of
-- its code points. Code: `str::trim` and `str::parse` of an unsigned number, as src/wire/roster.rs,
-- src/wire/connection.rs and src/token/mod.rs call them; the order of texts by which rows are sorted.
pub mod Ordered
pub mod Utf8
use Prim.Native.Char.{code}
use mathlib.Core.List.{reverse}
use holler_server.Prelude.{
  ℕ, ◌+◌, ◌-◌, ◌*◌, Bool, ◌&&◌, ◌||◌, String, List, [], ◌∷◌, Option, none, some, ltb, leb, nat_beq,
  if◌then◌else◌,
}

abbrev pub codes : String → List ℕ
codes String.[] = []
codes (String.◌∷◌ c s) = code c ∷ codes s

-- char::is_whitespace: the Unicode property White_Space.
unfoldable pub is_whitespace : ℕ → Bool
is_whitespace c =
    leb 9 c && leb c 13
    || nat_beq c 32
    || nat_beq c 0x85
    || nat_beq c 0xA0
    || nat_beq c 0x1680
    || leb 0x2000 c && leb c 0x200A
    || leb 0x2028 c && leb c 0x2029
    || nat_beq c 0x202F
    || nat_beq c 0x205F
    || nat_beq c 0x3000

unfoldable pub trim_start : List ℕ → List ℕ
unfolding is_whitespace
trim_start [] = []
trim_start (c ∷ s) = if is_whitespace c then trim_start s else c ∷ s

unfoldable pub trim : List ℕ → List ℕ
unfolding trim_start
trim s = reverse (trim_start (reverse (trim_start s)))

-- The digits of a number below `limit`, after those read so far.
unfoldable pub parse_digits : ℕ → ℕ → List ℕ → Option ℕ
parse_digits limit n [] = some n
parse_digits limit n (c ∷ s) =
    let m = n * 10 + (c - b'0') in
    let rest = parse_digits limit m s in
    if leb b'0' c && leb c b'9' && ltb m limit then rest else none

-- At least one digit.
unfoldable pub parse_number : ℕ → List ℕ → Option ℕ
unfolding parse_digits
parse_number limit [] = none
parse_number limit (c ∷ s) = parse_digits limit 0 (c ∷ s)

-- `s.parse::<uN>()`, for 2 ^ N the limit: one `+` may stand in front.
unfoldable pub parse_unsigned : ℕ → List ℕ → Option ℕ
unfolding parse_number
parse_unsigned limit [] = none
parse_unsigned limit (c ∷ s) =
    if nat_beq c b'+' then parse_number limit s else parse_number limit (c ∷ s)
