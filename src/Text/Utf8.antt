-- ===== src/Text/Utf8.antt =====
-- The bytes of a text (`str::as_bytes`), and where a text may be cut (`str::is_char_boundary`).
use Prim.Native.Char.{code}
use holler_server.Prelude.{
  ℕ, ◌+◌, ◌/◌, ◌%◌, Bool, true, ◌&&◌, not, String, List, [], ◌∷◌, ◌++◌, ltb, leb, if◌then◌else◌,
}

unfoldable pub utf8_char : ℕ → List ℕ
utf8_char c =
    if ltb c 0x80
    then c ∷ []
    else if ltb c 0x800
    then (0xC0 + c / 64) ∷ (0x80 + c % 64) ∷ []
    else if ltb c 0x10000
    then (0xE0 + c / 4096) ∷ (0x80 + c / 64 % 64) ∷ (0x80 + c % 64) ∷ []
    else (0xF0 + c / 262144) ∷ (0x80 + c / 4096 % 64) ∷ (0x80 + c / 64 % 64) ∷ (0x80 + c % 64) ∷ []

unfoldable pub as_bytes : String → List ℕ
unfolding utf8_char
as_bytes String.[] = []
as_bytes (String.◌∷◌ c s) = utf8_char (code c) ++ as_bytes s

-- A text may be cut in front of these bytes.
unfoldable pub is_char_boundary : List ℕ → Bool
is_char_boundary [] = true
is_char_boundary (b ∷ bs) = not (leb 0x80 b && ltb b 0xC0)
