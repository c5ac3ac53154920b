-- ===== src/Command/Table.antt =====
-- The tables of src/main.rs: `print_table` and `print_roster_table`. A cell is a text, as the list of its
-- code points; its length is in bytes, and a column is padded in characters.
use mathlib.Core.List.{reverse}
use holler_server.Prelude.{
  ℕ, ◌/◌, String, List, [], ◌∷◌, ◌++◌, map, Option, none, some, if◌then◌else◌, ltb,
}
use holler_server.Text.{codes, trim_start}
use holler_server.Debug.{padded}
use holler_server.Token.Record.{TokenView}
use holler_server.Token.Ttl.{byte_length}
use holler_server.Wire.Control.{RosterRowDoc}

abbrev pub max : ℕ → ℕ → ℕ
max a b = if ltb a b then b else a

-- The widths, after a row: each is raised to the length of its cell.
abbrev pub widen : List ℕ → List (List ℕ) → List ℕ
widen [] cells = []
widen (w ∷ ws) [] = w ∷ ws
widen (w ∷ ws) (cell ∷ cells) = max w (byte_length cell) ∷ widen ws cells

unfoldable pub widths : List ℕ → List (List (List ℕ)) → List ℕ
widths ws [] = ws
widths ws (row ∷ rows) = widths (widen ws row) rows

-- The cells of a row, each padded to its width.
unfoldable pub aligned : List ℕ → List (List ℕ) → List (List ℕ)
aligned [] cells = []
aligned (w ∷ ws) [] = []
aligned (w ∷ ws) (cell ∷ cells) = padded w cell ∷ aligned ws cells

abbrev pub joined : List ℕ → List (List ℕ) → List ℕ
joined sep [] = []
joined sep (cell ∷ []) = cell
joined sep (cell ∷ (next ∷ cells)) = cell ++ (sep ++ joined sep (next ∷ cells))

abbrev trim_end : List ℕ → List ℕ
trim_end s = reverse (trim_start (reverse s))

unfoldable pub print_row : List ℕ → List (List ℕ) → List ℕ
unfolding aligned
print_row ws cells = trim_end (joined (codes "  ") (aligned ws cells))

-- The lines of a table: its headers, and then its rows.
unfoldable pub lines_of : List String → List (List (List ℕ)) → List (List ℕ)
unfolding print_row widths byte_length
lines_of headers rows =
    let heads = map codes headers in
    let ws = widths (map byte_length heads) rows in print_row ws heads ∷ map (print_row ws) rows

abbrev pub token_headers : List String
token_headers =
    "TOKEN_ID" ∷ "STATE" ∷ "CLIENT_ID" ∷ "MACHINE" ∷ "LABEL" ∷ "LAST_SEEN" ∷ "EXPIRES" ∷ []

abbrev pub token_cells : TokenView → List (List ℕ)
token_cells v =
    map codes
      (v.token_id ∷ v.state ∷ v.client_id ∷ v.machine ∷ v.label ∷ v.last_seen ∷ v.expires ∷ [])

unfoldable pub print_table : List TokenView → List (List ℕ)
unfolding lines_of
print_table views = lines_of token_headers (map token_cells views)

abbrev pub roster_headers : List String
roster_headers =
    "SESSION" ∷ "HARNESS" ∷ "CLIENT_ID" ∷ "STATE" ∷ "LAST_SEEN" ∷ "MODE" ∷ "HARNESS_ID" ∷ "BLOCKED"
    ∷ []

abbrev pub or_text : String → Option String → List ℕ
or_text default none = codes default
or_text default (some s) = codes s

-- `shown` is Rust's `{}` of a number.
abbrev pub roster_cells : (ℕ → String) → RosterRowDoc → List (List ℕ)
roster_cells shown r =
    codes r.name
    ∷ codes r.harness
    ∷ codes r.client_id
    ∷ codes r.state
    ∷ (codes (shown (r.last_seen_ms / 1000)) ++ codes "s ago")
    ∷ or_text "spawn" r.mode
    ∷ or_text "-" r.harness_session_id
    ∷ (if r.blocked then codes "blocked" else codes "-")
    ∷ []

unfoldable pub print_roster_table : (ℕ → String) → List RosterRowDoc → List (List ℕ)
unfolding lines_of
print_roster_table shown rows = lines_of roster_headers (map (roster_cells shown) rows)
