-- ===== src/Command/Answers.antt =====
-- The printing of a query's answer, of src/main.rs: `print_status_like`, `print_generic`, and their choice in
-- `run_query_command`. `shown` is Rust's `{}` of a number, and `printed` that of a JSON value.
use Prim.Native.String.{◌++◌ as append}
use holler_server.Prelude.{
  ℕ, ap, ◌≡◌, refl, Bool, false, ◌||◌, String, List, [], ◌∷◌, map, Option, none, some,
  if◌then◌else◌, ◌==◌, string_eq,
}
use holler_server.Text.Ordered.{sort_by}
use holler_server.Proto.Json.{
  values, Value, Values, no_values, item, Fields, no_fields, field, as_str, as_u64, as_bool,
  field_of, get_field,
}
use holler_server.Proto.{QueryOkBody}
use holler_server.Wire.Query.{Facts, Answered, dispatch, status_body, status_rest}

abbrev pub or_else : {A : Type 0} → A → Option A → A
or_else a none = a
or_else a (some b) = b

abbrev as_array : Option Value → Option Values
as_array (some (Value.array items)) = some items
as_array _ = none

abbrev pub as_object : Option Value → Option Fields
as_object (some (Value.object fields)) = some fields
as_object _ = none

abbrev strings : Values → List String
strings no_values = []
strings (item v rest) =
    let later = strings rest in elim (as_str (some v)) [ none ↦ later | some s ↦ s ∷ later ]

abbrev join : List String → String
join [] = ""
join (s ∷ []) = s
join (s ∷ (next ∷ rest)) = append s (append ", " (join (next ∷ rest)))

abbrev keys : Fields → List String
keys no_fields = []
keys (field k v rest) = k ∷ keys rest

-- The addresses, where there is a list of at least one.
abbrev pub listening_of : Value → Option Values
listening_of rest = elim (as_array (field_of "listening" rest)) [
  | some (item v items) ↦ some (item v items)
  | _ ↦ none
]

abbrev text_at : String → Value → String
text_at key rest = or_else "?" (as_str (field_of key rest))

abbrev pub number_at : String → Value → ℕ
number_at key rest = or_else 0 (as_u64 (field_of key rest))

abbrev is_ok : Fields → String → Bool
is_ok capabilities id =
    or_else false (as_bool (field_of "ok" (or_else Value.null (get_field id capabilities))))

abbrev capability_line : Fields → String → String
capability_line capabilities id =
    append "  " (append id (append ": " (if is_ok capabilities id then "ok" else "no")))

abbrev capability_lines : Option Fields → List String
capability_lines none = []
capability_lines (some capabilities) =
    "capabilities:" ∷ map (capability_line capabilities) (sort_by (λ s. s) (keys capabilities))

module _ (shown : ℕ → String) (printed : Value → String) where
  abbrev protocol_line : Value → String
  protocol_line rest = append "protocol:  " (
      append (shown (number_at "protocol" rest)) (
        append " (min " (
          append (shown (number_at "protocol_min" rest))
            (append " max " (append (shown (number_at "protocol_max" rest)) ")")))))

  unfoldable pub print_status_like : QueryOkBody → List String
  unfolding sort_by
  print_status_like body =
      let rest = body.rest in
      append "role:      " (text_at "role" rest)
      ∷ append "hostname:  " (text_at "hostname" rest)
      ∷ protocol_line rest
      ∷ append "listening: "
          (elim (listening_of rest) [ none ↦ "not running" | some l ↦ join (strings l) ])
      ∷ append "clients:   " (shown (number_at "clients" rest))
      ∷ append "status:    "
          (elim (listening_of rest) [ none ↦ "not running" | some l ↦ "healthy" ])
      ∷ capability_lines (as_object (field_of "capabilities" rest))

  abbrev generic_line : Fields → String → String
  generic_line fields key =
      append key (append ": " (printed (or_else Value.null (get_field key fields))))

  unfoldable pub print_generic : QueryOkBody → List String
  unfolding sort_by
  print_generic body = append "cmd: " body.cmd ∷ elim (as_object (some body.rest)) [
    | none ↦ []
    | some fields ↦ map (generic_line fields) (sort_by (λ s. s) (keys fields))
  ]

  -- What is printed without `--json`.
  unfoldable pub print_answer : QueryOkBody → List String
  unfolding print_status_like print_generic
  print_answer body =
      if body.cmd == "status" || body.cmd == "caps"
      then print_status_like body
      else print_generic body

-- What `status` prints for a server: it is running exactly if it has an address.
abbrev pub status_lines : (ℕ → String) → Facts → List String
status_lines shown f =
    "role:      server"
    ∷ append "hostname:  " f.hostname
    ∷ append "protocol:  " (
        append (shown 1)
          (append " (min " (append (shown 1) (append " max " (append (shown 1) ")")))))
    ∷ append "listening: " (elim f.listening [ [] ↦ "not running" | a ∷ l ↦ join (a ∷ l) ])
    ∷ append "clients:   " (shown f.clients)
    ∷ append "status:    " (elim f.listening [ [] ↦ "not running" | a ∷ l ↦ "healthy" ])
    ∷ []

strings-values : (l : List String) → strings (values (λ s. Value.string s) l) ≡ l
strings-values [] = refl
strings-values (s ∷ l) = ap (λ (r : List String). s ∷ r) (strings-values l)

printed_status :
    (shown : ℕ → String) (printed : Value → String) (f : Facts) (l : List String)
    → print_answer shown printed (status_body (record f { listening = l }))
      ≡ status_lines shown (record f { listening = l })
unfolding status_body status_rest print_answer print_status_like
printed_status shown printed f [] = refl
printed_status shown printed f (a ∷ l) = rw (strings-values l) refl

-- `status` prints what the server answered: its host name, its addresses, how many clients it has, and
-- that it is healthy exactly if it has an address, whether the answer comes from a running server or
-- is this binary's own.
pub status_is_printed :
    (shown : ℕ → String) (printed : Value → String) (quoted : String → String) (args : List String)
    (f : Facts)
    → (body : QueryOkBody) × (dispatch quoted "status" args f ≡ Answered.ok body)
      × (print_answer shown printed body ≡ status_lines shown f)
unfolding dispatch status_body print_answer print_status_like
status_is_printed shown printed quoted args f =
    (status_body f, refl, printed_status shown printed f f.listening)
