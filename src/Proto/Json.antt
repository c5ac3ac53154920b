-- ===== src/Proto/Json.antt =====
-- JSON values, as the crate serde_json documents them, and how src/proto/mod.rs reads a field of an
-- object.
use holler_server.Prelude.{
  ℕ, Bool, String, Option, none, some, if◌then◌else◌, ◌==◌, string_eq, eq_iff, ◌≡◌, refl, arith,
  List, [], ◌∷◌,
}

-- The integers, over the native numbers.
pub data ℤ : Type 0 where
  pos : ℕ → ℤ
  negsuc : ℕ → ℤ

-- A number is an unsigned or a negative integer of 64 bits, or any other number, by its text.
pub data Number : Type 0 where
  unsigned : ℕ → Number
  negative : ℕ → Number
  other : String → Number

mutual
  pub data Value : Type 0 where
    null : Value
    bool : Bool → Value
    number : Number → Value
    string : String → Value
    array : Values → Value
    object : Fields → Value

  pub data Values : Type 0 where
    no_values : Values
    item : Value → Values → Values

  pub data Fields : Type 0 where
    no_fields : Fields
    field : String → Value → Fields → Fields

abbrev pub get_field : String → Fields → Option Value
get_field key no_fields = none
get_field key (field k v rest) = if k == key then some v else get_field key rest

abbrev pub as_str : Option Value → Option String
as_str (some (Value.string s)) = some s
as_str _ = none

abbrev pub as_u64 : Option Value → Option ℕ
as_u64 (some (Value.number (unsigned n))) = some n
as_u64 _ = none

abbrev pub as_bool : Option Value → Option Bool
as_bool (some (Value.bool b)) = some b
as_bool _ = none

-- `value["key"]`, where nothing but an object has fields.
abbrev pub field_of : String → Value → Option Value
field_of key (Value.object fields) = get_field key fields
field_of key _ = none

-- `map.insert(key, value)`, which replaces the value of a key that is there.
unfoldable pub set_field : String → Value → Fields → Fields
set_field key value no_fields = field key value no_fields
set_field key value (field k v rest) =
    let later = set_field key value rest in if k == key then field k value rest else field k v later

-- What a lookup finds after an insertion.
pub get-set :
    (key : String) (value : Value) (fields : Fields) (wanted : String)
    → get_field wanted (set_field key value fields)
      ≡ (if key == wanted then some value else get_field wanted fields)
unfolding set_field
get-set key value no_fields wanted = refl
get-set key value (field k v rest) wanted =
    ground (arith, eq_iff key wanted, eq_iff k key, eq_iff k wanted, get-set key value rest wanted)

-- `json!` of a list.
abbrev pub values {ℓ} : {A : Type ℓ} → (A → Value) → List A → Values
values f [] = no_values
values f (x ∷ xs) = item (f x) (values f xs)
