-- ===== src/Token/Tests/Sample.antt =====
-- A platform for the tests of src/token/mod.rs, with every law that the theorems ask for: a sum in place
-- of the HMAC, and texts in which each character stands behind a mark.
use Prim.Native.Char.{Char, char, code}
use mathlib.Core.List.{reverse_aux}
use holler_server.Prelude.{
  ℕ, zero, suc, ◌+◌, ◌%◌, ◌≡◌, refl, Bool, true, false, String, List, [], ◌∷◌, ◌++◌, map, Option,
  none, some, arith, if◌then◌else◌, All, length, nat_beq, Bool-cases, inl, inr,
}
use holler_server.Text.{codes, trim, trim_start, is_whitespace}
use holler_server.Token.Hex.{IsByte}
use holler_server.Token.Record.{
  Result, panic, ok, err, serde, StoredState, TokenRecord, Platform, IsLawful, is_blank,
}

abbrev plus : Char
plus = char 43 tt

abbrev dot : Char
dot = char 46 tt

-- Writers put a value before the rest of the text.
abbrev put_number : ℕ → String → String
put_number zero t = String.◌∷◌ dot t
put_number (suc n) t = String.◌∷◌ plus (put_number n t)

abbrev put_text : String → String → String
put_text String.[] t = String.◌∷◌ dot t
put_text (String.◌∷◌ c s) t = String.◌∷◌ plus (String.◌∷◌ c (put_text s t))

abbrev put_option : Option String → String → String
put_option none t = String.◌∷◌ dot t
put_option (some s) t = String.◌∷◌ plus (put_text s t)

abbrev put_state : StoredState → String → String
put_state StoredState.unused = put_number 0
put_state StoredState.bound = put_number 1
put_state StoredState.invalidated = put_number 2
put_state StoredState.revoked = put_number 3

-- Readers give a value and the rest of the text.
abbrev Reader : Type 0 → Type 0
Reader A = String → Option (A × String)

unfoldable take_number : Reader ℕ
take_number String.[] = none
take_number (String.◌∷◌ c t) =
    if nat_beq (code c) 43
    then elim (take_number t) [ none ↦ none | some (n, u) ↦ some (suc n, u) ]
    else some (0, t)

unfoldable take_text : Reader String
take_text String.[] = none
take_text (String.◌∷◌ m String.[]) = if nat_beq (code m) 43 then none else some ("", "")
take_text (String.◌∷◌ m (String.◌∷◌ c t)) =
    if nat_beq (code m) 43
    then elim (take_text t) [ none ↦ none | some (s, u) ↦ some (String.◌∷◌ c s, u) ]
    else some ("", String.◌∷◌ c t)

unfoldable take_option : Reader (Option String)
take_option String.[] = none
take_option (String.◌∷◌ m t) =
    if nat_beq (code m) 43
    then elim (take_text t) [ none ↦ none | some (s, u) ↦ some (some s, u) ]
    else some (none, t)

abbrev state_of : ℕ → StoredState
state_of zero = StoredState.unused
state_of (suc zero) = StoredState.bound
state_of (suc (suc zero)) = StoredState.invalidated
state_of (suc (suc (suc n))) = StoredState.revoked

abbrev then_take : {A B : Type 0} → Option (A × String) → (A → Reader B) → Option (B × String)
then_take none k = none
then_take (some (a, t)) k = k a t

number-put : (n : ℕ) (t : String) → take_number (put_number n t) ≡ some (n, t)
unfolding take_number
number-put zero t = refl
number-put (suc n) t = rw (number-put n t) refl

text-put : (s t : String) → take_text (put_text s t) ≡ some (s, t)
unfolding take_text
text-put String.[] String.[] = refl
text-put String.[] (String.◌∷◌ c t) = refl
text-put (String.◌∷◌ c s) t = rw (text-put s t) refl

option-put : (o : Option String) (t : String) → take_option (put_option o t) ≡ some (o, t)
unfolding take_option
option-put none t = refl
option-put (some s) t = rw (text-put s t) refl

state-put :
    (s : StoredState) (t : String)
    → then_take (take_number (put_state s t)) (λ n t. some (state_of n, t)) ≡ some (s, t)
state-put StoredState.unused t = rw (number-put 0 t) refl
state-put StoredState.bound t = rw (number-put 1 t) refl
state-put StoredState.invalidated t = rw (number-put 2 t) refl
state-put StoredState.revoked t = rw (number-put 3 t) refl

abbrev put_record : TokenRecord → String → String
put_record r t = put_text r.token_id (
    put_text r.secret_hash (
      put_state r.state (
        put_option r.label (
          put_option r.machine (
            put_option r.client_id (
              put_option r.credential_hash
                (put_text r.created_at (put_text r.expires (put_option r.last_seen t)))))))))

unfoldable take_record : Reader TokenRecord
unfolding take_number take_text take_option
take_record t0 = then_take (take_text t0) λ token_id t1. then_take (take_text t1) λ secret_hash t2.
    then_take (then_take (take_number t2) (λ n t. some (state_of n, t))) λ state t3.
      then_take (take_option t3) λ label t4. then_take (take_option t4) λ machine t5.
        then_take (take_option t5) λ client_id t6. then_take (take_option t6) λ credential_hash t7.
          then_take (take_text t7) λ created_at t8. then_take (take_text t8) λ expires t9.
            then_take (take_option t9) λ last_seen t10. some (
              record {
                token_id = token_id;
                secret_hash = secret_hash;
                state = state;
                label = label;
                machine = machine;
                client_id = client_id;
                credential_hash = credential_hash;
                created_at = created_at;
                expires = expires;
                last_seen = last_seen;
              },
              t10,
            )

record-put : (r : TokenRecord) (t : String) → take_record (put_record r t) ≡ some (r, t)
unfolding take_record
record-put r t =
    let t9 = put_option r.last_seen t in
    let t8 = put_text r.expires t9 in
    let t7 = put_text r.created_at t8 in
    let t6 = put_option r.credential_hash t7 in
    let t5 = put_option r.client_id t6 in
    let t4 = put_option r.machine t5 in
    let t3 = put_option r.label t4 in
    let t2 = put_state r.state t3 in
    rw (text-put r.token_id (put_text r.secret_hash t2)) (
      rw (text-put r.secret_hash t2) (
        rw (state-put r.state t3) (
          rw (option-put r.label t4) (
            rw (option-put r.machine t5) (
              rw (option-put r.client_id t6) (
                rw (option-put r.credential_hash t7) (
                  rw (text-put r.created_at t8)
                    (rw (text-put r.expires t9) (rw (option-put r.last_seen t) refl)))))))))

abbrev put_records : List TokenRecord → String
put_records [] = ""
put_records (r ∷ rs) = put_record r (put_records rs)

unfoldable take_records : ℕ → String → Result (List TokenRecord)
unfolding take_record
take_records zero t = ok []
take_records (suc n) t = elim (take_record t) [
  | none ↦ err (serde "record")
  | some (r, u) ↦ elim (take_records n u) [
    | ok rs ↦ ok (r ∷ rs)
    | err e ↦ err e
    | panic ↦ Result.panic
  ]
]

records-put : (rs : List TokenRecord) → take_records (length rs) (put_records rs) ≡ ok rs
unfolding take_records
records-put [] = refl
records-put (r ∷ rs) = ground (arith, record-put r (put_records rs), records-put rs)

abbrev sample_to_json : List TokenRecord → Result String
sample_to_json rs = ok (put_number (length rs) (put_records rs))

unfoldable pub sample_from_json : String → Result (List TokenRecord)
unfolding take_number take_records
sample_from_json s = elim (take_number s) [
  | none ↦ err (serde "count")
  | some (n, t) ↦ take_records n t
]

unfoldable pub sample_parse : String → Option ℕ
unfolding take_number
sample_parse s = elim (take_number s) [ none ↦ none | some (n, t) ↦ some n ]

abbrev pub sample : Platform
sample = record {
  hmac = λ key message. map (λ b. b % 256) (key ++ message);
  format = λ t. ok (put_number t "");
  parse = sample_parse;
  later = λ t d. ok (t + d);
  to_json = sample_to_json;
  from_json = sample_from_json;
}

parse-put : (n : ℕ) → sample_parse (put_number n "") ≡ some n
unfolding sample_parse
parse-put n = ground (arith, number-put n "")

from_json-put :
    (rs : List TokenRecord) → sample_from_json (put_number (length rs) (put_records rs)) ≡ ok rs
unfolding sample_from_json
from_json-put rs = ground (arith, number-put (length rs) (put_records rs), records-put rs)

-- Whether a text has a character that is no blank.
unfoldable filled : List ℕ → Bool
filled [] = false
filled (c ∷ s) = if is_whitespace c then filled s else true

reverse_aux-filled : (xs ys : List ℕ) → filled ys ≡ true → filled (reverse_aux xs ys) ≡ true
unfolding filled
reverse_aux-filled [] ys h = h
reverse_aux-filled (x ∷ xs) ys h = reverse_aux-filled xs (x ∷ ys) (ground (arith, h))

trim_start-filled :
    (xs : List ℕ) → filled xs ≡ true → (c : ℕ) × (s : List ℕ) × (trim_start xs ≡ c ∷ s)
unfolding filled trim_start
trim_start-filled [] h = ground arith
trim_start-filled (x ∷ xs) h = elim (Bool-cases (is_whitespace x)) [
  | inl e ↦
      let (c, s, q) = trim_start-filled xs (ground (arith, h, e)) in (c, s, ground (arith, e, q))
  | inr e ↦ (x, xs, ground (arith, e))
]

reverse_aux-cons :
    (xs : List ℕ) (c : ℕ) (s : List ℕ) → (d : ℕ) × (t : List ℕ) × (reverse_aux xs (c ∷ s) ≡ d ∷ t)
reverse_aux-cons [] c s = (c, s, refl)
reverse_aux-cons (x ∷ xs) c s = reverse_aux-cons xs x (c ∷ s)

trim-filled :
    (c : ℕ) (s : List ℕ) → is_whitespace c ≡ false → (d : ℕ) × (t : List ℕ) × (trim (c ∷ s) ≡ d ∷ t)
unfolding trim trim_start filled
trim-filled c s e =
    let f : filled (reverse_aux s (c ∷ [])) ≡ true =
      reverse_aux-filled s (c ∷ []) (ground (arith, e)) in
    let (a, r, q) = trim_start-filled (reverse_aux s (c ∷ [])) f in
    let (d, t, w) = reverse_aux-cons r a [] in (d, t, ground (arith, e, q, w))

number-filled : (n : ℕ) (t : String) → is_blank (put_number n t) ≡ false
unfolding is_blank is_whitespace
number-filled zero t = let (c, s, e) = trim-filled 46 (codes t) refl in ground (arith, e)
number-filled (suc n) t =
    let (c, s, e) = trim-filled 43 (codes (put_number n t)) refl in ground (arith, e)

All-mod : (bs : List ℕ) → All IsByte (map (λ b. b % 256) bs)
All-mod [] = tt
All-mod (b ∷ bs) = (ground arith, All-mod bs)

pub sample-IsLawful : IsLawful sample
sample-IsLawful = record {
  hmac_bytes = λ key message. All-mod (key ++ message);
  parse-format = λ t s e. ground (arith, parse-put t);
  later-eq = λ t d u e. ground arith;
  from_json-to_json = λ rs s e. ground (arith, from_json-put rs);
  to_json_total = λ rs. (put_number (length rs) (put_records rs), refl);
  to_json_not_blank = λ rs s e. ground (arith, number-filled (length rs) (put_records rs));
}
