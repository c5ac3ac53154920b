-- ===== src/Text/Ordered.antt =====
-- `sort_by` with the order of texts: rows come out sorted by name, each as often as it went in.
use Prim.Native.Nat.{Ordering}
use Prim.Native.String as Str
use Prim.Native.String.compare.{nil-cons, cons-nil, cons-cons}
use mathlib.Core.List.{Perm}
use mathlib.Core.List.Perm
use holler_server.Prelude.{
  ◌≡◌, Bool, true, false, String, List, [], ◌∷◌, arith, if◌then◌else◌, Bool-cases, inl, inr,
}

unfoldable pub str_le : String → String → Bool
str_le s t = elim (Str.compare s t) [ Ordering.gt ↦ false | _ ↦ true ]

module _ {ℓ} {A : Type ℓ} (name : A → String) where
  -- A stable insertion: behind the rows that are not greater, from the right end.
  unfoldable pub insert_by : A → List A → List A
  insert_by a [] = a ∷ []
  insert_by a (b ∷ l) =
      let rest = insert_by a l in if str_le (name a) (name b) then a ∷ b ∷ l else b ∷ rest

  unfoldable pub sort_by : List A → List A
  unfolding insert_by
  sort_by [] = []
  sort_by (a ∷ l) = insert_by a (sort_by l)

  insert_by-perm : (a : A) (l : List A) → Perm (insert_by a l) (a ∷ l)
  unfolding insert_by
  insert_by-perm a [] = Perm.refl (a ∷ [])
  insert_by-perm a (b ∷ l) = elim (Bool-cases (str_le (name a) (name b))) [
    | inl e ↦ rw e (Perm.refl (a ∷ b ∷ l))
    | inr e ↦ rw e (Perm.trans (Perm.cons b (insert_by-perm a l)) (Perm.swap a b l))
  ]

  pub sort_by-perm : (l : List A) → Perm (sort_by l) l
  unfolding sort_by
  sort_by-perm [] = Perm.nil
  sort_by-perm (a ∷ l) = Perm.trans (insert_by-perm a (sort_by l)) (Perm.cons a (sort_by-perm l))

str_le_total : (s t : String) → str_le s t ≡ false → str_le t s ≡ true
unfolding str_le
str_le_total String.[] String.[] h = ground arith
str_le_total String.[] (String.◌∷◌ d t) h = ground (arith, cons-nil d t, nil-cons d t)
str_le_total (String.◌∷◌ c s) String.[] h = ground (arith, nil-cons c s)
str_le_total (String.◌∷◌ c s) (String.◌∷◌ d t) h =
    ground (arith, cons-cons c d s t, cons-cons d c t s, str_le_total s t)

module _ {ℓ} {A : Type ℓ} (name : A → String) where
  -- Each row's name is at most the next one's.
  abbrev pub IsSorted : List A → Type 0
  IsSorted [] = Unit
  IsSorted (a ∷ []) = Unit
  IsSorted (a ∷ b ∷ l) = (str_le (name a) (name b) ≡ true) × IsSorted (b ∷ l)

  insert_by-IsSorted : (a : A) (l : List A) → IsSorted l → IsSorted (insert_by name a l)
  unfolding insert_by
  insert_by-IsSorted a [] h = tt
  insert_by-IsSorted a (b ∷ []) h = ground (arith, str_le_total (name a) (name b))
  insert_by-IsSorted a (b ∷ c ∷ l) h = ground (
    arith,
    str_le_total (name a) (name b),
    str_le_total (name a) (name c),
    insert_by-IsSorted a (c ∷ l) h.1,
  )

  pub sort_by-IsSorted : (l : List A) → IsSorted (sort_by name l)
  unfolding sort_by
  sort_by-IsSorted [] = tt
  sort_by-IsSorted (a ∷ l) = insert_by-IsSorted a (sort_by name l) (sort_by-IsSorted l)
