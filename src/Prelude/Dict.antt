-- ===== src/Prelude/Dict.antt =====
-- Rust's `HashMap`: an association list in which a key stands once. The order of the list has no
-- meaning in the program, which iterates over its maps in no order that it may rely on.
pub mod Unique
use mathlib.Core.Path.{◌≡◌, refl}
use mathlib.Core.Bool.{Bool}
use mathlib.Core.List.{List, [], ◌∷◌}
use mathlib.Core.Option
use mathlib.Core.Option.{Option, none, some}
use native.Mathlib.Omega.{arith}
use holler_server.Prelude.Tests.{if◌then◌else◌}
use holler_server.Prelude.Keys.{Eq, ◌==◌}

abbrev pub Dict {ℓ κ} : Type ℓ → Type κ → Type (ℓ ⊔ κ)
Dict K V = List (K × V)

-- What a test leaves of an optional value.
abbrev pub kept {κ} : {V : Type κ} → (V → Bool) → Option V → Option V
kept p none = none
kept p (some v) = if p v then some v else none

module _ {ℓ κ} {K : Type ℓ} {V : Type κ} where
  -- for v in map.values_mut() { *v = f(v) }
  unfoldable pub map_values : (V → V) → Dict K V → Dict K V
  map_values f [] = []
  map_values f ((j, v) ∷ m) = (j, f v) ∷ map_values f m

  -- map.retain(|_, v| p(v))
  unfoldable pub retain : (V → Bool) → Dict K V → Dict K V
  retain p [] = []
  retain p ((j, v) ∷ m) = let rest = retain p m in if p v then (j, v) ∷ rest else rest

module _ {ℓ κ} {K : Type ℓ} {V : Type κ} ⦃e : Eq K⦄ where
  -- map.get(k)
  unfoldable pub get : Dict K V → K → Option V
  get [] k = none
  get ((j, v) ∷ m) k = if j == k then some v else get m k

  -- map.insert(k, v)
  unfoldable pub insert : Dict K V → K → V → Dict K V
  insert [] k v = (k, v) ∷ []
  insert ((j, w) ∷ m) k v = if j == k then (k, v) ∷ m else (j, w) ∷ insert m k v

  -- map.remove(k)
  unfoldable pub remove : Dict K V → K → Dict K V
  remove [] k = []
  remove ((j, v) ∷ m) k = let rest = remove m k in if j == k then rest else (j, v) ∷ rest

  -- if let Some(v) = map.get_mut(k) { *v = f(v) }
  unfoldable pub alter : Dict K V → K → (V → V) → Dict K V
  alter [] k f = []
  alter ((j, v) ∷ m) k f =
      let rest = alter m k f in if j == k then (j, f v) ∷ rest else (j, v) ∷ rest

  pub get-insert :
      (m : Dict K V) (k : K) (v : V) (j : K)
      → get (insert m k v) j ≡ (if k == j then some v else get m j)
  unfolding get insert
  get-insert [] k v j = refl
  get-insert ((i, w) ∷ m) k v j =
      ground (arith, e.beq_iff k j, e.beq_iff i k, e.beq_iff i j, get-insert m k v j)

  pub get-remove :
      (m : Dict K V) (k j : K) → get (remove m k) j ≡ (if k == j then none else get m j)
  unfolding get remove
  get-remove [] k j = ground arith
  get-remove ((i, w) ∷ m) k j =
      ground (arith, e.beq_iff k j, e.beq_iff i k, e.beq_iff i j, get-remove m k j)

  pub get-alter :
      (m : Dict K V) (k : K) (f : V → V) (j : K)
      → get (alter m k f) j ≡ (if k == j then Option.map f (get m j) else get m j)
  unfolding get alter
  get-alter [] k f j = ground arith
  get-alter ((i, w) ∷ m) k f j =
      ground (arith, e.beq_iff k j, e.beq_iff i k, e.beq_iff i j, get-alter m k f j)

  pub get-map_values :
      (f : V → V) (m : Dict K V) (j : K) → get (map_values f m) j ≡ Option.map f (get m j)
  unfolding get map_values
  get-map_values f [] j = refl
  get-map_values f ((i, w) ∷ m) j = ground (arith, get-map_values f m j)

pub ruleset dict_laws = (get-insert, get-remove, get-alter, get-map_values)
