-- ===== src/Prelude/Dict/Unique.antt =====
-- A key stands once in a map, and every operation keeps it so.
use mathlib.Core.Path.{◌≡◌, refl}
use mathlib.Core.Bool.{Bool}
use mathlib.Core.List.{[], ◌∷◌}
use mathlib.Core.Option.{none}
use native.Mathlib.Omega.{arith}
use holler_server.Prelude.Keys.{Eq}
use holler_server.Prelude.Dict.{
  Dict, kept, map_values, retain, get, insert, remove, alter, get-insert, get-remove, get-alter,
  get-map_values,
}

module _ {ℓ κ} {K : Type ℓ} {V : Type κ} ⦃e : Eq K⦄ where
  abbrev pub Unique : Dict K V → Type κ
  Unique [] = Unit
  Unique ((k, v) ∷ m) = (get m k ≡ none) × Unique m

  pub Unique-insert : (m : Dict K V) (k : K) (v : V) → Unique m → Unique (insert m k v)
  unfolding insert get
  Unique-insert [] k v u = (refl, tt)
  Unique-insert ((j, w) ∷ m) k v u =
      ground (arith, e.beq_iff j k, e.beq_iff k j, get-insert m k v j, Unique-insert m k v u.1)

  Unique-remove : (m : Dict K V) (k : K) → Unique m → Unique (remove m k)
  unfolding remove
  Unique-remove [] k u = tt
  Unique-remove ((j, w) ∷ m) k u =
      ground (arith, e.beq_iff k j, get-remove m k j, Unique-remove m k u.1)

  pub Unique-alter : (m : Dict K V) (k : K) (f : V → V) → Unique m → Unique (alter m k f)
  unfolding alter
  Unique-alter [] k f u = tt
  Unique-alter ((j, w) ∷ m) k f u = ground (arith, get-alter m k f j, Unique-alter m k f u.1)

  pub Unique-map_values : (f : V → V) (m : Dict K V) → Unique m → Unique (map_values f m)
  unfolding map_values
  Unique-map_values f [] u = tt
  Unique-map_values f ((j, w) ∷ m) u =
      ground (arith, get-map_values f m j, Unique-map_values f m u.1)

  pub get-retain :
      (p : V → Bool) (m : Dict K V) (j : K) → Unique m → get (retain p m) j ≡ kept p (get m j)
  unfolding retain get
  get-retain p [] j u = refl
  get-retain p ((i, w) ∷ m) j u =
      ground (arith, e.beq_iff i j, get-retain p m j u.1, get-retain p m i u.1)

  pub Unique-retain : (p : V → Bool) (m : Dict K V) → Unique m → Unique (retain p m)
  unfolding retain
  Unique-retain p [] u = tt
  Unique-retain p ((j, w) ∷ m) u = ground (arith, get-retain p m j u.1, Unique-retain p m u.1)
