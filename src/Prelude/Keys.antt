-- ===== src/Prelude/Keys.antt =====
-- Types whose values the code compares by `==`, as an instance argument.
use Prim.Native.Nat.{ℕ}
use Prim.Native.String.{String}
use mathlib.Core.Path.{◌≡◌, refl}
use mathlib.Core.Logic.{◌↔◌, ◌⊎◌, inl, inr, ◌≢◌}
use mathlib.Core.Bool.{Bool, true, false}
use native.Mathlib.Omega.{arith}
use text.Mathlib.Text.{◌==◌ as str_eq}
use text.Mathlib.TextEquality.{eq_iff}
use holler_server.Prelude.Tests.{nat_beq, nat_beq_iff, Bool-cases}

pub record Eq {ℓ} (K : Type ℓ) : Type ℓ where
  pub beq : K → K → Bool
  pub beq_iff : (a b : K) → (beq a b ≡ true) ↔ (a ≡ b)

infix 50 ◌==◌
abbrev pub ◌==◌ {ℓ} : {K : Type ℓ} ⦃e : Eq K⦄ → K → K → Bool
◌==◌ ⦃e⦄ = e.beq

instance abbrev pub string_eq : Eq String
string_eq = record { beq = str_eq; beq_iff = eq_iff }

instance abbrev pub nat_eq : Eq ℕ
nat_eq = record { beq = nat_beq; beq_iff = nat_beq_iff }

module _ {ℓ} {K : Type ℓ} ⦃e : Eq K⦄ where
  pub ==_refl : (a : K) → (a == a) ≡ true
  ==_refl a = (e.beq_iff a a).1 refl

  pub ==→≡ : (a b : K) → (a == b) ≡ true → a ≡ b
  ==→≡ a b h = (e.beq_iff a b).0 h

  -- A comparison, with the equation or the inequation that it finds.
  pub ==_cases : (a b : K) → ((a == b) ≡ true) × (a ≡ b) ⊎ ((a == b) ≡ false) × (a ≢ b)
  ==_cases a b = elim (Bool-cases (a == b)) [
    | inl h ↦ inl (h, (e.beq_iff a b).0 h)
    | inr h ↦ inr (h, λ p. ground (arith, (e.beq_iff a b).1 p))
  ]
