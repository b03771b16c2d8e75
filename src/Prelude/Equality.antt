-- ===== src/Prelude/Equality.antt =====
-- Types with a Boolean equality test, and lists searched by it.
use mathlib.Core.Path.{◌≡◌, refl}
use mathlib.Core.Logic.{◌↔◌, ◌⊎◌, inl, inr, ◌≢◌}
use mathlib.Core.Bool.{Bool, true, false, ◌||◌}
use mathlib.Core.List.{List, [], ◌∷◌}
use native.Mathlib.Omega.{arith}
use nav2_3d.Prelude.Tests.{if◌then◌else◌, Bool-cases}
use nav2_3d.Prelude.Lists.{All}

pub record Eq {ℓ} (A : Type ℓ) : Type ℓ where
  pub beq : A → A → Bool
  pub beq_iff : (a b : A) → (beq a b ≡ true) ↔ (a ≡ b)

module _ {ℓ} {A : Type ℓ} ⦃e : Eq A⦄ where
  unfoldable pub contains : List A → A → Bool
  contains [] a = false
  contains (x ∷ xs) a = e.beq x a || contains xs a

  -- std::map::erase by key, on the keys.
  unfoldable pub erase : A → List A → List A
  erase a [] = []
  erase a (x ∷ xs) = if e.beq x a then erase a xs else x ∷ erase a xs

  -- Every entry of the first list is one of the second.
  abbrev pub Covers : List A → List A → Type 0
  Covers xs ys = All (λ x. contains ys x ≡ true) xs

  pub beq_self : (a : A) → e.beq a a ≡ true
  beq_self a = (e.beq_iff a a).1 refl

  pub beq_ne : (a b : A) → a ≢ b → e.beq a b ≡ false
  beq_ne a b other = elim (Bool-cases (e.beq a b)) [
    | inl same ↦ absurd (other ((e.beq_iff a b).0 same))
    | inr differs ↦ differs
  ]

  pub eq_cases : (a b : A) → (a ≡ b) ⊎ (a ≢ b)
  eq_cases a b = elim (Bool-cases (e.beq a b)) [
    | inl same ↦ inl ((e.beq_iff a b).0 same)
    | inr differs ↦ inr (λ p. ground (arith, (e.beq_iff a b).1 p))
  ]
