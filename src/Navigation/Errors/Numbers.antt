-- ===== src/Navigation/Errors/Numbers.antt =====
-- The choice of the error code (nav3d_behavior_tree/include/nav3d_behavior_tree/bt_action_server_impl.hpp)
-- over numbers that are not cut.
use nav2_3d.Prelude.{
  ℕ, ◌≤◌, ◌<◌, ◌≡◌, ◌≢◌, refl, ◌⊎◌, inl, inr, not, ◌&&◌, ◌==◌, ltb, if◌then◌else◌, Option, none,
  some, List, [], ◌∷◌, All, All-imply, Any, Bool-cases, ap, sym, ◌∙◌, arith,
}
use nav2_3d.Navigation.Errors.{int_max}

module _ {P : Type 0} (code_of : P → Option ℕ) where
  unfoldable pub least_of_two : Option ℕ → ℕ → ℕ
  least_of_two none best = best
  least_of_two (some c) best = if not (c == 0) && ltb c best then c else best

  unfoldable pub least_code : List P → ℕ → ℕ
  unfolding least_of_two
  least_code [] best = best
  least_code (p ∷ ps) best = least_code ps (least_of_two (code_of p) best)

  unfoldable pub least_error : List P → ℕ → ℕ
  unfolding least_code
  least_error prefixes internal =
      let best = least_code prefixes (if internal == 0 then int_max else internal) in
      if best == int_max then 0 else best

  -- The blackboard's code of a prefix, where it is an error, is not below `c`.
  abbrev NotBelow : ℕ → P → Type 0
  NotBelow c p = (k : ℕ) → code_of p ≡ some k → k ≢ 0 → c ≤ k

  least_of_two-le : (o : Option ℕ) (best : ℕ) → least_of_two o best ≤ best
  unfolding least_of_two
  least_of_two-le none best = omega arith
  least_of_two-le (some c) best = ground arith

  least_code-le : (ps : List P) (best : ℕ) → least_code ps best ≤ best
  unfolding least_code
  least_code-le [] best = omega arith
  least_code-le (p ∷ ps) best =
      let b = least_of_two (code_of p) best in
      omega (arith, least_code-le ps b, least_of_two-le (code_of p) best)

  least_of_two-bound : (o : Option ℕ) (best k : ℕ) → o ≡ some k → k ≢ 0 → least_of_two o best ≤ k
  unfolding least_of_two
  least_of_two-bound none best k found error = absurd (cc)
  least_of_two-bound (some c) best k found error = ground arith

  least_of_two-found :
      (o : Option ℕ) (best : ℕ)
      → (least_of_two o best ≡ best)
        ⊎ ((least_of_two o best ≢ 0) × (o ≡ some (least_of_two o best)))
  unfolding least_of_two
  least_of_two-found none best = inl refl
  least_of_two-found (some c) best = ground arith

  least_code-NotBelow : (ps : List P) (best : ℕ) → All (NotBelow (least_code ps best)) ps
  unfolding least_code
  least_code-NotBelow [] best = tt
  least_code-NotBelow (p ∷ ps) best =
      let b = least_of_two (code_of p) best in
      (
        λ k found error.
            omega (arith, least_code-le ps b, least_of_two-bound (code_of p) best k found error),
        least_code-NotBelow ps b,
      )

  pub least_code-found :
      (ps : List P) (best : ℕ)
      → (least_code ps best ≡ best)
        ⊎ ((least_code ps best ≢ 0) × Any (λ p. code_of p ≡ some (least_code ps best)) ps)
  unfolding least_code
  least_code-found [] best = inl refl
  least_code-found (p ∷ ps) best =
      let b = least_of_two (code_of p) best in
      elim (least_code-found ps b) [
        | inr (error, any) ↦ inr (error, inr any)
        | inl same ↦ elim (least_of_two-found (code_of p) best) [
          | inl old ↦ inl (same ∙ old)
          | inr (error, found) ↦ inr (ground arith, inl (found ∙ ap some (sym same)))
        ]
      ]

  pub least_error-least :
      (prefixes : List P) (internal : ℕ)
      → internal < int_max
      → let c = least_error prefixes internal in
        ((c ≢ 0) → (c ≡ internal) ⊎ Any (λ p. code_of p ≡ some c) prefixes)
        × (internal ≢ 0 → (c ≢ 0) × (c ≤ internal))
        × All (λ p. (k : ℕ) → code_of p ≡ some k → k ≢ 0 → k < int_max → (c ≢ 0) × (c ≤ k)) prefixes
  unfolding least_error
  least_error-least prefixes internal small =
      let start : ℕ = if internal == 0 then int_max else internal in
      let r = least_code prefixes start in
      let found = least_code-found prefixes start in
      let below = least_code-le prefixes start in
      let bounds = least_code-NotBelow prefixes start in
      elim (Bool-cases (r == int_max)) [
        | inl nothing ↦
            rw (nothing, least_error)
              (
                λ error. absurd (error refl),
                λ error. absurd (ground arith),
                All-imply _ _ (λ p b k has error fits. absurd (ground (arith, b k has error)))
                    prefixes bounds,
              )
        | inr something ↦
            let error : r ≢ 0 = λ zero. ground arith in
            rw (something, least_error)
              (
                λ _. elim found [ inl same ↦ inl (ground arith) | inr (_, any) ↦ inr any ],
                λ internal_error. (error, ground arith),
                All-imply _ _ (λ p b k has wrong fits. (error, b k has wrong)) prefixes bounds,
              )
      ]
