-- ===== src/Navigation/Errors/Least.antt =====
-- Which error code is reported (nav3d_behavior_tree/include/nav3d_behavior_tree/bt_action_server_impl.hpp).
use nav2_3d.Prelude.{
  ℕ, ◌^◌, ◌≤◌, ◌<◌, ◌≡◌, ◌≢◌, refl, ◌⊎◌, inl, inr, ◌==◌, if◌then◌else◌, Option, none, some, subst,
  List, [], ◌∷◌, All, Any, Bool-cases, ap, sym, ◌∙◌, arith,
}
use nav2_3d.Prelude.Int.{ℤ, pos, negsuc}
use nav2_3d.Navigation.Errors.{
  int_max, is_nonzero, lt_ℤ, to_uint16, report, consider, highest_priority, populate_error_code,
}
use nav2_3d.Navigation.Errors.Numbers.{
  least_of_two, least_code, least_code-found, least_error, least_error-least,
}

-- A code that a uint16_t holds, as the codes of all actions are.
abbrev pub IsCode : Option ℤ → Type 0
IsCode none = Unit
IsCode (some (pos n)) = n < 2 ^ 16
IsCode (some (negsuc n)) = ⊥

abbrev number : Option ℤ → Option ℕ
number none = none
number (some (pos n)) = some n
number (some (negsuc n)) = none

number-pos :
    (o : Option ℤ) (k : ℕ) → IsCode o → number o ≡ some k → (o ≡ some (pos k)) × (k < 2 ^ 16)
number-pos none k code e = absurd (cc)
number-pos (some (pos n)) k code e =
    (let same : n ≡ k = cc in (ap (λ m. some (pos m)) same, subst (λ m. m < 2 ^ 16) same code))
number-pos (some (negsuc n)) k never e = absurd never

module _ {P : Type 0} (code_of : P → Option ℤ) where
  abbrev numbers : P → Option ℕ
  numbers p = number (code_of p)

  consider-pos :
      (o : Option ℤ) (best : ℕ)
      → IsCode o
      → consider code_of o (pos best) ≡ pos (least_of_two numbers (number o) best)
  unfolding consider least_of_two is_nonzero lt_ℤ
  consider-pos none best code = refl
  consider-pos (some (pos n)) best code = ground arith
  consider-pos (some (negsuc n)) best never = absurd never

  highest_priority-pos :
      (ps : List P) (best : ℕ)
      → All (λ p. IsCode (code_of p)) ps
      → highest_priority code_of ps (pos best) ≡ pos (least_code numbers ps best)
  unfolding highest_priority least_code
  highest_priority-pos [] best codes = refl
  highest_priority-pos (p ∷ ps) best codes =
      ap (highest_priority code_of ps) (consider-pos (code_of p) best codes.0)
      ∙ highest_priority-pos ps (least_of_two numbers (numbers p) best) codes.1

  found_code :
      (ps : List P) (k : ℕ)
      → All (λ p. IsCode (code_of p)) ps
      → Any (λ p. numbers p ≡ some k) ps
      → (k < 2 ^ 16) × Any (λ p. code_of p ≡ some (pos k)) ps
  found_code [] k codes never = absurd never
  found_code (p ∷ ps) k codes (inl e) =
      let (same, fits) = number-pos (code_of p) k codes.0 e in (fits, inl same)
  found_code (p ∷ ps) k codes (inr any) =
      let (fits, found) = found_code ps k codes.1 any in (fits, inr found)

  report-pos :
      (r : ℕ) → (r ≡ int_max) ⊎ (r < 2 ^ 16) → report (pos r) ≡ (if r == int_max then 0 else r)
  unfolding report to_uint16
  report-pos r (inl all) = ground arith
  report-pos r (inr small) = ground arith

  bounded :
      (ps : List P) (start : ℕ)
      → All (λ p. IsCode (code_of p)) ps
      → (start ≡ int_max) ⊎ (start < 2 ^ 16)
      → let r = least_code numbers ps start in (r ≡ int_max) ⊎ (r < 2 ^ 16)
  bounded ps start codes fits = elim (least_code-found numbers ps start) [
    | inl same ↦ subst (λ n. (n ≡ int_max) ⊎ (n < 2 ^ 16)) (sym same) fits
    | inr (error, any) ↦ inr (found_code ps (least_code numbers ps start) codes any).0
  ]

  from_start :
      (ps : List P) (start : ℕ)
      → All (λ p. IsCode (code_of p)) ps
      → (start ≡ int_max) ⊎ (start < 2 ^ 16)
      → let r = least_code numbers ps start in
        report (highest_priority code_of ps (pos start)) ≡ (if r == int_max then 0 else r)
  from_start ps start codes fits =
      ap report (highest_priority-pos ps start codes) ∙ report-pos _ (bounded ps start codes fits)

  populate_error_code-numbers :
      (prefixes : List P) (internal : ℕ)
      → internal < 2 ^ 16
      → All (λ p. IsCode (code_of p)) prefixes
      → populate_error_code code_of prefixes internal ≡ least_error numbers prefixes internal
  unfolding populate_error_code least_error
  populate_error_code-numbers prefixes internal small codes = elim (Bool-cases (internal == 0)) [
    | inl none_yet ↦ rw none_yet (from_start prefixes int_max codes (inl refl))
    | inr one ↦ rw one (from_start prefixes internal codes (inr small))
  ]

  carried :
      (ps : List P) (c : ℕ)
      → All (λ p. IsCode (code_of p)) ps
      → All (λ p. (k : ℕ) → numbers p ≡ some k → k ≢ 0 → k < int_max → (c ≢ 0) × (c ≤ k)) ps
      → All (λ p. (k : ℕ) → code_of p ≡ some (pos k) → k ≢ 0 → (c ≢ 0) × (c ≤ k)) ps
  carried [] c codes least = tt
  carried (p ∷ ps) c codes least = (
    λ k found error.
        least.0 k (ap number found) error
          (omega (arith, (number-pos (code_of p) k codes.0 (ap number found)).1)),
    carried ps c codes.1 least.1,
  )

  -- If the internal error and the codes on the blackboard are such as a uint16_t holds, the code
  -- that is reported is, unless it is 0, the internal error or the code of a prefix; it is an
  -- error and at most the internal error where there is one; and it is an error and at most the
  -- code of any prefix whose code is an error.
  pub populate_error_code-least :
      (prefixes : List P) (internal : ℕ)
      → internal < 2 ^ 16
      → All (λ p. IsCode (code_of p)) prefixes
      → let c = populate_error_code code_of prefixes internal in
        ((c ≢ 0) → (c ≡ internal) ⊎ Any (λ p. code_of p ≡ some (pos c)) prefixes)
        × (internal ≢ 0 → (c ≢ 0) × (c ≤ internal))
        × All (λ p. (k : ℕ) → code_of p ≡ some (pos k) → k ≢ 0 → (c ≢ 0) × (c ≤ k)) prefixes
  unfolding populate_error_code
  populate_error_code-least prefixes internal small codes =
      let (from, internal_least, least) =
        least_error-least numbers prefixes internal (omega (arith, small)) in
      rw (populate_error_code-numbers prefixes internal small codes) (
        λ error. elim (from error) [
          | inl same ↦ inl same
          | inr any ↦ inr (found_code prefixes _ codes any).1
        ],
        internal_least,
        carried prefixes _ codes least,
      )
