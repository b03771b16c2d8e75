-- ===== src/Utilities/Arrays/Returning.antt =====
-- parseVVF returns on every input (nav3d_util/src/array_parser.cpp).
use nav2_3d.Prelude.{
  ℕ, zero, suc, ◌<◌, ◌==◌, leb, Bool-cases, Option-cases, ◌≡◌, refl, ◌⊎◌, inl, inr, Option, some,
  List, [], ◌∷◌, ◌++◌, length, arith,
}
use nav2_3d.Utilities.Arrays.{
  Parsed, Kind, opening, closing, separator, number, kind_of, at_end, parse, parse_vvf,
}
use nav2_3d.Utilities.Arrays.RoundTrip.{Consumes}

depth-cases : (depth : ℕ) → (depth ≡ 0) ⊎ ((d : ℕ) × (depth ≡ suc d))
depth-cases zero = inl refl
depth-cases (suc d) = inr (d, refl)

module _ {D : Type 0} (read_float : List ℕ → Option (D × List ℕ))
    (consumes : Consumes read_float) where
  abbrev Parses : Option (Parsed D) → Type 0
  Parses o = (r : Parsed D) × (o ≡ some r)

  at_end-Parses : (depth : ℕ) (result : List (List D)) → Parses (at_end read_float depth result)
  unfolding at_end
  at_end-Parses depth result = elim (Bool-cases (depth == 0)) [
    | inl level ↦ rw (level, at_end) (_, refl)
    | inr deep ↦ rw (deep, at_end) (_, refl)
  ]

  Kind-cases :
      (k : Kind read_float) → ((k ≡ opening) ⊎ (k ≡ closing)) ⊎ ((k ≡ separator) ⊎ (k ≡ number))
  Kind-cases opening = inl (inl refl)
  Kind-cases closing = inl (inr refl)
  Kind-cases separator = inr (inl refl)
  Kind-cases number = inr (inr refl)

  parse-Parses :
      (fuel depth : ℕ) (current : List D) (result : List (List D)) (input : List ℕ)
      → length input < fuel
      → Parses (parse read_float fuel depth current result input)
  unfolding parse
  parse-Parses zero depth current result input enough = absurd (omega (arith, enough))
  parse-Parses (suc fuel) depth current result [] enough = at_end-Parses depth result
  parse-Parses (suc fuel) depth current result (c ∷ cs) enough =
      let fits : length cs < fuel = omega (arith, enough) in
      elim (Kind-cases (kind_of read_float c)) [
        | inl (inl k) ↦ elim (Bool-cases (leb 2 depth)) [
          | inl deep ↦ rw (k, parse, deep) (_, refl)
          | inr room ↦ rw (k, parse, room) (parse-Parses fuel (suc depth) [] result cs fits)
        ]
        | inl (inr k) ↦ elim (depth-cases depth) [
          | inl level ↦ rw (k, parse, level) (_, refl)
          | inr (d, inner) ↦ rw (k, parse, inner) (parse-Parses fuel d current _ cs fits)
        ]
        | inr (inl k) ↦ rw (k, parse) (parse-Parses fuel depth current result cs fits)
        | inr (inr k) ↦ elim (Bool-cases (depth == 2)) [
          | inr outside ↦ rw (k, parse, outside) (_, refl)
          | inl inside ↦ elim (Option-cases (read_float (c ∷ cs))) [
            | inl bad ↦ rw (k, parse, inside, bad) (_, refl)
            | inr ((value, rest), reads) ↦
                rw (k, parse, inside, reads)
                  (parse-Parses fuel depth (current ++ (value ∷ [])) result rest
                    (omega (arith, enough, consumes (c ∷ cs) rest value reads)))
          ]
        ]
      ]

  -- returns
  pub parse_vvf-returns : (input : List ℕ) → (r : Parsed D) × (parse_vvf read_float input ≡ some r)
  unfolding parse_vvf
  parse_vvf-returns input = parse-Parses (suc (length input)) 0 [] [] input (omega arith)
