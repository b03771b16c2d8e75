-- ===== src/Utilities/Arrays/Steps.antt =====
-- The steps of parseVVF's loop (nav3d_util/src/array_parser.cpp).
use nav2_3d.Prelude.{
  ℕ, zero, suc, ◌<◌, ◌≡◌, refl, sym, Option, none, some, List, [], ◌∷◌, ◌++◌, length, length-append,
  subst, arith,
}
use nav2_3d.Utilities.Arrays.{
  open_bracket, close_bracket, comma, space, number, kind_of, at_end, parse,
}

longer : (text : List ℕ) (c : ℕ) (cs : List ℕ) → text ≡ c ∷ cs → 0 < length text
longer text c cs shape = rw (shape) (omega arith)

module _ {D : Type 0} (read_float : List ℕ → Option (D × List ℕ)) where
  -- The loop comes to the rest with enough fuel left.
  abbrev pub Reaches :
      ℕ → ℕ → List D → List (List D) → List ℕ → ℕ → List D → List (List D) → List ℕ → Type 0
  Reaches fuel depth current result input depth' current' result' rest =
      (fuel' : ℕ) × (length rest < fuel')
      × (parse read_float fuel depth current result input
          ≡ parse read_float fuel' depth' current' result' rest)

  step_number :
      (fuel c : ℕ) (cs rest : List ℕ) (v : D) (current : List D) (result : List (List D))
      → kind_of read_float c ≡ number
      → read_float (c ∷ cs) ≡ some (v, rest)
      → parse read_float (suc fuel) 2 current result (c ∷ cs)
        ≡ parse read_float fuel 2 (current ++ (v ∷ [])) result rest
  unfolding parse
  step_number fuel c cs rest v current result k reads = rw (k, parse, reads) refl

  step_close :
      (fuel : ℕ) (rest : List ℕ) (current : List D) (result : List (List D))
      → parse read_float (suc fuel) 2 current result (close_bracket ∷ rest)
        ≡ parse read_float fuel 1 current (result ++ (current ∷ [])) rest
  unfolding parse kind_of
  step_close fuel rest current result = refl

  step_open :
      (fuel : ℕ) (rest : List ℕ) (current : List D) (result : List (List D))
      → parse read_float (suc fuel) 1 current result (open_bracket ∷ rest)
        ≡ parse read_float fuel 2 [] result rest
  unfolding parse kind_of
  step_open fuel rest current result = refl

  step_separators :
      (fuel depth : ℕ) (rest : List ℕ) (current : List D) (result : List (List D))
      → parse read_float (suc (suc fuel)) depth current result (comma ∷ (space ∷ rest))
        ≡ parse read_float fuel depth current result rest
  unfolding parse kind_of
  step_separators fuel depth rest current result = refl

  last_close :
      (fuel : ℕ) (current : List D) (result : List (List D))
      → parse read_float (suc (suc fuel)) 1 current result (close_bracket ∷ [])
        ≡ some (record { result = result; error_return = none })
  unfolding parse kind_of at_end
  last_close fuel current result = refl

  pub first_open :
      (fuel : ℕ) (rest : List ℕ)
      → parse read_float (suc fuel) 0 [] [] (open_bracket ∷ rest)
        ≡ parse read_float fuel 1 [] [] rest
  unfolding parse kind_of
  first_open fuel rest = refl

  -- The same of any text of a number.
  pub reaches :
      (fuel : ℕ) (text : List ℕ) (c : ℕ) (cs : List ℕ) (v : D) (current : List D)
      (result : List (List D)) (rest : List ℕ)
      → text ≡ c ∷ cs
      → kind_of read_float c ≡ number
      → read_float (text ++ rest) ≡ some (v, rest)
      → length (text ++ rest) < fuel
      → Reaches fuel 2 current result (text ++ rest) 2 (current ++ (v ∷ [])) result rest
  reaches zero text c cs v current result rest shape k reads enough = absurd (omega (arith, enough))
  reaches (suc fuel) text c cs v current result rest shape k reads enough =
      let long : length rest < fuel =
        omega (arith, enough, length-append text rest, longer text c cs shape) in
      (
        fuel,
        long,
        subst
            (λ x.
              parse read_float (suc fuel) 2 current result (x ++ rest)
              ≡ parse read_float fuel 2 (current ++ (v ∷ [])) result rest)
            (sym shape)
            (step_number fuel c (cs ++ rest) rest v current result k
              (subst (λ x. read_float (x ++ rest) ≡ some (v, rest)) shape reads)),
      )

  pub close-Reaches :
      (fuel : ℕ) (rest : List ℕ) (current : List D) (result : List (List D))
      → length (close_bracket ∷ rest) < fuel
      → Reaches fuel 2 current result
          (close_bracket ∷ rest)
          1
          current
          (result ++ (current ∷ []))
          rest
  close-Reaches zero rest current result enough = absurd (omega (arith, enough))
  close-Reaches (suc fuel) rest current result enough =
      (fuel, omega (arith, enough), step_close fuel rest current result)

  pub separators-Reaches :
      (fuel depth : ℕ) (rest : List ℕ) (current : List D) (result : List (List D))
      → length (comma ∷ (space ∷ rest)) < fuel
      → Reaches fuel depth current result (comma ∷ (space ∷ rest)) depth current result rest
  separators-Reaches zero depth rest current result enough = absurd (omega (arith, enough))
  separators-Reaches (suc zero) depth rest current result enough = absurd (omega (arith, enough))
  separators-Reaches (suc (suc fuel)) depth rest current result enough =
      (fuel, omega (arith, enough), step_separators fuel depth rest current result)

  pub last-close :
      (fuel : ℕ) (current : List D) (result : List (List D))
      → 1 < fuel
      → parse read_float fuel 1 current result (close_bracket ∷ [])
        ≡ some (record { result = result; error_return = none })
  last-close zero current result enough = absurd (omega (arith, enough))
  last-close (suc zero) current result enough = absurd (omega (arith, enough))
  last-close (suc (suc fuel)) current result enough = last_close fuel current result

  pub open-Reaches :
      (fuel : ℕ) (rest : List ℕ) (current : List D) (result : List (List D))
      → length (open_bracket ∷ rest) < fuel
      → Reaches fuel 1 current result (open_bracket ∷ rest) 2 [] result rest
  open-Reaches zero rest current result enough = absurd (omega (arith, enough))
  open-Reaches (suc fuel) rest current result enough =
      (fuel, omega (arith, enough), step_open fuel rest current result)
