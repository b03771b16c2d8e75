-- ===== src/Utilities/Arrays/RoundTrip.antt =====
-- Text that parseVVF reads back, and that it always returns (nav3d_util/src/array_parser.cpp).
use nav2_3d.Prelude.{
  ℕ, ◌<◌, ◌≡◌, refl, ap, sym, ◌∙◌, Option, none, some, List, [], ◌∷◌, ◌++◌, length, subst, arith,
}
use nav2_3d.Utilities.Arrays.Steps.{
  Reaches, reaches, first_open, close-Reaches, separators-Reaches, open-Reaches, last-close,
}
use nav2_3d.Utilities.Arrays.{
  open_bracket, close_bracket, comma, space, number, kind_of, parse, parse_vvf,
}

append-one :
    {A : Type 0} (xs : List A) (v : A) (ys : List A) → ((xs ++ (v ∷ [])) ++ ys) ≡ xs ++ (v ∷ ys)
append-one [] v ys = refl
append-one (x ∷ xs) v ys = ap (λ zs. x ∷ zs) (append-one xs v ys)

append-nil : {A : Type 0} (xs : List A) → (xs ++ []) ≡ xs
append-nil [] = refl
append-nil (x ∷ xs) = ap (λ zs. x ∷ zs) (append-nil xs)

module _ {D : Type 0} (read_float : List ℕ → Option (D × List ℕ)) where
  -- Where a float is read, at least a character is.
  abbrev pub Consumes : Type 0
  Consumes =
      (input rest : List ℕ) (value : D)
      → read_float input ≡ some (value, rest)
      → length rest < length input

  module _ (show : D → List ℕ) where
    -- The text of a number starts with no bracket, comma or space, and is read back up to a comma or a bracket.
    abbrev pub Reads : Type 0
    Reads =
        (v : D)
        → ((c : ℕ) × (cs : List ℕ) × (show v ≡ c ∷ cs) × (kind_of read_float c ≡ number))
          × ((rest : List ℕ) → read_float (show v ++ (comma ∷ rest)) ≡ some (v, comma ∷ rest))
          × ((rest : List ℕ)
              → read_float (show v ++ (close_bracket ∷ rest)) ≡ some (v, close_bracket ∷ rest))

    -- The text of the numbers of a vector, of the vectors, and of all, before the rest.
    abbrev pub show_numbers : List D → List ℕ → List ℕ
    show_numbers [] rest = close_bracket ∷ rest
    show_numbers (v ∷ []) rest = show v ++ (close_bracket ∷ rest)
    show_numbers (v ∷ (v' ∷ vs)) rest = show v ++ (comma ∷ (space ∷ show_numbers (v' ∷ vs) rest))

    abbrev pub show_vectors : List (List D) → List ℕ
    show_vectors [] = close_bracket ∷ []
    show_vectors (vs ∷ []) = open_bracket ∷ show_numbers vs (close_bracket ∷ [])
    show_vectors (vs ∷ (vs' ∷ vvs)) =
        open_bracket ∷ show_numbers vs (comma ∷ (space ∷ show_vectors (vs' ∷ vvs)))

    abbrev pub show_vvf : List (List D) → List ℕ
    show_vvf vvs = open_bracket ∷ show_vectors vvs

    -- A number, before a character at which it ends.
    number-Reaches :
        (fuel : ℕ) (v : D) (current : List D) (result : List (List D)) (rest : List ℕ)
        → ((c : ℕ) × (cs : List ℕ) × (show v ≡ c ∷ cs) × (kind_of read_float c ≡ number))
        → read_float (show v ++ rest) ≡ some (v, rest)
        → length (show v ++ rest) < fuel
        → Reaches read_float fuel 2 current result
            (show v ++ rest)
            2
            (current ++ (v ∷ []))
            result
            rest
    number-Reaches fuel v current result rest (c, cs, shape, k) reads enough =
        reaches read_float fuel (show v) c cs v current result rest shape k reads enough

    -- Inside a vector.
    show_numbers-Reaches :
        Reads
        → (vs : List D) (fuel : ℕ) (rest : List ℕ) (current : List D) (result : List (List D))
        → length (show_numbers vs rest) < fuel
        → Reaches read_float fuel 2 current result
            (show_numbers vs rest)
            1
            (current ++ vs)
            (result ++ ((current ++ vs) ∷ []))
            rest
    show_numbers-Reaches reads [] fuel rest current result enough =
        subst
          (λ x.
            Reaches read_float fuel 2 current result (close_bracket ∷ rest) 1 x (result ++ (x ∷ []))
              rest)
          (sym (append-nil current)) (close-Reaches read_float fuel rest current result enough)
    show_numbers-Reaches reads (v ∷ []) fuel rest current result enough =
        let (fuel1, enough1, eq1) =
          number-Reaches fuel v current result (close_bracket ∷ rest) (reads v).0 ((reads v).2 rest)
            enough in
        let (fuel2, enough2, eq2) =
          close-Reaches read_float fuel1 rest (current ++ (v ∷ [])) result enough1 in
        (fuel2, enough2, eq1 ∙ eq2)
    show_numbers-Reaches reads (v ∷ (v' ∷ vs)) fuel rest current result enough =
        let more = show_numbers (v' ∷ vs) rest in
        let (fuel1, enough1, eq1) =
          number-Reaches fuel v current result (comma ∷ (space ∷ more)) (reads v).0
            ((reads v).1 (space ∷ more)) enough in
        let (fuel2, enough2, eq2) =
          separators-Reaches read_float fuel1 2 more (current ++ (v ∷ [])) result enough1 in
        let (fuel3, enough3, eq3) =
          show_numbers-Reaches reads (v' ∷ vs) fuel2 rest (current ++ (v ∷ [])) result enough2 in
        (
          fuel3,
          enough3,
          eq1
              ∙ (eq2
                  ∙ subst
                      (λ x.
                        parse read_float fuel2 2 (current ++ (v ∷ [])) result more
                        ≡ parse read_float fuel3 1 x (result ++ (x ∷ [])) rest)
                      (append-one current v (v' ∷ vs)) eq3),
        )

    -- The vectors, after the first bracket.
    parse-show_vectors :
        Reads
        → (vvs : List (List D)) (fuel : ℕ) (current : List D) (result : List (List D))
        → length (show_vectors vvs) < fuel
        → parse read_float fuel 1 current result (show_vectors vvs)
          ≡ some (record { result = result ++ vvs; error_return = none })
    parse-show_vectors reads [] fuel current result enough =
        last-close read_float fuel current result enough
        ∙ ap (λ x. some (record { result = x; error_return = none })) (sym (append-nil result))
    parse-show_vectors reads (vs ∷ []) fuel current result enough =
        let (fuel1, enough1, eq1) =
          open-Reaches read_float fuel (show_numbers vs (close_bracket ∷ [])) current result
            enough in
        let (fuel2, enough2, eq2) =
          show_numbers-Reaches reads vs fuel1 (close_bracket ∷ []) [] result enough1 in
        eq1 ∙ (eq2 ∙ last-close read_float fuel2 vs (result ++ (vs ∷ [])) enough2)
    parse-show_vectors reads (vs ∷ (vs' ∷ vvs)) fuel current result enough =
        let more = show_vectors (vs' ∷ vvs) in
        let (fuel1, enough1, eq1) =
          open-Reaches read_float fuel (show_numbers vs (comma ∷ (space ∷ more))) current result
            enough in
        let (fuel2, enough2, eq2) =
          show_numbers-Reaches reads vs fuel1 (comma ∷ (space ∷ more)) [] result enough1 in
        let (fuel3, enough3, eq3) =
          separators-Reaches read_float fuel2 1 more vs (result ++ (vs ∷ [])) enough2 in
        eq1
        ∙ (eq2
            ∙ (eq3
                ∙ (parse-show_vectors reads (vs' ∷ vvs) fuel3 vs (result ++ (vs ∷ [])) enough3
                    ∙ ap (λ x. some (record { result = x; error_return = none }))
                        (append-one result vs (vs' ∷ vvs)))))

    -- Any vector of vectors of numbers, written in brackets with a comma and a space between the
    -- entries, is read back by parseVVF, with no error, if the text of each number starts with no
    -- bracket, comma, space or tab and is read back up to a comma or a closing bracket.
    pub parse_vvf-show_vvf :
        Reads
        → (vvs : List (List D))
        → parse_vvf read_float (show_vvf vvs) ≡ some (record { result = vvs; error_return = none })
    unfolding parse_vvf
    parse_vvf-show_vvf reads vvs =
        first_open read_float (length (show_vvf vvs)) (show_vectors vvs)
        ∙ parse-show_vectors reads vvs (length (show_vvf vvs)) [] [] (omega arith)
