-- ===== src/Utilities/Strings.antt =====
-- nav3d_util/src/string_utils.cpp. A string is a list of characters `C`.
use nav2_3d.Prelude.{
  false, Eq, contains, if◌then◌else◌, Bool-cases, beq_self, inl, inr, ◌≡◌, refl, ap, sym, ◌∙◌, List,
  [], ◌∷◌, ◌++◌, All, arith,
}

module _ {C : Type 0} ⦃e : Eq C⦄ where
  unfoldable pub strip_leading_slash : C → List C → List C
  strip_leading_slash slash [] = []
  strip_leading_slash slash (c ∷ cs) =
      if e.beq c slash then strip_leading_slash slash cs else c ∷ cs

  -- The `while` loop of `split`: `token` is what stands between `current_pos` and the rest.
  unfoldable pub split_from : C → List C → List C → List (List C)
  split_from delimiter token [] = token ∷ []
  split_from delimiter token (c ∷ cs) =
      if e.beq c delimiter
      then token ∷ split_from delimiter [] cs
      else split_from delimiter (token ++ (c ∷ [])) cs

  unfoldable pub split : C → List C → List (List C)
  unfolding split_from
  split delimiter tokenstring = split_from delimiter [] tokenstring

  -- The tokens with the delimiter between them.
  abbrev pub join : C → List (List C) → List C
  join delimiter [] = []
  join delimiter (t ∷ []) = t
  join delimiter (t ∷ (t' ∷ ts)) = t ++ (delimiter ∷ join delimiter (t' ∷ ts))

  -- The delimiter does not occur.
  abbrev pub Free : C → List C → Type 0
  Free delimiter t = contains t delimiter ≡ false

  append-nil : (xs : List C) → (xs ++ []) ≡ xs
  append-nil [] = refl
  append-nil (x ∷ xs) = ap (λ ys. x ∷ ys) (append-nil xs)

  append-one : (xs : List C) (c : C) (ys : List C) → ((xs ++ (c ∷ [])) ++ ys) ≡ xs ++ (c ∷ ys)
  append-one [] c ys = refl
  append-one (x ∷ xs) c ys = ap (λ zs. x ∷ zs) (append-one xs c ys)

  contains-append-one :
      (xs : List C) (c d : C)
      → contains xs d ≡ false
      → e.beq c d ≡ false
      → contains (xs ++ (c ∷ [])) d ≡ false
  unfolding contains
  contains-append-one [] c d absent other = ground (arith, other)
  contains-append-one (x ∷ xs) c d absent other =
      ground (arith, contains-append-one xs c d (ground (arith, absent)) other)

  split_from-cons :
      (d : C) (token s : List C)
      → (t : List C) × (ts : List (List C)) × (split_from d token s ≡ t ∷ ts)
  unfolding split_from
  split_from-cons d token [] = (token, [], refl)
  split_from-cons d token (c ∷ cs) = elim (Bool-cases (e.beq c d)) [
    | inl same ↦ rw (same, split_from) (token, split_from d [] cs, refl)
    | inr other ↦ rw (other, split_from) (split_from-cons d (token ++ (c ∷ [])) cs)
  ]

  join-cons :
      (d : C) (token : List C) (ts : List (List C)) (u : List C) (us : List (List C))
      → ts ≡ u ∷ us
      → join d (token ∷ ts) ≡ token ++ (d ∷ join d ts)
  join-cons d token ts u us shape = rw (shape) refl

  join-split_from : (d : C) (token s : List C) → join d (split_from d token s) ≡ token ++ s
  unfolding split_from
  join-split_from d token [] = sym (append-nil token)
  join-split_from d token (c ∷ cs) = elim (Bool-cases (e.beq c d)) [
    | inl same ↦
        let (u, us, shape) = split_from-cons d [] cs in
        rw (same, split_from)
          (join-cons d token (split_from d [] cs) u us shape
            ∙ (ap (λ x. token ++ (d ∷ x)) (join-split_from d [] cs)
                ∙ ap (λ x. token ++ (x ∷ cs)) (sym ((e.beq_iff c d).0 same))))
    | inr other ↦
        rw (other, split_from) (join-split_from d (token ++ (c ∷ [])) cs ∙ append-one token c cs)
  ]

  split_from-Free : (d : C) (token s : List C) → Free d token → All (Free d) (split_from d token s)
  unfolding split_from contains
  split_from-Free d token [] free = (free, tt)
  split_from-Free d token (c ∷ cs) free = elim (Bool-cases (e.beq c d)) [
    | inl same ↦ rw (same, split_from) (free, split_from-Free d [] cs refl)
    | inr other ↦
        rw (other, split_from)
          (split_from-Free d (token ++ (c ∷ [])) cs (contains-append-one token c d free other))
  ]

  -- The loop runs over characters that are not the delimiter.
  split_from-append :
      (d : C) (token t rest : List C)
      → Free d t
      → split_from d token (t ++ rest) ≡ split_from d (token ++ t) rest
  unfolding split_from contains
  split_from-append d token [] rest free = ap (λ x. split_from d x rest) (sym (append-nil token))
  split_from-append d token (c ∷ cs) rest free =
      let other : e.beq c d ≡ false = ground (arith, free) in
      rw (other, split_from)
        (split_from-append d (token ++ (c ∷ [])) cs rest (ground (arith, free))
          ∙ ap (λ x. split_from d x rest) (append-one token c cs))

  delimited :
      (d : C) (t s : List C) (ts : List (List C))
      → split_from d [] s ≡ ts
      → split_from d t (d ∷ s) ≡ t ∷ ts
  unfolding split_from
  delimited d t s ts rest = rw (beq_self d, split_from) (ap (λ x. t ∷ x) rest)

  split_from-join :
      (d : C) (t : List C) (ts : List (List C))
      → All (Free d) (t ∷ ts)
      → split_from d [] (join d (t ∷ ts)) ≡ t ∷ ts
  unfolding split_from
  split_from-join d t [] (free, _) =
      ap (split_from d []) (sym (append-nil t)) ∙ split_from-append d [] t [] free
  split_from-join d t (t' ∷ ts) (free, rest) =
      split_from-append d [] t (d ∷ join d (t' ∷ ts)) free
      ∙ delimited d t (join d (t' ∷ ts)) (t' ∷ ts) (split_from-join d t' ts rest)

  -- The tokens that split gives contain no delimiter and joined by it give the string again; and
  -- tokens with no delimiter, at least one, joined by it are split into themselves.
  pub split-join :
      (delimiter : C)
      → ((s : List C)
          → (join delimiter (split delimiter s) ≡ s) × All (Free delimiter) (split delimiter s))
        × ((t : List C) (ts : List (List C))
            → All (Free delimiter) (t ∷ ts)
            → split delimiter (join delimiter (t ∷ ts)) ≡ t ∷ ts)
  unfolding split contains
  split-join delimiter = (
    (λ s. (join-split_from delimiter [] s, split_from-Free delimiter [] s refl)),
    split_from-join delimiter,
  )
