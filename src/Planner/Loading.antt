-- ===== src/Planner/Loading.antt =====
-- The planners that PlannerServer has loaded (nav3d_planner/src/planner_server.cpp).
use nav2_3d.Prelude.{
  Bool, true, false, ◌||◌, Eq, contains, Bool-cases, Option-cases, ◌≡◌, refl, subst, inl, inr,
  Option, none, some, List, [], ◌∷◌, arith, beq_self,
}
use nav2_3d.ActionServer.{Handles}
use nav2_3d.Planner.{Planning, find, emplace, load, configure, effective_id, get_planner_or_throw}

module _ {ℓ} {H I P F R L : Type 0} {W : Type ℓ} ⦃eh : Eq H⦄ ⦃ei : Eq I⦄ ⦃ef : Eq F⦄
    (handles : Handles H W) (planning : Planning H I P F R L W) where
  abbrev pub found : Option L → Bool
  found none = false
  found (some l) = true

  or_swap : (a b c : Bool) → (a || (b || c)) ≡ ((b || a) || c)
  or_swap a b c = ground arith

  or_false : (a b : Bool) → ((a || b) || false) ≡ (a || b)
  or_false a b = ground arith

  emplace-found :
      (i j : I) (l : L) (ps : List (I × L))
      → found (find handles planning j (emplace handles planning i l ps))
        ≡ (ei.beq i j || found (find handles planning j ps))
  unfolding emplace find
  emplace-found i j l ps = elim (Option-cases (find handles planning i ps)) [
    | inl nothing ↦ elim (Bool-cases (ei.beq i j)) [
      | inl same ↦ rw (nothing, emplace, same) refl
      | inr other ↦ rw (nothing, emplace, other) refl
    ]
    | inr (old, there) ↦ elim (Bool-cases (ei.beq i j)) [
      | inr other ↦ rw (there, emplace, other) refl
      | inl same ↦
          let there' : find handles planning j ps ≡ some old =
            subst (λ x. find handles planning x ps ≡ some old) ((ei.beq_iff i j).0 same) there in
          rw (there, emplace, same, there') refl
    ]
  ]

  load-found :
      (is : List I) (ps : List (I × L))
      → (load handles planning is ps).0 ≡ true
      → (j : I)
      → found (find handles planning j (load handles planning is ps).1)
        ≡ (contains is j || found (find handles planning j ps))
  unfolding load contains
  load-found [] ps success j = refl
  load-found (i ∷ is) ps success j = elim (Option-cases (planning.create i)) [
    | inl nothing ↦ absurd (ground (arith, nothing, success))
    | inr (l, made) ↦
        let ps' = emplace handles planning i l ps in
        let more : (load handles planning is ps').0 ≡ true = ground (arith, made, success) in
        let rest = load-found is ps' more j in
        rw (made, load, rest, emplace-found i j l ps) (or_swap (contains is j) (ei.beq i j) _)
  ]

  -- Once the planners are loaded with success, getPlannerOrThrow gives a planner for the empty
  -- name and for every name in planner_plugins, and throws for every other name.
  pub configure-get_planner_or_throw :
      (ids : List I)
      → let r = configure handles planning ids in
        r.0 ≡ true
        → (i : I)
        → found (get_planner_or_throw handles planning r.1 i)
          ≡ (ei.beq i planning.empty_id || contains ids i)
  unfolding configure get_planner_or_throw effective_id contains
  configure-get_planner_or_throw [] success i = absurd (cc)
  configure-get_planner_or_throw (front ∷ ids) success i =
      let all = load-found (front ∷ ids) [] success in
      elim (Bool-cases (ei.beq i planning.empty_id)) [
        | inl empty ↦ rw (empty, get_planner_or_throw, all front, beq_self front) refl
        | inr named ↦
            rw (named, get_planner_or_throw, all i) (or_false (ei.beq front i) (contains ids i))
      ]
