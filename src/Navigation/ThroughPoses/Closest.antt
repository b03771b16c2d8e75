-- ===== src/Navigation/ThroughPoses/Closest.antt =====
-- The pose of the path that is closest to the robot
-- (nav3d_bt_navigator/src/navigators/navigate_through_poses.cpp).
use nav2_3d.Prelude.{
  ℕ, suc, ◌+◌, ◌≡◌, refl, subst, ◌⊎◌, inl, inr, true, false, Bool-cases, some, List, [], ◌∷◌, All,
  get_elem?, arith,
}
use nav2_3d.Prelude.Double.{Doubles}
use nav2_3d.Navigation.ThroughPoses.Feedback.{Sensors, closest_from, find_closest_pose_idx}

-- The laws of `<` on doubles, which hold of NaN too.
pub record IsOrder {D : Type 0} (doubles : Doubles D) : Type 0 where
  pub irreflexive : (a : D) → doubles.lt a a ≡ false
  pub transitive :
      (a b c : D) → doubles.lt a b ≡ true → doubles.lt b c ≡ true → doubles.lt a c ≡ true

module _ {ℓ} {G D : Type 0} {W : Type ℓ} (sensors : Sensors D G W) (order : IsOrder sensors.doubles)
    (current : G) where
  open sensors use {doubles, distance}
  open doubles use {lt}

  abbrev far : G → D
  far pose = distance current pose

  -- No pose is nearer than `d`.
  abbrev NoneBelow : D → List G → Type 0
  NoneBelow d poses = All (λ p. lt (far p) d ≡ false) poses

  -- A pose that is nearer than `d`, and than which none is nearer.
  record Found (poses : List G) (d : D) (idx r : ℕ) : Type 0 where
    offset : ℕ
    nearest : G
    placed : r ≡ idx + offset
    there : get_elem? poses offset ≡ some nearest
    below : lt (far nearest) d ≡ true
    least : NoneBelow (far nearest) poses

  not_below : (a b d : D) → lt a d ≡ false → lt b d ≡ true → lt a b ≡ false
  not_below a b d far_a near_b = elim (Bool-cases (lt a b)) [
    | inl nearer ↦ ground (arith, order.transitive a b d nearer near_b)
    | inr keeps ↦ keeps
  ]

  asymmetric : (a b : D) → lt a b ≡ true → lt b a ≡ false
  asymmetric a b less = elim (Bool-cases (lt b a)) [
    | inl more ↦ ground (arith, order.transitive a b a less more, order.irreflexive a)
    | inr keeps ↦ keeps
  ]

  closest_from-Found :
      (poses : List G) (idx best : ℕ) (d : D)
      → ((closest_from sensors current poses idx best d ≡ best) × NoneBelow d poses)
        ⊎ Found poses d idx (closest_from sensors current poses idx best d)
  unfolding closest_from
  closest_from-Found [] idx best d = inl (refl, tt)
  closest_from-Found (p ∷ ps) idx best d = elim (Bool-cases (lt (far p) d)) [
    | inl nearer ↦ rw nearer (elim (closest_from-Found ps (suc idx) idx (far p)) [
      | inl (same, none_nearer) ↦ inr (record {
        offset = 0;
        nearest = p;
        placed = omega (arith, same);
        there = refl;
        below = nearer;
        least = (order.irreflexive (far p), none_nearer);
      })
      | inr found ↦ inr (record {
        offset = suc found.offset;
        nearest = found.nearest;
        placed = omega (arith, found.placed);
        there = found.there;
        below = order.transitive _ _ _ found.below nearer;
        least = (asymmetric _ _ found.below, found.least);
      })
    ])
    | inr not_nearer ↦ rw not_nearer (elim (closest_from-Found ps (suc idx) best d) [
      | inl (same, none_nearer) ↦ inl (same, (refl, none_nearer))
      | inr found ↦ inr (record {
        offset = suc found.offset;
        nearest = found.nearest;
        placed = omega (arith, found.placed);
        there = found.there;
        below = found.below;
        least = (not_below _ _ d not_nearer found.below, found.least);
      })
    ])
  ]

  -- If no number is below itself, the order of numbers is transitive, and the first pose of the
  -- path is nearer than the largest number: the index that find_closest_pose_idx gives is that of
  -- a pose of the path than which no pose of the path is nearer.
  pub find_closest_pose_idx-least :
      (pose : G) (poses : List G)
      → lt (distance current pose) sensors.largest ≡ true
      → (nearest : G) × (get_elem?
            (pose ∷ poses)
            (find_closest_pose_idx sensors current (pose ∷ poses))
          ≡ some nearest)
        × All (λ p. lt (distance current p) (distance current nearest) ≡ false) (pose ∷ poses)
  unfolding find_closest_pose_idx
  find_closest_pose_idx-least pose poses finite =
      elim (closest_from-Found (pose ∷ poses) 0 0 sensors.largest) [
        | inl (same, none_nearer) ↦ absurd (ground (arith, none_nearer.0))
        | inr found ↦ (
          found.nearest,
          subst (λ r. get_elem? (pose ∷ poses) r ≡ some found.nearest) (omega (arith, found.placed))
              found.there,
          found.least,
        )
      ]
