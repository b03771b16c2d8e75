-- ===== src/Controller/Checkers/Planar.antt =====
-- What the checkers of nav3d_controller/plugins make of the altitude.
use nav2_3d.Prelude.{ℕ, ◌+◌, ◌≡◌, refl, ap, leb, Bool, true, false, some, List, [], ◌∷◌, map, arith}
use nav2_3d.Controller.{Pose}
use nav2_3d.Controller.Checkers.{
  Measures, PositionGoalChecker, Pose2d, ProgressChecker, is_near, is_position_reached, to_pose2d,
  check, reset_baseline_pose, reset_progress,
}

-- The same pose at another altitude.
abbrev pub raised : {D Q : Type 0} → D → Pose D Q → Pose D Q
raised z pose = record pose { position = record pose.position { z = z } }

module _ {D Q : Type 0} (measures : Measures D Q) where
  -- PositionGoalChecker does not look at the altitude.
  pub is_position_reached-altitude :
      (c : PositionGoalChecker D) (query goal : Pose D Q) (z : D)
      → is_position_reached measures c (raised z query) goal
        ≡ is_position_reached measures c query goal
  unfolding is_position_reached is_near
  is_position_reached-altitude c query goal z = refl

  module _ (moved : ProgressChecker D → Pose2d D → Pose2d D → Bool) where
    -- The answers of a checker to poses, each at a time.
    pub checks : List (Pose D Q × ℕ) → ProgressChecker D → List Bool
    checks [] c = []
    checks (query ∷ queries) c =
        let (progress, c') = check measures moved query.0 query.1 c in progress ∷ checks queries c'

    -- Altitudes and times, at one place.
    pub at_altitudes : Pose D Q → List (D × ℕ) → List (Pose D Q × ℕ)
    at_altitudes pose altitudes = map (λ a. (raised a.0 pose, a.1)) altitudes

    checks-from :
        (pose : Pose D Q) (start : ℕ) (c : ProgressChecker D) (altitudes : List (D × ℕ))
        → c.baseline ≡ some (to_pose2d measures pose, start)
        → moved c (to_pose2d measures pose) (to_pose2d measures pose) ≡ false
        → checks (at_altitudes pose altitudes) c
          ≡ map (λ a. leb a.1 (start + c.time_allowance)) altitudes
    unfolding checks at_altitudes check to_pose2d
    checks-from pose start c [] set still = refl
    checks-from pose start c (a ∷ altitudes) set still =
        ground (arith, checks-from pose start c altitudes set still)

    -- Of a progress checker that finds no movement between a pose and itself: after a reset, the
    -- first check answers true, and each later check at the same place, at whatever altitude,
    -- answers true if and only if its time is within the allowance after that of the first,
    -- however far the vehicle climbs.
    pub check-climb :
        (c : ProgressChecker D) (pose : Pose D Q) (start : ℕ) (altitudes : List (D × ℕ))
        → moved
            (reset_baseline_pose measures (to_pose2d measures pose) start c)
            (to_pose2d measures pose)
            (to_pose2d measures pose)
          ≡ false
        → checks ((pose, start) ∷ at_altitudes pose altitudes) (reset_progress measures c)
          ≡ true ∷ map (λ a. leb a.1 (start + c.time_allowance)) altitudes
    unfolding checks check reset_baseline_pose reset_progress
    check-climb c pose start altitudes still =
        ap (λ l. true ∷ l) (checks-from pose start _ altitudes refl still)
