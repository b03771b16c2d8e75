-- ===== src/Controller/Checkers/Reached.antt =====
-- SimpleGoalChecker over many calls (nav3d_controller/plugins/simple_goal_checker.cpp).
use nav2_3d.Prelude.{◌≡◌, refl, Bool, true, false, not, ◌&&◌, ◌||◌, List, [], ◌∷◌, arith}
use nav2_3d.Controller.{Pose}
use nav2_3d.Controller.Checkers.{Measures, SimpleGoalChecker, is_close, is_aligned, is_goal_reached}

module _ {D Q : Type 0} (measures : Measures D Q) (goal : Pose D Q) where
  -- The answers of a stateful checker to a sequence of poses, for one goal.
  pub answers : List (Pose D Q) → SimpleGoalChecker D → List Bool
  answers [] c = []
  answers (query ∷ queries) c =
      let (reached, c') = is_goal_reached measures c query goal in reached ∷ answers queries c'

  -- The pose is aligned, and this or an earlier one was close.
  pub expected : (close aligned : Pose D Q → Bool) → Bool → List (Pose D Q) → List Bool
  expected close aligned was_close [] = []
  expected close aligned was_close (query ∷ queries) =
      let now_close = was_close || close query in
      (now_close && aligned query) ∷ expected close aligned now_close queries

  -- For one goal and any sequence of poses, a stateful SimpleGoalChecker answers at each pose
  -- whether it is aligned with the goal and this pose or an earlier one of the sequence was close
  -- to the goal, where a checker that has stopped testing the position counts as one that was
  -- close.
  pub answers-expected :
      (queries : List (Pose D Q)) (c : SimpleGoalChecker D)
      → c.stateful ≡ true
      → answers queries c
        ≡ expected
            (λ q. is_close measures c q goal)
            (λ q. is_aligned measures c q goal)
            (not c.check_xyz)
            queries
  unfolding answers expected is_goal_reached is_close is_aligned
  answers-expected [] c latching = refl
  answers-expected (query ∷ queries) c latching = ground (
    arith,
    answers-expected queries c latching,
    answers-expected queries (record c { check_xyz = false }) latching,
  )
