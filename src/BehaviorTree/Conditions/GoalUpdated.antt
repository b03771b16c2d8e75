-- ===== src/BehaviorTree/Conditions/GoalUpdated.antt =====
-- nav3d_behavior_tree/plugins/condition/goal_updated_condition.cpp and globally_updated_goal_condition.cpp.
use nav2_3d.Prelude.{
  ap, ◌∙◌, ◌≡◌, ◌≢◌, ◌⊎◌, inl, inr, Bool, true, false, not, ◌||◌, some, Eq, if◌then◌else◌, arith,
}
use nav2_3d.BehaviorTree.{NodeStatus, success, failure, BtNode, get_input}
use nav2_3d.BehaviorTree.Decorators.GoalUpdatedController.{Goals, current_goal, current_goals}

-- The members `goal_` and `goals_` of both conditions, and `first_time`, which only the second one has.
pub record GoalUpdated (G L : Type 0) : Type 0 where
  pub first_time : Bool
  pub goal : G
  pub goals : L

module _ {ℓ} {G L : Type 0} {W : Type ℓ} ⦃eg : Eq G⦄ ⦃el : Eq L⦄ (bt : BtNode W)
    (goals : Goals G L W) where
  -- The goals of the ports are remembered, where the ports have them.
  remember : GoalUpdated G L → W → GoalUpdated G L
  remember s w = record s {
    goal = get_input (goals.goal_port w) s.goal;
    goals = get_input (goals.goals_port w) s.goals;
  }

  -- SUCCESS where the current goals differ from those that are remembered, and then they are remembered.
  compare : GoalUpdated G L → W → NodeStatus × GoalUpdated G L
  compare s w =
      if not (eg.beq s.goal (current_goal goals w)) || not (el.beq s.goals (current_goals goals w))
      then (success, record s { goal = current_goal goals w; goals = current_goals goals w })
      else (failure, s)

  pub goal_updated : GoalUpdated G L → W → NodeStatus × GoalUpdated G L
  unfolding remember compare
  goal_updated s w =
      if not (bt.is_status_active (bt.status w)) then (failure, remember s w) else compare s w

  pub globally_updated_goal : GoalUpdated G L → W → NodeStatus × GoalUpdated G L
  unfolding remember compare
  globally_updated_goal s w =
      if s.first_time then (success, remember (record s { first_time = false }) w) else compare s w

  -- A tick remembers the goals of the ports.
  goal_updated-remembers :
      (s : GoalUpdated G L) (w : W) (g : G) (l : L)
      → goals.goal_port w ≡ some g
      → goals.goals_port w ≡ some l
      → let s1 = (goal_updated s w).1 in
        let s2 = (globally_updated_goal s w).1 in
        ((s1.goal ≡ g) × (s1.goals ≡ l))
        × ((s2.goal ≡ g) × (s2.goals ≡ l) × (s2.first_time ≡ false))
  unfolding goal_updated globally_updated_goal remember compare
  goal_updated-remembers s w g l pg pl = ground (arith, eg.beq_iff s.goal g, el.beq_iff s.goals l)

  goal_updated-active :
      (s : GoalUpdated G L) (w : W)
      → bt.is_status_active (bt.status w) ≡ true
      → goal_updated s w ≡ compare s w
  unfolding goal_updated
  goal_updated-active s w on = ground arith

  globally-later :
      (s : GoalUpdated G L) (w : W) → s.first_time ≡ false → globally_updated_goal s w ≡ compare s w
  unfolding globally_updated_goal
  globally-later s w later = ground arith

  -- The comparison, where the ports have both values.
  compares :
      (s : GoalUpdated G L) (w : W) (g g' : G) (l l' : L)
      → s.goal ≡ g
      → s.goals ≡ l
      → goals.goal_port w ≡ some g'
      → goals.goals_port w ≡ some l'
      → ((g ≢ g') ⊎ (l ≢ l') → (compare s w).0 ≡ success)
        × (g ≡ g' → l ≡ l' → (compare s w).0 ≡ failure)
  unfolding compare
  compares s w g g' l l' has_goal has_goals pg pl = (
    λ changed. elim changed [
      | inl other ↦ ground (arith, eg.beq_iff s.goal g')
      | inr other ↦ ground (arith, el.beq_iff s.goals l')
    ],
    λ g_same l_same. ground (arith, eg.beq_iff s.goal g', el.beq_iff s.goals l'),
  )

  -- Where the ports have a goal and goals at one tick and at the next one, which finds the node
  -- active: the next tick of GoalUpdatedCondition returns SUCCESS if the goal or the goals have
  -- changed and FAILURE if not. The same holds of GloballyUpdatedGoalCondition, active or not.
  pub goal_updated-changed :
      (s : GoalUpdated G L) (w w' : W) (g g' : G) (l l' : L)
      → goals.goal_port w ≡ some g
      → goals.goals_port w ≡ some l
      → goals.goal_port w' ≡ some g'
      → goals.goals_port w' ≡ some l'
      → bt.is_status_active (bt.status w') ≡ true
      → let s1 = (goal_updated s w).1 in
        let s2 = (globally_updated_goal s w).1 in
        ((g ≢ g') ⊎ (l ≢ l')
          → ((goal_updated s1 w').0 ≡ success) × ((globally_updated_goal s2 w').0 ≡ success))
        × (g ≡ g'
            → l ≡ l'
            → ((goal_updated s1 w').0 ≡ failure) × ((globally_updated_goal s2 w').0 ≡ failure))
  unfolding compare
  goal_updated-changed s w w' g g' l l' pg pl pg' pl' on =
      let s1 = (goal_updated s w).1 in
      let s2 = (globally_updated_goal s w).1 in
      let (one, two) = goal_updated-remembers s w g l pg pl in
      let first = compares s1 w' g g' l l' one.0 one.1 pg' pl' in
      let second = compares s2 w' g g' l l' two.0 two.1 pg' pl' in
      let e1 : goal_updated s1 w' ≡ compare s1 w' = goal_updated-active s1 w' on in
      let e2 : globally_updated_goal s2 w' ≡ compare s2 w' = globally-later s2 w' two.2 in
      (
        λ changed. (ap (λ r. r.0) e1 ∙ first.0 changed, ap (λ r. r.0) e2 ∙ second.0 changed),
        λ g_same l_same.
            (ap (λ r. r.0) e1 ∙ first.1 g_same l_same, ap (λ r. r.0) e2 ∙ second.1 g_same l_same),
      )
