-- ===== src/BehaviorTree/Decorators/GoalUpdatedController.antt =====
-- nav3d_behavior_tree/plugins/decorator/goal_updated_controller.cpp.
use nav2_3d.Prelude.{ℕ, ◌+◌, ◌≡◌, Bool, true, false, not, ◌||◌, Option, Eq, if◌then◌else◌, arith}
use nav2_3d.BehaviorTree.{running, BtNode, returned, Ticked, get_input}
use nav2_3d.BehaviorTree.Decorators.{Counts, is_running}

-- A goal `G` and a list of goals `L`: the values of the ports, or of the blackboard's entries, "goal"
-- and "goals", and the values that the C++ variables start with.
pub record Goals {ℓ} (G L : Type 0) (W : Type ℓ) : Type ℓ where
  pub goal_port : W → Option G
  pub goals_port : W → Option L
  pub no_goal : G
  pub no_goals : L

module _ {ℓ} {G L : Type 0} {W : Type ℓ} (goals : Goals G L W) where
  open goals use {goal_port, goals_port, no_goal, no_goals}

  abbrev pub current_goal : W → G
  current_goal w = get_input (goal_port w) no_goal

  abbrev pub current_goals : W → L
  current_goals w = get_input (goals_port w) no_goals

-- The members.
pub record GoalUpdatedController (G L : Type 0) : Type 0 where
  pub goal_was_updated : Bool
  pub goal : G
  pub goals : L

module _ {ℓ} {G L : Type 0} {W : Type ℓ} ⦃eg : Eq G⦄ ⦃el : Eq L⦄ (bt : BtNode W)
    (goals : Goals G L W) where
  open bt use {execute_tick, child_status, status, set_status, is_status_active}

  -- What an inactive node does first.
  begin : GoalUpdatedController G L → W → GoalUpdatedController G L
  begin s w =
      if not (is_status_active (status w))
      then record {
        goal_was_updated = true;
        goal = get_input (goals.goal_port w) s.goal;
        goals = get_input (goals.goals_port w) s.goals;
      }
      else s

  -- The goals are compared with those seen last.
  compare_goals : GoalUpdatedController G L → W → GoalUpdatedController G L
  compare_goals s w =
      if not (eg.beq s.goal (current_goal goals w)) || not (el.beq s.goals (current_goals goals w))
      then record {
        goal_was_updated = true;
        goal = current_goal goals w;
        goals = current_goals goals w;
      }
      else s

  pub tick : GoalUpdatedController G L → W → Ticked (GoalUpdatedController G L) W
  unfolding begin compare_goals
  tick s w =
      let w1 = set_status running w in
      let s2 = compare_goals (begin s w) w1 in
      if is_running (child_status 0 w1) || s2.goal_was_updated
      then (let (child_state, w2) = execute_tick 0 w1 in
          record {
            outcome = returned child_state;
            node = record s2 { goal_was_updated = false };
            world = w2;
          })
      else record { outcome = returned (status w1); node = s2; world = w1 }

  -- An active GoalUpdatedController with no update outstanding ticks its child, and once, if and
  -- only if the child is running or the goal or the goals differ from those it saw last; an
  -- inactive node ticks it once. Afterwards no update is outstanding and the node has seen the
  -- current goal and goals. setStatus ticks no child.
  pub tick-updated :
      (ticks : W → ℕ)
      → Counts bt ticks
      → (s : GoalUpdatedController G L) (w : W)
      → let w1 = set_status running w in
        let t = tick s w in
        (is_status_active (status w) ≡ false → ticks t.world ≡ ticks w + 1)
        × (is_status_active (status w) ≡ true
            → s.goal_was_updated ≡ false
            → ticks t.world ≡ (
                if is_running (child_status 0 w1)
                  || not (eg.beq s.goal (current_goal goals w1))
                  || not (el.beq s.goals (current_goals goals w1))
                then ticks w + 1
                else ticks w))
        × (s.goal_was_updated ≡ false → t.node.goal_was_updated ≡ false)
        × (t.node.goal ≡ current_goal goals w1)
        × (t.node.goals ≡ current_goals goals w1)
  unfolding tick begin compare_goals
  tick-updated ticks counts s w =
      let w1 = set_status running w in
      ground (
        arith,
        counts.set_status_quiet running w,
        counts.tick_counts w1,
        eg.beq_iff s.goal (current_goal goals w1),
        el.beq_iff s.goals (current_goals goals w1),
        eg.beq_iff (get_input (goals.goal_port w) s.goal) (current_goal goals w1),
        el.beq_iff (get_input (goals.goals_port w) s.goals) (current_goals goals w1),
      )
