-- ===== src/BehaviorTree/Decorators/GoalUpdater.antt =====
-- nav3d_behavior_tree/plugins/decorator/goal_updater_node.cpp. The subscriptions stay as they are once
-- they are made, and `initialize` is left out.
use nav2_3d.Prelude.{
  is_empty, ℕ, ◌≤◌, ◌≡◌, ◌⊎◌, inl, inr, Bool, true, false, if◌then◌else◌, arith, List, [], ◌∷◌,
  ◌==◌, leb,
}
use nav2_3d.BehaviorTree.{BtNode, returned, Ticked}

-- Messages with a time stamp, in nanoseconds: a goal, and a list of goals.
pub record Goal (P : Type 0) : Type 0 where
  pub stamp : ℕ
  pub pose : P

pub record GoalList (P : Type 0) : Type 0 where
  pub stamp : ℕ
  pub goals : List (Goal P)

-- The members: the messages received last, with the flags that one was.
pub record GoalUpdater (P : Type 0) : Type 0 where
  pub last_goal_received : Goal P
  pub last_goal_received_set : Bool
  pub last_goals_received : GoalList P
  pub last_goals_received_set : Bool

-- The ports, and the messages that `spin_all` hands to the two callbacks, in their order.
pub record Ports {ℓ} (P : Type 0) (W : Type ℓ) : Type ℓ where
  pub input_goal : W → Goal P
  pub input_goals : W → GoalList P
  pub spin_all : W → List (Goal P ⊎ GoalList P) × W
  pub set_output_goal : Goal P → W → W
  pub set_output_goals : GoalList P → W → W

module _ {P : Type 0} where
  callback_updated_goal : Goal P → GoalUpdater P → GoalUpdater P
  callback_updated_goal msg s = record s { last_goal_received = msg; last_goal_received_set = true }

  callback_updated_goals : GoalList P → GoalUpdater P → GoalUpdater P
  callback_updated_goals msg s = record s {
    last_goals_received = msg;
    last_goals_received_set = true;
  }

  pub receive : List (Goal P ⊎ GoalList P) → GoalUpdater P → GoalUpdater P
  unfolding callback_updated_goal callback_updated_goals
  receive [] s = s
  receive (inl msg ∷ msgs) s = receive msgs (callback_updated_goal msg s)
  receive (inr msg ∷ msgs) s = receive msgs (callback_updated_goals msg s)

  -- What is sent to the port "output_goal".
  pub output_goal : GoalUpdater P → Goal P → Goal P
  output_goal s goal =
      if s.last_goal_received_set
      then (if s.last_goal_received.stamp == 0
          then goal
          else (if leb goal.stamp s.last_goal_received.stamp then s.last_goal_received else goal))
      else goal

  -- What is sent to the port "output_goals".
  pub output_goals : GoalUpdater P → GoalList P → GoalList P
  output_goals s goals =
      if s.last_goals_received_set
      then (if is_empty s.last_goals_received.goals
          then goals
          else (if s.last_goals_received.stamp == 0
              then goals
              else (if leb goals.stamp s.last_goals_received.stamp
                  then s.last_goals_received
                  else goals)))
      else goals

module _ {ℓ} {P : Type 0} {W : Type ℓ} (bt : BtNode W) (ports : Ports P W) where
  open ports use {input_goal, input_goals, spin_all, set_output_goal, set_output_goals}

  pub tick : GoalUpdater P → W → Ticked (GoalUpdater P) W
  unfolding receive output_goal output_goals
  tick s w =
      let goal = input_goal w in
      let goals = input_goals w in
      let (msgs, w1) = spin_all w in
      let s' = receive msgs s in
      let w2 =
        set_output_goals (output_goals s' goals) (set_output_goal (output_goal s' goal) w1) in
      let (child_state, w3) = bt.execute_tick 0 w2 in
      record { outcome = returned child_state; node = s'; world = w3 }

module _ {P : Type 0} where
  -- The goal that GoalUpdater sends on is the input or the goal received last, is never older than
  -- the input, and is the received one if that has a time stamp and is not older than the input;
  -- the same holds of the list of goals, where the list received must not be empty.
  pub output-newest :
      (s : GoalUpdater P) (goal : Goal P) (goals : GoalList P)
      → (goal.stamp ≤ (output_goal s goal).stamp)
        × (goals.stamp ≤ (output_goals s goals).stamp)
        × ((output_goal s goal ≡ goal) ⊎ (output_goal s goal ≡ s.last_goal_received))
        × ((output_goals s goals ≡ goals) ⊎ (output_goals s goals ≡ s.last_goals_received))
        × (s.last_goal_received_set ≡ true
            → 1 ≤ s.last_goal_received.stamp
            → goal.stamp ≤ s.last_goal_received.stamp
            → output_goal s goal ≡ s.last_goal_received)
        × (s.last_goals_received_set ≡ true
            → is_empty s.last_goals_received.goals ≡ false
            → 1 ≤ s.last_goals_received.stamp
            → goals.stamp ≤ s.last_goals_received.stamp
            → output_goals s goals ≡ s.last_goals_received)
  unfolding output_goal output_goals
  output-newest s goal goals = ground arith
