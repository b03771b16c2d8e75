-- ===== src/BehaviorTree/ActionNode/Examples.antt =====
-- A BtActionNode on a concrete client.
use nav2_3d.Prelude.{
  ℕ, ◌+◌, true, false, Eq, ◌==◌, ==_iff, ltb, if◌then◌else◌, none, some, List, [], ◌∷◌,
}
use nav2_3d.BehaviorTree.{success, failure}
use nav2_3d.BehaviorTree.ActionNode.{
  ActionNode, Client, Timeouts, unknown, succeeded, answered, timed_out,
}
use nav2_3d.BehaviorTree.ActionNode.Life.{Move, ticks, halts}

instance numbers : Eq ℕ
numbers = record { beq = ◌==◌; beq_iff = ==_iff }

-- The world is a clock. Goals have the time as their identifier; the server answers from 10 on, and a
-- result of goal 3 comes at each spin.
abbrev clocked : Client ℕ ℕ
clocked = record {
  ok = λ w. true;
  now = λ w. w;
  send_goal = λ w. (w, w);
  spin_some = λ w. ((3, succeeded) ∷ [], w);
  spin_until = λ sent timeout w.
      ((3, succeeded) ∷ [], if ltb w 10 then timed_out else answered (some sent), w + 1);
  is_pending = λ h w. true;
  cancel = λ h w. w;
  on_tick = λ w. (true, w);
  on_wait_for_result = λ updated w. (updated, w);
  on_success = λ w. (success, w);
  on_aborted = λ w. (failure, w);
  on_cancelled = λ w. (success, w);
  on_timeout = λ w. w;
}

abbrev patient : Timeouts
patient = record { server_timeout = 20; max_timeout = 5 }

abbrev new_node : ActionNode ℕ
new_node = record {
  should_send_goal = false;
  goal_updated = false;
  goal_result_available = false;
  goal_handle = none;
  result = unknown;
  future_goal_handle = none;
  time_goal_sent = 0;
}

-- The goal is sent at 3, accepted after 10, and the node is ticked again after its result.
abbrev moves : List (Move ℕ)
moves =
    ticks (λ w. w + 3) ∷ ticks (λ w. w + 7) ∷ ticks (λ w. w) ∷ halts (λ w. w) ∷ ticks (λ w. w) ∷ []
