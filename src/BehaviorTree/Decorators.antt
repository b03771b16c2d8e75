-- ===== src/BehaviorTree/Decorators.antt =====
-- The decorators of nav3d_behavior_tree/plugins/decorator: each decides at every tick whether it ticks
-- its child, which is child 0 of the parameter.
pub mod SingleTrigger
pub mod RateController
pub mod GoalUpdatedController
pub mod DistanceController
pub mod SpeedController
pub mod PathLongerOnApproach
pub mod GoalUpdater
mod Examples
use nav2_3d.Prelude.{ℕ, ◌+◌, ◌≡◌, Bool, true, false}
use nav2_3d.BehaviorTree.{NodeStatus, running, BtNode}

-- `child_node_->status() == BT::NodeStatus::RUNNING`.
abbrev pub is_running : NodeStatus → Bool
is_running running = true
is_running _ = false

-- `ticks` counts the ticks of the child: a tick of it adds one and `setStatus` none.
pub record Counts {ℓ} {W : Type ℓ} (bt : BtNode W) (ticks : W → ℕ) : Type ℓ where
  pub tick_counts : (w : W) → ticks (bt.execute_tick 0 w).1 ≡ ticks w + 1
  pub set_status_quiet : (s : NodeStatus) (w : W) → ticks (bt.set_status s w) ≡ ticks w

-- What lies around the node is read and written without a tick of the child.
abbrev pub IsQuiet {ℓ κ} : {W : Type ℓ} {A : Type κ} → (W → ℕ) → (W → A × W) → Type ℓ
IsQuiet {W = W} ticks read = (w : W) → ticks (read w).1 ≡ ticks w
