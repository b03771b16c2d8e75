-- ===== src/BehaviorTree/ActionNode/Life.antt =====
-- The ticks and halts of a BtActionNode, one after the other
-- (nav3d_behavior_tree/include/nav3d_behavior_tree/bt_action_node.hpp).
use nav2_3d.Prelude.{Bool, true, false, Eq, ◌≡◌, Option, none, some, List, [], ◌∷◌}
use nav2_3d.BehaviorTree.{NodeStatus, running}
use nav2_3d.BehaviorTree.ActionNode.{
  ActionNode, Client, Timeouts, Phase, goes, stops, throws, crashes, tick, halt,
}
use nav2_3d.BehaviorTree.ActionNode.Handles.{Held}

-- What the tree does with the node, after the rest of the world has changed.
pub data Move {ℓ} (W : Type ℓ) : Type ℓ where
  ticks halts : (W → W) → Move W

abbrev is_running : NodeStatus → Bool
is_running running = true
is_running _ = false

module _ {ℓ} {I : Type 0} {W : Type ℓ} ⦃e : Eq I⦄ (client : Client I W) (timeouts : Timeouts) where
  -- Whether the status is running, the members and the world; a tick that throws leaves it running, as
  -- `tick` set it. None is a null handle.
  unfoldable node_after_tick : Phase I W → Option (Bool × ActionNode I × W)
  node_after_tick (goes n w) = some (true, n, w)
  node_after_tick (stops s n w) = some (is_running s, n, w)
  node_after_tick (throws n w) = some (true, n, w)
  node_after_tick crashes = none

  unfoldable node_after_halt : Option (ActionNode I × W) → Option (Bool × ActionNode I × W)
  node_after_halt none = none
  node_after_halt (some (n, w)) = some (false, n, w)

  unfoldable pub move : Move W → Bool × ActionNode I × W → Option (Bool × ActionNode I × W)
  unfolding node_after_tick node_after_halt
  move (ticks f) (active, n, w) = node_after_tick (tick client timeouts active n (f w))
  move (halts f) (active, n, w) = node_after_halt (halt client timeouts active n (f w))

  unfoldable pub continue :
      List (Move W) → Option (Bool × ActionNode I × W) → Option (Bool × ActionNode I × W)
  unfolding move
  continue ms none = none
  continue [] (some s) = some s
  continue (m ∷ ms) (some s) = continue ms (move m s)

  unfoldable pub live : List (Move W) → Bool × ActionNode I × W → Option (Bool × ActionNode I × W)
  unfolding continue
  live ms s = continue ms (some s)

  -- There is no null handle, and a node whose status is running holds a goal.
  abbrev pub Lives : Option (Bool × ActionNode I × W) → Type 0
  Lives none = ⊥
  Lives (some (active, n, w)) = active ≡ true → Held client timeouts n

  -- `halt` looks at the handle before it spins.
  -- A halt ends with the members of the node.
  unfoldable Ends : Option (Bool × ActionNode I × W) → Type ℓ
  Ends o = (r : Bool × ActionNode I × W) × (o ≡ some r)
