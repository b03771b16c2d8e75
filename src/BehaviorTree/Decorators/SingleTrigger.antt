-- ===== src/BehaviorTree/Decorators/SingleTrigger.antt =====
-- nav3d_behavior_tree/plugins/decorator/single_trigger_node.cpp.
use nav2_3d.Prelude.{ℕ, ◌+◌, ◌≤◌, ◌≡◌, Bool, true, false, not, if◌then◌else◌, arith, List, [], ◌∷◌}
use nav2_3d.BehaviorTree.{
  NodeStatus, idle, running, success, failure, skipped, BtNode, Outcome, returned, Ticked,
}

-- The member `first_time_`.
pub record SingleTrigger : Type 0 where
  pub first_time : Bool

module _ {ℓ} {W : Type ℓ} (bt : BtNode W) where
  open bt use {execute_tick, status, set_status, is_status_active}

  -- The `switch` on the child's status.
  after_child : NodeStatus → SingleTrigger → W → Ticked SingleTrigger W
  after_child skipped s w = record { outcome = returned skipped; node = s; world = w }
  after_child running s w = record { outcome = returned running; node = s; world = w }
  after_child failure s w = record {
    outcome = returned failure;
    node = record { first_time = false };
    world = w;
  }
  after_child success s w = record {
    outcome = returned success;
    node = record { first_time = false };
    world = w;
  }
  after_child idle s w = record {
    outcome = returned failure;
    node = record { first_time = false };
    world = w;
  }

  pub tick : SingleTrigger → W → Ticked SingleTrigger W
  unfolding after_child
  tick s w =
      let s' : SingleTrigger =
        if not (is_status_active (status w)) then record { first_time = true } else s in
      let w1 = set_status running w in
      if s'.first_time
      then (let (child_state, w2) = execute_tick 0 w1 in after_child child_state s' w2)
      else record { outcome = returned failure; node = s'; world = w1 }

  -- A run of ticks, with changes of the world before each, in which every tick finds the node active.
  abbrev pub StaysActive : List (W → W) → SingleTrigger → W → Type 0
  StaysActive [] s w = Unit
  StaysActive (f ∷ fs) s w =
      (is_status_active (status (f w)) ≡ true)
      × (let t = tick s (f w) in StaysActive fs t.node t.world)

  abbrev succeeded : Outcome → ℕ
  succeeded (returned success) = 1
  succeeded _ = 0

  -- How many ticks of the run return SUCCESS.
  pub successes : List (W → W) → SingleTrigger → W → ℕ
  successes [] s w = 0
  successes (f ∷ fs) s w = let t = tick s (f w) in succeeded t.outcome + successes fs t.node t.world

  abbrev left : SingleTrigger → ℕ
  left s = if s.first_time then 1 else 0

  tick-left :
      (s : SingleTrigger) (w : W)
      → is_status_active (status w) ≡ true
      → succeeded (tick s w).outcome + left (tick s w).node ≤ left s
  unfolding tick
  tick-left s w on = ground arith

  successes-left :
      (fs : List (W → W)) (s : SingleTrigger) (w : W)
      → StaysActive fs s w
      → successes fs s w ≤ left s
  unfolding successes
  successes-left [] s w h = ground arith
  successes-left (f ∷ fs) s w h =
      let t = tick s (f w) in
      let here = tick-left s (f w) h.0 in
      let rest = successes-left fs t.node t.world h.1 in omega (arith, here, rest)

  -- In a run of ticks of a SingleTrigger that all find the node active, with any changes of the
  -- world before each, at most one returns SUCCESS.
  pub successes-once :
      (fs : List (W → W)) (s : SingleTrigger) (w : W) → StaysActive fs s w → successes fs s w ≤ 1
  successes-once fs s w h = ground (arith, successes-left fs s w h)
