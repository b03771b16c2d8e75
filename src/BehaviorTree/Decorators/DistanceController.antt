-- ===== src/BehaviorTree/Decorators/DistanceController.antt =====
-- nav3d_behavior_tree/plugins/decorator/distance_controller.cpp.
use nav2_3d.Prelude.{
  ℕ, ◌+◌, ◌≡◌, Bool, true, false, not, ◌||◌, Option, none, some, if◌then◌else◌, arith,
}
use nav2_3d.Prelude.Double.{Doubles}
use nav2_3d.BehaviorTree.{
  NodeStatus, idle, running, success, failure, skipped, BtNode, returned, Ticked,
}
use nav2_3d.BehaviorTree.Decorators.{Counts, IsQuiet, is_running}

-- The members; the frames and the tolerance go into `get_current_pose`.
pub record DistanceController (D P : Type 0) : Type 0 where
  pub distance : D
  pub start_pose : P
  pub first_time : Bool

-- nav3d_util::getCurrentPose of the node's frames, none where it returns false, and
-- geometry_utils::euclidean_distance of two poses.
pub record Positions {ℓ} (D P : Type 0) (W : Type ℓ) : Type ℓ where
  pub get_current_pose : W → Option P × W
  pub euclidean_distance : P → P → D

module _ {ℓ} {W : Type ℓ} {D P : Type 0} (bt : BtNode W) (doubles : Doubles D)
    (positions : Positions D P W) where
  open bt use {execute_tick, child_status, status, set_status, is_status_active}
  open positions use {get_current_pose, euclidean_distance}

  -- A pose that is not available ends the tick.
  unavailable : DistanceController D P → W → Ticked (DistanceController D P) W
  unavailable s w = record { outcome = returned failure; node = s; world = w }

  -- The `switch` on the child's status.
  after_child : NodeStatus → DistanceController D P → W → Ticked (DistanceController D P) W
  unfolding unavailable
  after_child skipped s w = record { outcome = returned skipped; node = s; world = w }
  after_child running s w = record { outcome = returned running; node = s; world = w }
  after_child success s w =
      let (pose, w') = get_current_pose w in
      elim pose [
        | none ↦ unavailable s w'
        | some p ↦ record {
          outcome = returned success;
          node = record s { start_pose = p };
          world = w';
        }
      ]
  after_child failure s w = record { outcome = returned failure; node = s; world = w }
  after_child idle s w = record { outcome = returned failure; node = s; world = w }

  -- The test that lets the child be ticked, at pose `p`.
  pub far_enough : DistanceController D P → P → W → Bool
  far_enough s p w =
      s.first_time
      || is_running (child_status 0 w)
      || doubles.le s.distance (euclidean_distance s.start_pose p)

  -- The tick from `setStatus(RUNNING)` on.
  go_on : DistanceController D P → W → Ticked (DistanceController D P) W
  unfolding unavailable after_child far_enough
  go_on s w =
      let (pose, w1) = get_current_pose (set_status running w) in
      elim pose [
        | none ↦ unavailable s w1
        | some p ↦
            if far_enough s p w1
            then (let (child_state, w2) = execute_tick 0 w1 in
                after_child child_state (record s { first_time = false }) w2)
            else record { outcome = returned (status w1); node = s; world = w1 }
      ]

  pub tick : DistanceController D P → W → Ticked (DistanceController D P) W
  unfolding unavailable go_on
  tick s w =
      if not (is_status_active (status w))
      then (let (pose, w') = get_current_pose w in
          elim pose [
            | none ↦ unavailable s w'
            | some p ↦ go_on (record s { start_pose = p; first_time = true }) w'
          ])
      else go_on s w

  -- An active DistanceController ticks its child, and once, if and only if the current pose is
  -- available and this is the first time, the child is running, or the distance from start_pose_
  -- is reached; with no pose it returns FAILURE. Neither setStatus nor the pose ticks the child.
  pub tick-travelled :
      (ticks : W → ℕ)
      → Counts bt ticks
      → IsQuiet ticks get_current_pose
      → (s : DistanceController D P) (w : W) → is_status_active (status w) ≡ true
      → let r = get_current_pose (set_status running w) in
        (r.0 ≡ none → (ticks (tick s w).world ≡ ticks w) × ((tick s w).outcome ≡ returned failure))
        × ((p : P)
            → r.0 ≡ some p
            → ticks (tick s w).world ≡ (if far_enough s p r.1 then ticks w + 1 else ticks w))
  unfolding tick go_on unavailable after_child
  tick-travelled ticks counts quiet s w on =
      let w1 = (get_current_pose (set_status running w)).1 in
      let w2 = (execute_tick 0 w1).1 in
      ground (
        arith,
        counts.set_status_quiet running w,
        quiet (set_status running w),
        counts.tick_counts w1,
        quiet w2,
      )
