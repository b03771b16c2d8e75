-- ===== src/BehaviorTree/Conditions/Distances.antt =====
-- The conditions of nav3d_behavior_tree/plugins/condition on distances: goal_reached_condition.cpp,
-- are_poses_near_condition.cpp and distance_traveled_condition.cpp.
use nav2_3d.Prelude.{◌≡◌, refl, Bool, false, not, Eq, if◌then◌else◌, Option, none, some}
use nav2_3d.Prelude.Double.{Doubles}
use nav2_3d.Controller.{Vector}
use nav2_3d.BehaviorTree.{NodeStatus, success, failure, BtNode, get_input}

-- geometry_msgs::msg::PoseStamped, of which the frame and the position are read.
pub record PoseStamped (F D : Type 0) : Type 0 where
  pub frame_id : F
  pub position : Vector D

-- The ports, the parameters, the transforms and the distance in three dimensions. A port that has no
-- value leaves the pose as it was made, in the frame that the default names.
pub record Poses {ℓ} (F D : Type 0) (W : Type ℓ) : Type ℓ where
  pub doubles : Doubles D
  pub default_pose : PoseStamped F D
  pub goal_port : W → Option (PoseStamped F D)
  pub ref_pose_port : W → Option (PoseStamped F D)
  pub target_pose_port : W → Option (PoseStamped F D)
  pub tolerance_port : W → Option D
  pub distance_port : W → Option D
  pub goal_reached_tol : W → D
  pub get_current_pose : F → W → Option (PoseStamped F D) × W
  pub transform_pose : PoseStamped F D → W → Option (PoseStamped F D) × W
  pub euclidean_distance : Vector D → Vector D → D

abbrev pub verdict : Bool → NodeStatus
verdict b = if b then success else failure

-- `start_pose_` and `distance_`.
pub record DistanceTraveled (F D : Type 0) : Type 0 where
  pub start_pose : PoseStamped F D
  pub distance : D

module _ {ℓ} {F D : Type 0} {W : Type ℓ} ⦃e : Eq F⦄ (bt : BtNode W) (ports : Poses F D W) where
  open ports use {doubles, get_current_pose, transform_pose, euclidean_distance}
  open doubles use {zero, add, sub, mul, lt, le}

  -- The sum of two squares that two of the conditions compare with a tolerance.
  unfoldable pub is_within : Vector D → Vector D → D → Bool
  is_within a b tol =
      let dx = sub a.x b.x in let dy = sub a.y b.y in le (add (mul dx dx) (mul dy dy)) (mul tol tol)

  -- GoalReachedCondition, with the tolerance that its initialisation read.
  unfoldable pub is_goal_reached : D → W → Bool × W
  unfolding is_within
  is_goal_reached goal_reached_tol w =
      let goal = get_input (ports.goal_port w) ports.default_pose in
      let (current_pose, w') = get_current_pose goal.frame_id w in
      elim current_pose [
        | none ↦ (false, w')
        | some pose ↦ (is_within goal.position pose.position goal_reached_tol, w')
      ]

  -- The status, the tolerance that is kept, and the world.
  unfoldable pub goal_reached_tick : D → W → NodeStatus × D × W
  unfolding is_goal_reached
  goal_reached_tick kept w =
      let tol : D =
        if not (bt.is_status_active (bt.status w)) then ports.goal_reached_tol w else kept in
      let (reached, w') = is_goal_reached tol w in (verdict reached, tol, w')

  -- ArePosesNearCondition: both poses in one frame, if they can be brought there.
  unfoldable pub in_one_frame :
      PoseStamped F D → PoseStamped F D → W → Option (PoseStamped F D × PoseStamped F D) × W
  in_one_frame pose1 pose2 w =
      if e.beq pose1.frame_id pose2.frame_id
      then (some (pose1, pose2), w)
      else (let (moved1, w1) = transform_pose pose1 w in
          elim moved1 [
            | none ↦ (none, w1)
            | some p1 ↦
                let (moved2, w2) = transform_pose pose2 w1 in
                elim moved2 [ none ↦ (none, w2) | some p2 ↦ (some (p1, p2), w2) ]
          ])

  unfoldable pub are_poses_nearby : W → Bool × W
  unfolding in_one_frame
  are_poses_nearby w =
      let tol = get_input (ports.tolerance_port w) zero in
      let (poses, w') =
        in_one_frame (get_input (ports.ref_pose_port w) ports.default_pose)
          (get_input (ports.target_pose_port w) ports.default_pose) w in
      elim poses [
        | none ↦ (false, w')
        | some pair ↦ (is_within pair.0.position pair.1.position tol, w')
      ]

  unfoldable pub are_poses_near_tick : W → NodeStatus × W
  unfolding are_poses_nearby
  are_poses_near_tick w = let (near, w') = are_poses_nearby w in (verdict near, w')

  -- DistanceTraveledCondition, in the frame of its parameters.
  unfoldable pub distance_traveled_tick :
      F → DistanceTraveled F D → W → NodeStatus × DistanceTraveled F D × W
  distance_traveled_tick global_frame s w =
      let (current_pose, w') = get_current_pose global_frame w in
      if not (bt.is_status_active (bt.status w))
      then (let distance = get_input (ports.distance_port w) s.distance in
          (
            failure,
            record { start_pose = get_input current_pose s.start_pose; distance = distance },
            w',
          ))
      else elim current_pose [
        | none ↦ (failure, s, w')
        | some pose ↦
            if lt (euclidean_distance s.start_pose.position pose.position) s.distance
            then (failure, s, w')
            else (success, record s { start_pose = pose }, w')
      ]

  -- The test of a distance does not look at the altitude.
  pub is_within-altitude :
      (a b : Vector D) (z tol : D) → is_within (record a { z = z }) b tol ≡ is_within a b tol
  unfolding is_within
  is_within-altitude a b z tol = refl
