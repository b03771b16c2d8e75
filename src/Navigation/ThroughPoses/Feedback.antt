-- ===== src/Navigation/ThroughPoses/Feedback.antt =====
-- The feedback of NavigateThroughPosesNavigator::onLoop
-- (nav3d_bt_navigator/src/navigators/navigate_through_poses.cpp), with calculate_path_length
-- (nav3d_util/include/nav3d_util/geometry_utils.hpp).
use nav2_3d.Prelude.{
  ℕ, zero, suc, not, ◌&&◌, if◌then◌else◌, Option, none, some, List, [], ◌∷◌, length,
}
use nav2_3d.Prelude.Double.{Doubles}
use nav2_3d.ActionServer.{Handles, publish_feedback}
use nav2_3d.Navigation.Engine.{Call, normal, throws}
use nav2_3d.Navigation.Session.{Session, Robot}
use nav2_3d.Navigation.ThroughPoses.{WaypointStatus, Waypoints}

-- What the source uses of doubles and of other code: the path on the blackboard (none where there is
-- none), the distance of two poses, the robot's pose as found last, the odometry and the recoveries.
pub record Sensors {ℓ} (D G : Type 0) (W : Type ℓ) : Type ℓ where
  pub doubles : Doubles D
  pub largest : D
  pub hundredth : D
  pub tenth : D
  pub fabs : D → D
  pub distance : G → G → D
  pub current_pose : W → G
  pub path : W → Option (List G)
  pub odom_linear : W → D × D  -- x and y of getTwist()
  pub number_recoveries : W → ℕ
  pub navigation_time : W → ℕ

-- The message; it starts with zeros and no pose.
pub record Feedback (D G : Type 0) : Type 0 where
  pub waypoint_statuses : List (WaypointStatus G)
  pub distance_remaining : D
  pub estimated_time_remaining : D
  pub number_of_recoveries : ℕ
  pub current_pose : Option G
  pub navigation_time : ℕ
  pub number_of_poses_remaining : ℕ

module _ {ℓ} {G D : Type 0} {W : Type ℓ} (sensors : Sensors D G W) where
  open sensors use {doubles, distance}
  open doubles use {zero as nought, add, div, hypot, lt}

  -- The loop of `find_closest_pose_idx` from an index on.
  unfoldable pub closest_from : G → List G → ℕ → ℕ → D → ℕ
  closest_from current [] curr_idx closest_pose_idx curr_min_dist = closest_pose_idx
  closest_from current (pose ∷ poses) curr_idx closest_pose_idx curr_min_dist =
      let curr_dist = distance current pose in
      let nearer = lt curr_dist curr_min_dist in
      closest_from current poses (suc curr_idx) (if nearer then curr_idx else closest_pose_idx)
        (if nearer then curr_dist else curr_min_dist)

  unfoldable pub find_closest_pose_idx : G → List G → ℕ
  find_closest_pose_idx current poses = closest_from current poses 0 0 sensors.largest

  -- The sum of the distances between the poses, in front of which `path_length` was added up.
  unfoldable pub length_from : List G → D → D
  length_from [] path_length = path_length
  length_from (pose ∷ []) path_length = path_length
  length_from (pose ∷ next ∷ poses) path_length =
      length_from (next ∷ poses) (add path_length (distance pose next))

  unfoldable pub drop : ℕ → List G → List G
  drop zero poses = poses
  drop (suc n) [] = []
  drop (suc n) (pose ∷ poses) = drop n poses

  unfoldable pub calculate_path_length : List G → ℕ → D
  unfolding length_from drop
  calculate_path_length poses start_index = length_from (drop start_index poses) nought

  -- `distance_remaining` and `estimated_time_remaining` where there is a path with poses.
  unfoldable pub remaining : G → List G → W → D × D
  unfolding find_closest_pose_idx calculate_path_length
  remaining current poses w =
      let left = calculate_path_length poses (find_closest_pose_idx current poses) in
      let speed = (let (x, y) = sensors.odom_linear w in sensors.fabs (hypot x y)) in
      (left, if lt sensors.hundredth speed && lt sensors.tenth left then div left speed else nought)

  unfoldable pub remaining_on : Option (List G) → G → W → D × D
  unfolding remaining
  remaining_on none current w = (nought, nought)
  remaining_on (some []) current w = (nought, nought)
  remaining_on (some (pose ∷ poses)) current w = remaining current (pose ∷ poses) w

  abbrev pub early : List (WaypointStatus G) → Feedback D G
  early statuses = record {
    waypoint_statuses = statuses;
    distance_remaining = nought;
    estimated_time_remaining = nought;
    number_of_recoveries = 0;
    current_pose = none;
    navigation_time = 0;
    number_of_poses_remaining = 0;
  }

  unfoldable pub full : List (WaypointStatus G) → List G → W → Feedback D G
  unfolding remaining_on
  full statuses goal_poses w =
      let current = sensors.current_pose w in
      let (left, time) = remaining_on (sensors.path w) current w in
      record {
        waypoint_statuses = statuses;
        distance_remaining = left;
        estimated_time_remaining = time;
        number_of_recoveries = sensors.number_recoveries w;
        current_pose = some current;
        navigation_time = sensors.navigation_time w;
        number_of_poses_remaining = length goal_poses;
      }

module _ {ℓ} {H N F G P D : Type 0} {W : Type ℓ} (handles : Handles H W) (robot : Robot H F G P W)
    (waypoints : Waypoints H G W) (sensors : Sensors D G W) where
  -- The feedback that is published, if any. It throws where the blackboard has no statuses.
  unfoldable pub on_loop : Session H N F W → Call × Option (Feedback D G) × Session H N F W
  unfolding full
  on_loop s = elim (waypoints.get_statuses s.world) [
    | none ↦ (throws, none, s)
    | some statuses ↦ elim (waypoints.get_goals s.world) [
      | [] ↦ (
        normal,
        some (early sensors statuses),
        record s { world = publish_feedback handles s.server s.world },
      )
      | goal ∷ goals ↦
          let (available, w) = robot.get_current_pose s.world in
          if not available then (normal, none, record s { world = w }) else (
            normal,
            some (full sensors statuses (goal ∷ goals) w),
            record s { world = publish_feedback handles s.server w },
          )
    ]
  ]
