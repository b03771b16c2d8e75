-- ===== src/Navigation/ThroughPoses.antt =====
-- NavigateThroughPosesNavigator (nav3d_bt_navigator/src/navigators/navigate_through_poses.cpp).
pub mod Feedback
pub mod Closest
pub mod Statuses
use nav2_3d.Prelude.{
  ℕ, suc, Bool, true, false, not, ◌&&◌, ◌||◌, ◌==◌, Eq, if◌then◌else◌, Option, none, some, List, [],
  ◌∷◌, map,
}
use nav2_3d.ActionServer.{Handles, Server, accept_pending_goal, terminate_pending_goal}
use nav2_3d.Navigation.Engine.{BtStatus, Run, ends, crashes, out_of_fuel}
use nav2_3d.Navigation.Session.{Session, Setup, Robot}
use nav2_3d.Navigation.ToPose.{
  set_internal_error, load_behavior_tree, terminate_pending, accept_pending, same_tree,
  after_initialize,
}

-- nav3d_msgs::msg::WaypointStatus; the error of a waypoint is never written here.
pub data Progress : Type 0 where
  pending completed skipped failed : Progress

pub record WaypointStatus (G : Type 0) : Type 0 where
  pub waypoint_status : Progress
  pub waypoint_index : ℕ
  pub waypoint_pose : G

-- The goal message, the transforms and the blackboard. `set_goals` also gives what the caller's array
-- holds after it was moved into the call; `get_statuses` throws where nothing is set.
pub record Waypoints {ℓ} (H G : Type 0) (W : Type ℓ) : Type ℓ where
  pub poses : H → List G
  pub transform_pose : G → W → Option G × W
  pub note_start : W → W  -- the time, and a recovery count of 0
  pub set_goals : List G → W → List G × W
  pub get_goals : W → List G
  pub set_statuses : List (WaypointStatus G) → W → W
  pub get_statuses : W → Option (List (WaypointStatus G))

-- The codes of NavigateThroughPoses.action.
abbrev pub failed_to_load_behavior_tree : ℕ
failed_to_load_behavior_tree = 9101

abbrev pub tf_error : ℕ
tf_error = 9102

-- The statuses of the goals from an index on.
pub enumerate : {G : Type 0} → ℕ → List G → List (WaypointStatus G)
enumerate i [] = []
enumerate i (goal ∷ goals) =
    record { waypoint_status = pending; waypoint_index = i; waypoint_pose = goal }
    ∷ enumerate (suc i) goals

-- What a waypoint becomes that is still pending at the end.
unfoldable pub integrate_waypoint_status : BtStatus → Progress
integrate_waypoint_status BtStatus.succeeded = completed
integrate_waypoint_status BtStatus.failed = failed
integrate_waypoint_status BtStatus.canceled = failed

unfoldable pub settle_status : {G : Type 0} → Progress → WaypointStatus G → WaypointStatus G
settle_status result s = elim s.waypoint_status [
  | pending ↦ record s { waypoint_status = result }
  | completed ↦ s
  | skipped ↦ s
  | failed ↦ s
]

-- The loop over the statuses that the blackboard has.
unfoldable pub settle_statuses :
    {G : Type 0} → Progress → Option (List (WaypointStatus G)) → Option (List (WaypointStatus G))
settle_statuses result none = none
settle_statuses result (some statuses) = some (map (settle_status result) statuses)

module _ {ℓ} {H N F G P : Type 0} {W : Type ℓ} ⦃eh : Eq H⦄ ⦃ef : Eq F⦄ (handles : Handles H W)
    (robot : Robot H F G P W) (setup : Setup N F P) (waypoints : Waypoints H G W) where
  open robot use {behavior_tree, get_current_pose}
  open waypoints use {poses, transform_pose, note_start, set_goals, set_statuses, get_statuses}

  -- A pose in front of the transformed ones.
  prepend : G → Option (List G) × W → Option (List G) × W
  prepend pose (none, w) = (none, w)
  prepend pose (some rest, w) = (some (pose ∷ rest), w)

  -- What follows the transform of one pose; `rest` are the poses to come.
  after_transform : Option G × W → (W → Option (List G) × W) → Option (List G) × W
  unfolding prepend
  after_transform (none, w) rest = (none, w)
  after_transform (some pose, w) rest = prepend pose (rest w)

  -- The poses in the global frame; none where one of them cannot be transformed.
  unfoldable pub transform_all : List G → W → Option (List G) × W
  unfolding after_transform
  transform_all [] w = (some [], w)
  transform_all (pose ∷ rest) w = after_transform (transform_pose pose w) (transform_all rest)

  -- The blackboard with the goals, and then with their statuses.
  unfoldable pub begin : List G → W → W
  begin goals_array w =
      let (left, w') = set_goals goals_array (note_start w) in set_statuses (enumerate 0 left) w'

  unfoldable pub after_transforms : Session H N F W → Option (List G) × W → Bool × Session H N F W
  after_transforms s (none, w) =
      (false, set_internal_error handles robot setup tf_error (record s { world = w }))
  after_transforms s (some goals_array, w) = (true, record s { world = begin goals_array w })

  unfoldable pub initialize_goal_poses : Option H → Session H N F W → Run (Bool × Session H N F W)
  unfolding transform_all after_transforms
  initialize_goal_poses goal s =
      let (available, w) = get_current_pose s.world in
      if not available
      then ends (false, set_internal_error handles robot setup tf_error (record s { world = w }))
      else elim goal [
        | none ↦ crashes
        | some h ↦ ends (after_transforms s (transform_all (poses h) w))
      ]

  unfoldable pub goal_received : Option H → Session H N F W → Run (Bool × Session H N F W)
  unfolding initialize_goal_poses
  goal_received none s = crashes
  goal_received (some h) s =
      let (loaded, s') = load_behavior_tree handles robot setup (behavior_tree h) s in
      if not loaded
      then ends (false, set_internal_error handles robot setup failed_to_load_behavior_tree s')
      else initialize_goal_poses (some h) s'

  unfoldable pub on_preempt : Option H → Session H N F W → Run (Session H N F W)
  unfolding initialize_goal_poses
  on_preempt none s = crashes
  on_preempt (some h) s =
      if same_tree handles robot setup h s
      then (let (goal, s') = accept_pending handles robot setup s in
          after_initialize handles robot setup (initialize_goal_poses goal s'))
      else ends (terminate_pending handles robot setup s)

  -- The code and the statuses of the result; none where the blackboard has no statuses.
  unfoldable pub goal_completed :
      ℕ → BtStatus → Session H N F W → ℕ × Option (List (WaypointStatus G))
  goal_completed code final_bt_status s = (
    if code == 0 && not (s.internal_error_code == 0) then s.internal_error_code else code,
    settle_statuses (integrate_waypoint_status final_bt_status) (get_statuses s.world),
  )
