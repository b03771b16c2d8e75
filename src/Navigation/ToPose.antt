-- ===== src/Navigation/ToPose.antt =====
-- NavigateToPoseNavigator (nav3d_bt_navigator/src/navigators/navigate_to_pose.cpp), with
-- BtActionServer::loadBehaviorTree that it calls.
pub mod Steps
use nav2_3d.Prelude.{
  ℕ, Bool, true, false, not, ◌&&◌, ◌||◌, ◌==◌, Eq, if◌then◌else◌, Option, none, some,
}
use nav2_3d.ActionServer.{
  Handles, Server, accept_pending_goal, terminate_pending_goal, publish_feedback,
}
use nav2_3d.Navigation.Engine.{Run, ends, crashes, out_of_fuel}
use nav2_3d.Navigation.Session.{Session, Setup, Robot}

-- The codes of NavigateToPose.action.
abbrev pub failed_to_load_behavior_tree : ℕ
failed_to_load_behavior_tree = 9001

abbrev pub tf_error : ℕ
tf_error = 9002

module _ {ℓ} {H N F G P : Type 0} {W : Type ℓ} ⦃eh : Eq H⦄ ⦃ef : Eq F⦄ (handles : Handles H W)
    (robot : Robot H F G P W) (setup : Setup N F P) where
  open robot use {
    behavior_tree, empty_filename, create_tree, get_current_pose, transform_goal_pose, set_goal,
  }

  unfoldable pub set_internal_error : ℕ → Session H N F W → Session H N F W
  set_internal_error code s = record s { internal_error_code = code }

  unfoldable pub load_behavior_tree : F → Session H N F W → Bool × Session H N F W
  unfolding set_internal_error
  load_behavior_tree bt_xml_filename s =
      let filename : F =
        if ef.beq bt_xml_filename empty_filename
        then setup.default_bt_xml_filename
        else bt_xml_filename in
      if not setup.always_reload_bt_xml && ef.beq s.current_bt_xml_filename filename
      then (true, s)
      else (let (created, w) = create_tree filename s.world in
          if created
          then (true, record s { world = w; current_bt_xml_filename = filename })
          else (false, set_internal_error failed_to_load_behavior_tree (record s { world = w })))

  -- The goal is that of the handle; with none, `goal->pose` dereferences a null pointer.
  unfoldable pub initialize_goal_pose : Option H → Session H N F W → Run (Bool × Session H N F W)
  unfolding set_internal_error
  initialize_goal_pose goal s =
      let (available, w) = get_current_pose s.world in
      if not available
      then ends (false, set_internal_error tf_error (record s { world = w }))
      else elim goal [
        | none ↦ crashes
        | some h ↦
            let (goal_pose, w') = transform_goal_pose h w in
            elim goal_pose [
              | none ↦ ends (false, set_internal_error tf_error (record s { world = w' }))
              | some pose ↦ ends (true, record s { world = set_goal pose w' })
            ]
      ]

  unfoldable pub goal_received : Option H → Session H N F W → Run (Bool × Session H N F W)
  unfolding load_behavior_tree initialize_goal_pose set_internal_error
  goal_received none s = crashes
  goal_received (some h) s =
      let (loaded, s') = load_behavior_tree (behavior_tree h) s in
      if not loaded
      then ends (false, set_internal_error failed_to_load_behavior_tree s')
      else initialize_goal_pose (some h) s'

  -- `terminatePendingGoal()` and `acceptPendingGoal()` of the action server.
  unfoldable pub terminate_pending : Session H N F W → Session H N F W
  terminate_pending s =
      let (server, w) = terminate_pending_goal handles s.server s.world in
      record s { server = server; world = w }

  unfoldable pub accept_pending : Session H N F W → Option H × Session H N F W
  accept_pending s =
      let (goal, server, w) = accept_pending_goal handles s.server s.world in
      (goal, record s { server = server; world = w })

  -- The pending goal asks for the tree that is loaded.
  unfoldable pub same_tree : H → Session H N F W → Bool
  same_tree h s =
      ef.beq (behavior_tree h) s.current_bt_xml_filename
      || ef.beq (behavior_tree h) empty_filename
        && ef.beq s.current_bt_xml_filename setup.default_bt_xml_filename

  -- What follows `initializeGoalPose` in `onPreempt`.
  unfoldable pub after_initialize : Run (Bool × Session H N F W) → Run (Session H N F W)
  unfolding terminate_pending
  after_initialize (ends (initialized, s)) =
      ends (if not initialized then terminate_pending s else s)
  after_initialize crashes = crashes
  after_initialize out_of_fuel = out_of_fuel

  unfoldable pub on_preempt : Option H → Session H N F W → Run (Session H N F W)
  unfolding initialize_goal_pose terminate_pending accept_pending same_tree after_initialize
  on_preempt none s = crashes
  on_preempt (some h) s =
      if same_tree h s
      then (let (goal, s') = accept_pending s in after_initialize (initialize_goal_pose goal s'))
      else ends (terminate_pending s)

  -- `onLoop`: the feedback, where the robot's pose is available.
  unfoldable pub send_feedback : Session H N F W → Session H N F W
  send_feedback s =
      let (available, w) = get_current_pose s.world in
      if not available
      then record s { world = w }
      else record s { world = publish_feedback handles s.server w }

  -- `goalCompleted`: the code that the result has afterwards.
  unfoldable pub goal_completed : ℕ → Session H N F W → ℕ
  goal_completed code s =
      if code == 0 && not (s.internal_error_code == 0) then s.internal_error_code else code
