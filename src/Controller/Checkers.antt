-- ===== src/Controller/Checkers.antt =====
-- The plug-ins of nav3d_controller/plugins that tell whether the goal is reached (SimpleGoalChecker,
-- StoppedGoalChecker, PositionGoalChecker) and whether there is progress (SimpleProgressChecker,
-- PoseProgressChecker).
pub mod Reached
pub mod Planar
use nav2_3d.Prelude.{
  ℕ, ◌+◌, leb, Bool, true, false, not, ◌&&◌, ◌||◌, if◌then◌else◌, Option, none, some, List, [], ◌∷◌,
}
use nav2_3d.Prelude.Double.{Doubles}
use nav2_3d.Controller.{Vector, Pose, Twist}

-- What the source uses of <cmath>, of tf2 and of angles.
pub record Measures (D Q : Type 0) : Type 0 where
  pub doubles : Doubles D
  pub fabs : D → D
  pub get_yaw : Q → D
  pub shortest_angular_distance : D → D → D
  pub from_seconds : D → ℕ

-- A parameter of the plug-in, by the name that follows its prefix, with a value of its type. Any other
-- name or type leaves all members as they are.
pub data Parameter (D : Type 0) : Type 0 where
  xyz_goal_tolerance xy_goal_tolerance yaw_goal_tolerance : D → Parameter D
  rot_stopped_velocity trans_stopped_velocity : D → Parameter D
  required_movement_radius movement_time_allowance required_movement_angle : D → Parameter D
  stateful : Bool → Parameter D
  unrelated : Parameter D

pub record SimpleGoalChecker (D : Type 0) : Type 0 where
  pub xyz_goal_tolerance : D
  pub yaw_goal_tolerance : D
  pub stateful : Bool
  pub check_xyz : Bool
  pub xyz_goal_tolerance_sq : D

pub record StoppedGoalChecker (D : Type 0) : Type 0 where
  pub base : SimpleGoalChecker D
  pub rot_stopped_velocity : D
  pub trans_stopped_velocity : D

pub record PositionGoalChecker (D : Type 0) : Type 0 where
  pub xy_goal_tolerance : D
  pub xy_goal_tolerance_sq : D
  pub stateful : Bool
  pub position_reached : Bool

-- geometry_msgs::msg::Pose2D.
pub record Pose2d (D : Type 0) : Type 0 where
  pub x : D
  pub y : D
  pub theta : D

-- The baseline is none until it is set; a time is in nanoseconds.
pub record ProgressChecker (D : Type 0) : Type 0 where
  pub radius : D
  pub time_allowance : ℕ
  pub required_movement_angle : D
  pub baseline : Option (Pose2d D × ℕ)

module _ {D Q : Type 0} (measures : Measures D Q) where
  open measures use {doubles, fabs, get_yaw, shortest_angular_distance, from_seconds}
  open doubles use {add, sub, mul, hypot, lt, le}

  abbrev square : D → D
  square v = mul v v

  -- SimpleGoalChecker.
  unfoldable pub reset : SimpleGoalChecker D → SimpleGoalChecker D
  reset c = record c { check_xyz = true }

  -- The position is not further than the tolerance.
  unfoldable pub is_close : SimpleGoalChecker D → Pose D Q → Pose D Q → Bool
  is_close c query goal = not (
      lt c.xyz_goal_tolerance_sq (
        add
          (add (square (sub query.position.x goal.position.x))
            (square (sub query.position.y goal.position.y)))
          (square (sub query.position.z goal.position.z))))

  unfoldable pub is_aligned : SimpleGoalChecker D → Pose D Q → Pose D Q → Bool
  is_aligned c query goal =
      le (fabs (shortest_angular_distance (get_yaw query.orientation) (get_yaw goal.orientation)))
        c.yaw_goal_tolerance

  unfoldable pub is_goal_reached :
      SimpleGoalChecker D → Pose D Q → Pose D Q → Bool × SimpleGoalChecker D
  is_goal_reached c query goal =
      if c.check_xyz && not (is_close c query goal) then (false, c) else (
        is_aligned c query goal,
        if c.check_xyz && c.stateful then record c { check_xyz = false } else c,
      )

  unfoldable pub set_parameter : Parameter D → SimpleGoalChecker D → SimpleGoalChecker D
  set_parameter (xyz_goal_tolerance v) c = record c {
    xyz_goal_tolerance = v;
    xyz_goal_tolerance_sq = square v;
  }
  set_parameter (yaw_goal_tolerance v) c = record c { yaw_goal_tolerance = v }
  set_parameter (stateful b) c = record c { stateful = b }
  set_parameter _ c = c

  -- `dynamicParametersCallback`.
  unfoldable pub set_parameters : List (Parameter D) → SimpleGoalChecker D → SimpleGoalChecker D
  unfolding set_parameter
  set_parameters [] c = c
  set_parameters (p ∷ ps) c = set_parameters ps (set_parameter p c)

  -- StoppedGoalChecker.
  unfoldable pub is_stopped : StoppedGoalChecker D → Twist D → Bool
  is_stopped c velocity =
      le (fabs velocity.angular_z) c.rot_stopped_velocity
      && le (hypot velocity.linear.x velocity.linear.y) c.trans_stopped_velocity

  unfoldable pub is_goal_reached_stopped :
      StoppedGoalChecker D → Pose D Q → Pose D Q → Twist D → Bool × StoppedGoalChecker D
  is_goal_reached_stopped c query goal velocity =
      let (in_goal_window, base) = is_goal_reached c.base query goal in
      (in_goal_window && is_stopped c velocity, record c { base = base })

  unfoldable pub set_parameters_stopped :
      List (Parameter D) → StoppedGoalChecker D → StoppedGoalChecker D
  set_parameters_stopped [] c = c
  set_parameters_stopped (rot_stopped_velocity v ∷ ps) c =
      set_parameters_stopped ps (record c { rot_stopped_velocity = v })
  set_parameters_stopped (trans_stopped_velocity v ∷ ps) c =
      set_parameters_stopped ps (record c { trans_stopped_velocity = v })
  set_parameters_stopped (_ ∷ ps) c = set_parameters_stopped ps c

  -- PositionGoalChecker.
  unfoldable pub reset_position : PositionGoalChecker D → PositionGoalChecker D
  reset_position c = record c { position_reached = false }

  unfoldable pub is_near : PositionGoalChecker D → Pose D Q → Pose D Q → Bool
  is_near c query goal =
      le
        (add (square (sub query.position.x goal.position.x))
          (square (sub query.position.y goal.position.y)))
        c.xy_goal_tolerance_sq

  unfoldable pub is_position_reached :
      PositionGoalChecker D → Pose D Q → Pose D Q → Bool × PositionGoalChecker D
  is_position_reached c query goal =
      if c.stateful && c.position_reached
      then (true, c)
      else (let reached = is_near c query goal in
          (reached, if c.stateful && reached then record c { position_reached = true } else c))

  unfoldable pub set_xy_goal_tolerance : D → PositionGoalChecker D → PositionGoalChecker D
  set_xy_goal_tolerance v c = record c { xy_goal_tolerance = v; xy_goal_tolerance_sq = square v }

  unfoldable pub set_parameters_position :
      List (Parameter D) → PositionGoalChecker D → PositionGoalChecker D
  set_parameters_position [] c = c
  set_parameters_position (xy_goal_tolerance v ∷ ps) c =
      set_parameters_position ps
        (record c { xy_goal_tolerance = v; xy_goal_tolerance_sq = square v })
  set_parameters_position (stateful b ∷ ps) c =
      set_parameters_position ps (record c { stateful = b })
  set_parameters_position (_ ∷ ps) c = set_parameters_position ps c

  -- The progress checkers.
  unfoldable pub to_pose2d : Pose D Q → Pose2d D
  to_pose2d pose = record {
    x = pose.position.x;
    y = pose.position.y;
    theta = get_yaw pose.orientation;
  }

  unfoldable pub pose_distance : Pose2d D → Pose2d D → D
  pose_distance a b = hypot (sub a.x b.x) (sub a.y b.y)

  unfoldable pub pose_angle_distance : Pose2d D → Pose2d D → D
  pose_angle_distance a b = fabs (shortest_angular_distance a.theta b.theta)

  -- `isRobotMovedEnough` of each checker.
  unfoldable pub is_robot_moved_enough : ProgressChecker D → Pose2d D → Pose2d D → Bool
  is_robot_moved_enough c pose baseline = lt c.radius (pose_distance pose baseline)

  unfoldable pub is_pose_moved_enough : ProgressChecker D → Pose2d D → Pose2d D → Bool
  is_pose_moved_enough c pose baseline =
      lt c.radius (pose_distance pose baseline)
      || lt c.required_movement_angle (pose_angle_distance pose baseline)

  -- `resetBaselinePose`, at a time of the clock.
  unfoldable pub reset_baseline_pose : Pose2d D → ℕ → ProgressChecker D → ProgressChecker D
  reset_baseline_pose pose now c = record c { baseline = some (pose, now) }

  unfoldable pub reset_progress : ProgressChecker D → ProgressChecker D
  reset_progress c = record c { baseline = none }

  -- `check`, where `moved` is the test of the checker and `now` the time at which the clock is read.
  unfoldable pub check :
      (ProgressChecker D → Pose2d D → Pose2d D → Bool)
      → Pose D Q
      → ℕ
      → ProgressChecker D
      → Bool × ProgressChecker D
  check moved current_pose now c = elim c.baseline [
    | none ↦ (true, reset_baseline_pose (to_pose2d current_pose) now c)
    | some baseline ↦
        if moved c (to_pose2d current_pose) baseline.0
        then (true, reset_baseline_pose (to_pose2d current_pose) now c)
        else (leb now (baseline.1 + c.time_allowance), c)
  ]

  unfoldable pub set_parameters_progress :
      List (Parameter D) → ProgressChecker D → ProgressChecker D
  set_parameters_progress [] c = c
  set_parameters_progress (required_movement_radius v ∷ ps) c =
      set_parameters_progress ps (record c { radius = v })
  set_parameters_progress (movement_time_allowance v ∷ ps) c =
      set_parameters_progress ps (record c { time_allowance = from_seconds v })
  set_parameters_progress (_ ∷ ps) c = set_parameters_progress ps c

  unfoldable pub set_parameters_pose : List (Parameter D) → ProgressChecker D → ProgressChecker D
  set_parameters_pose [] c = c
  set_parameters_pose (required_movement_angle v ∷ ps) c =
      set_parameters_pose ps (record c { required_movement_angle = v })
  set_parameters_pose (_ ∷ ps) c = set_parameters_pose ps c
