-- ===== src/Offboard/Timer.antt =====
-- OffboardControl::timerCallback and what it publishes (nav3d_px4_bridge/src/offboard_control.cpp).
use nav2_3d.Prelude.{
  ℕ, suc, max, ◌==◌, ltb, Bool, true, false, not, ◌&&◌, ◌||◌, if◌then◌else◌, Option, none, some,
  List, [], ◌∷◌, ◌++◌,
}
use nav2_3d.Prelude.Double.{max_of}
use nav2_3d.Controller.{Pose}
use nav2_3d.Offboard.{
  Quaternion, Numerics, Settings, Twist, EnuSetpoint, TrajectorySetpoint, Offboard, enu_to_ned_pose,
  offset_position, uniform, fill_position_velocity_fields,
}

-- The commands to the autopilot: `engage` sets the mode offboard.
pub data VehicleCommand : Type 0 where
  arm disarm engage : VehicleCommand

-- What the node publishes.
pub data Message (D : Type 0) : Type 0 where
  heartbeat : Message D
  setpoint : TrajectorySetpoint D → Message D
  command : VehicleCommand → Message D

-- The setpoint that was published last by a method, if any, and the state.
abbrev pub Published : Type 0 → Type 0
Published D = List (Message D) × Offboard D

module _ {D : Type 0} (numerics : Numerics D) (settings : Settings D) where
  open numerics use {
    doubles, fabs, sqrt, ceil_count, to_float, tenth, thousandth, millionth, set_rpy, get_yaw,
    seconds, navigation_state_offboard, arming_state_armed,
  }
  open doubles use {zero as nought, add, sub, mul, div, lt, le}

  -- The setpoint that stands still at a pose, as both publishers build it.
  unfoldable pub still_setpoint : Pose D (Quaternion D) → Offboard D → TrajectorySetpoint D
  unfolding enu_to_ned_pose offset_position fill_position_velocity_fields
  still_setpoint enu_pose s =
      let ned_pose = enu_to_ned_pose numerics settings enu_pose in
      fill_position_velocity_fields numerics settings (record {
        position = offset_position numerics settings ned_pose s;
        velocity = uniform numerics settings nought;
        acceleration = uniform numerics settings nought;
        jerk = uniform numerics settings nought;
        yaw = to_float (get_yaw ned_pose.orientation);
        yawspeed = nought;
      })

  unfoldable pub normalized : Quaternion D → Quaternion D
  normalized q =
      let q_norm = sqrt (add (add (add (mul q.x q.x) (mul q.y q.y)) (mul q.z q.z)) (mul q.w q.w)) in
      if lt millionth q_norm
      then record { x = div q.x q_norm; y = div q.y q_norm; z = div q.z q_norm; w = div q.w q_norm }
      else set_rpy nought nought nought

  abbrev still : Twist D
  still = record {
    linear = uniform numerics settings nought;
    angular = uniform numerics settings nought;
  }

  -- The start of the takeoff, where it is not known yet.
  unfoldable pub begin_takeoff : Pose D (Quaternion D) → Offboard D → Offboard D
  begin_takeoff odom s = elim s.takeoff_start_enu [
    | some start ↦ s
    | none ↦ record s {
      takeoff_start_enu = some (record {
        pose = record { position = odom.position; orientation = normalized odom.orientation };
        twist = still;
      });
      takeoff_target_altitude = some (add odom.position.z settings.takeoff_altitude);
    }
  ]

  -- The pose above the start, at the altitude of the takeoff.
  unfoldable pub takeoff_pose : EnuSetpoint D → D → Pose D (Quaternion D)
  takeoff_pose start altitude = record start.pose {
    position = record start.pose.position { z = altitude };
  }

  -- `none` is the exception of `takeoff_target_altitude_.value()`.
  unfoldable pub publish_takeoff_setpoint : Offboard D → Option (Published D)
  unfolding begin_takeoff
  publish_takeoff_setpoint s = elim s.current_odom [
    | none ↦ some ([], s)
    | some odom ↦
        let s' = begin_takeoff odom s in
        elim s'.takeoff_start_enu [
          | none ↦ none
          | some start ↦ elim s'.takeoff_target_altitude [
            | none ↦ none
            | some altitude ↦
                let pose = takeoff_pose start altitude in
                let t = record s' {
                  last_valid_setpoint_enu = some (record { pose = pose; twist = still });
                } in
                some (setpoint (still_setpoint pose t) ∷ [], t)
          ]
        ]
  ]

  -- The altitude is within the tolerance of the takeoff's.
  unfoldable pub is_at_altitude : Pose D (Quaternion D) → D → Bool
  is_at_altitude odom altitude =
      lt (fabs (sub odom.position.z altitude)) settings.altitude_tolerance

  unfoldable pub is_takeoff_complete : Offboard D → Bool × Offboard D
  is_takeoff_complete s = elim s.current_odom [
    | none ↦ (false, s)
    | some odom ↦ elim s.takeoff_target_altitude [
      | none ↦ (false, s)
      | some altitude ↦
          let completed = s.takeoff_completed || is_at_altitude odom altitude in
          (completed, record s { takeoff_completed = completed })
    ]
  ]

  unfoldable pub publish_hover_setpoint : Offboard D → Published D
  publish_hover_setpoint s = elim s.last_valid_setpoint_enu [
    | none ↦ ([], s)
    | some last ↦ (setpoint (still_setpoint last.pose s) ∷ [], s)
  ]

  -- The choice of a setpoint without a fresh waypoint.
  unfoldable pub hold : Bool × Offboard D → Option (Published D)
  hold (true, s) = some (publish_hover_setpoint s)
  hold (false, s) = publish_takeoff_setpoint s

  unfoldable pub has_fresh_waypoint : ℕ → Offboard D → Option (TrajectorySetpoint D)
  has_fresh_waypoint now s = elim s.current_waypoint_ned [
    | none ↦ none
    | some w ↦
        if lt (seconds s.last_waypoint_time now) settings.waypoint_timeout_s then some w else none
  ]

  -- The setpoint of a callback, where `fresh` is the waypoint if it is fresh.
  unfoldable pub publish_setpoint :
      Option (TrajectorySetpoint D) → Offboard D → Option (Published D)
  publish_setpoint (some w) s = some (setpoint w ∷ [], s)
  publish_setpoint none s = hold (is_takeoff_complete s)

  unfoldable pub required_setpoints : ℕ
  required_setpoints = max 1 (
      ceil_count (
        mul (max_of doubles nought settings.offboard_warmup_s)
          (max_of doubles thousandth settings.control_rate_hz)))

  -- `retry_due`, where the vehicle is not both offboard and armed.
  unfoldable pub command_due : ℕ → Offboard D → Bool
  command_due now s =
      not (s.nav_state == navigation_state_offboard && s.arming_state == arming_state_armed)
      && (not s.offboard_command_sent
          || le (max_of doubles tenth settings.offboard_command_retry_s)
              (seconds s.last_offboard_command_time now))

  -- What follows the setpoint: the warm-up, then the commands.
  unfoldable pub send_commands : ℕ → Offboard D → Published D
  send_commands now s =
      if ltb s.offboard_setpoint_counter required_setpoints
      then ([], record s { offboard_setpoint_counter = suc s.offboard_setpoint_counter })
      else if command_due now s
      then (
        command engage ∷ command arm ∷ [],
        record s { offboard_command_sent = true; last_offboard_command_time = now },
      )
      else ([], s)

  -- What follows the choice of the setpoint, which `first` are the messages of.
  unfoldable pub after_setpoint : ℕ → Option (Published D) → Option (Published D)
  after_setpoint now none = none
  after_setpoint now (some (first, s)) =
      let (last, s') = send_commands now s in some (heartbeat ∷ (first ++ last), s')

  -- What follows the heartbeat, where `odom` is the current odometry.
  unfoldable pub after_heartbeat :
      Option (Pose D (Quaternion D)) → ℕ → ℕ → Offboard D → Option (Published D)
  after_heartbeat none now later s = some (heartbeat ∷ [], s)
  after_heartbeat (some _) now later s =
      after_setpoint now (publish_setpoint (has_fresh_waypoint later s) s)

  -- `now` is the time at the start, `later` that of the test of the waypoint's age.
  unfoldable pub timer_callback : ℕ → ℕ → Offboard D → Option (Published D)
  timer_callback now later s = after_heartbeat s.current_odom now later s
