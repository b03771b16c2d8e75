-- ===== src/Offboard.antt =====
-- OffboardControl (nav3d_px4_bridge/src/offboard_control.cpp): its members, and the setpoints that it
-- makes for PX4. The arithmetic of doubles, tf2 and the autopilot's constants are a parameter. Messages
-- are taken without their time stamps and constant fields.
pub mod Timer
pub mod History
pub mod Warmup
pub mod Spacing
pub mod Stale
mod Examples
use nav2_3d.Prelude.{◌≡◌, arith, ℕ, zero, suc, Bool, true, false, Option, none, some, if◌then◌else◌}
use nav2_3d.Prelude.Double.{Doubles, max_of}
use nav2_3d.Controller.{Vector, Pose}

pub record Quaternion (D : Type 0) : Type 0 where
  pub x : D
  pub y : D
  pub z : D
  pub w : D

-- What the source uses of <cmath>, of casts, of literals and of tf2. `count` casts to uint64_t after
-- std::ceil, `seconds a b` is the time from `a` to `b`.
pub record Numerics (D : Type 0) : Type 0 where
  pub doubles : Doubles D
  pub neg : D → D
  pub fabs : D → D
  pub sqrt : D → D
  pub ceil_count : D → ℕ
  pub to_float : D → D
  pub nan : D
  pub two : D
  pub half_pi : D
  pub pi : D
  pub tenth : D
  pub thousandth : D
  pub millionth : D
  pub get_rpy : Quaternion D → D × D × D
  pub set_rpy : D → D → D → Quaternion D
  pub get_yaw : Quaternion D → D
  pub seconds : ℕ → ℕ → D
  pub navigation_state_offboard : ℕ
  pub arming_state_armed : ℕ

-- The parameters of the node.
pub record Settings (D : Type 0) : Type 0 where
  pub control_rate_hz : D
  pub waypoint_timeout_s : D
  pub offboard_warmup_s : D
  pub offboard_command_retry_s : D
  pub offset_alpha : D
  pub takeoff_altitude : D
  pub altitude_tolerance : D

pub record Twist (D : Type 0) : Type 0 where
  pub linear : Vector D
  pub angular : Vector D

-- nav3d_msgs::msg::TrajectoryPoint; of the accelerations only the linear one is read.
pub record TrajectoryPoint (D : Type 0) : Type 0 where
  pub pose : Pose D (Quaternion D)
  pub velocity : Twist D
  pub acceleration : Vector D

pub record EnuSetpoint (D : Type 0) : Type 0 where
  pub pose : Pose D (Quaternion D)
  pub twist : Twist D

-- px4_msgs::msg::TrajectorySetpoint.
pub record TrajectorySetpoint (D : Type 0) : Type 0 where
  pub position : Vector D
  pub velocity : Vector D
  pub acceleration : Vector D
  pub jerk : Vector D
  pub yaw : D
  pub yawspeed : D

-- The members that change. Times are in nanoseconds.
pub record Offboard (D : Type 0) : Type 0 where
  pub current_odom : Option (Pose D (Quaternion D))
  pub current_local_pos : Option (Vector D)
  pub nav_state : ℕ
  pub arming_state : ℕ
  pub odom_to_px4_offset : Vector D
  pub current_waypoint_ned : Option (TrajectorySetpoint D)
  pub last_valid_setpoint_enu : Option (EnuSetpoint D)
  pub last_waypoint_time : ℕ
  pub takeoff_start_enu : Option (EnuSetpoint D)
  pub takeoff_target_altitude : Option D
  pub takeoff_completed : Bool
  pub offboard_setpoint_counter : ℕ
  pub offboard_command_sent : Bool
  pub last_offboard_command_time : ℕ

-- std::clamp.
abbrev clamp_of : {D : Type 0} → Doubles D → D → D → D → D
clamp_of doubles v low high =
    if doubles.lt v low then low else if doubles.lt high v then high else v

module _ {D : Type 0} (numerics : Numerics D) (settings : Settings D) where
  open numerics use {doubles, neg, to_float, two, half_pi, pi, nan, get_rpy, set_rpy, get_yaw}
  open doubles use {zero as nought, one, add, sub, mul, lt}

  -- One axis of the filtered offset.
  blend : D → D → D
  blend error old =
      let a = clamp_of doubles settings.offset_alpha nought one in
      add (mul a error) (mul (sub one a) old)

  unfoldable pub update_offset : Offboard D → Offboard D
  unfolding blend
  update_offset s = elim s.current_odom [
    | none ↦ s
    | some odom ↦ elim s.current_local_pos [
      | none ↦ s
      | some local ↦
          let p = odom.position in
          let old = s.odom_to_px4_offset in
          record s {
            odom_to_px4_offset = record {
              x = blend (sub local.x p.y) old.x;
              y = blend (sub local.y p.x) old.y;
              z = blend (sub local.z (neg p.z)) old.z;
            };
          }
    ]
  ]

  -- The two loops that bring an angle into its range, on fuel.
  pub wrap_down : ℕ → D → D
  wrap_down zero yaw = yaw
  wrap_down (suc fuel) yaw =
      let rest = wrap_down fuel (sub yaw (mul two pi)) in if lt pi yaw then rest else yaw

  pub wrap_up : ℕ → D → D
  wrap_up zero yaw = yaw
  wrap_up (suc fuel) yaw =
      let rest = wrap_up fuel (add yaw (mul two pi)) in if lt yaw (neg pi) then rest else yaw

  -- The yaw of `getRPY` lies within pi of 0, so that one turn is enough.
  abbrev pub turns : ℕ
  turns = 2

  -- A loop has ended by its test, where one turn brings the angle into the range.
  wrap_down-ended :
      (yaw : D) → lt pi (sub yaw (mul two pi)) ≡ false → lt pi (wrap_down turns yaw) ≡ false
  unfolding wrap_down
  wrap_down-ended yaw near = ground arith

  wrap_up-ended :
      (yaw : D)
      → lt (add yaw (mul two pi)) (neg pi) ≡ false
      → lt (wrap_up turns yaw) (neg pi) ≡ false
  unfolding wrap_up
  wrap_up-ended yaw near = ground arith

  unfoldable pub enu_to_ned_pose : Pose D (Quaternion D) → Pose D (Quaternion D)
  unfolding wrap_down wrap_up
  enu_to_ned_pose enu =
      let (r, p, y) = get_rpy enu.orientation in
      let yaw_ned = wrap_up turns (wrap_down turns (add (neg y) half_pi)) in
      record {
        position = record { x = enu.position.y; y = enu.position.x; z = neg enu.position.z };
        orientation = set_rpy r p yaw_ned;
      }

  -- The position in the frame of PX4, which the callback and both publishers compute.
  unfoldable pub offset_position : Pose D (Quaternion D) → Offboard D → Vector D
  offset_position ned s =
      let offset = s.odom_to_px4_offset in
      record {
        x = to_float (add ned.position.x offset.x);
        y = to_float (add ned.position.y offset.y);
        z = to_float (add ned.position.z offset.z);
      }

  abbrev pub uniform : D → Vector D
  uniform d = record { x = d; y = d; z = d }

  -- `fillPositionVelocityFields`.
  unfoldable pub fill_position_velocity_fields : TrajectorySetpoint D → TrajectorySetpoint D
  fill_position_velocity_fields msg = record msg { jerk = uniform nan }

  abbrev to_ned : Vector D → Vector D
  to_ned v = record { x = to_float v.y; y = to_float v.x; z = to_float (neg v.z) }

  unfoldable pub waypoint_callback : TrajectoryPoint D → ℕ → Offboard D → Offboard D
  unfolding enu_to_ned_pose offset_position fill_position_velocity_fields
  waypoint_callback msg now s =
      let ned_pose = enu_to_ned_pose msg.pose in
      record s {
        last_valid_setpoint_enu = some (record { pose = msg.pose; twist = msg.velocity });
        last_waypoint_time = now;
        current_waypoint_ned = some (
            fill_position_velocity_fields (record {
              position = offset_position ned_pose s;
              velocity = to_ned msg.velocity.linear;
              acceleration = to_ned msg.acceleration;
              jerk = uniform nought;
              yaw = to_float (get_yaw ned_pose.orientation);
              yawspeed = to_float (neg msg.velocity.angular.z);
            }));
      }

  unfoldable pub odom_callback : Pose D (Quaternion D) → Offboard D → Offboard D
  unfolding update_offset
  odom_callback msg s = update_offset (record s { current_odom = some msg })

  unfoldable pub vehicle_local_position_callback : Vector D → Offboard D → Offboard D
  vehicle_local_position_callback msg s = record s { current_local_pos = some msg }

  unfoldable pub vehicle_status_callback : ℕ → ℕ → Offboard D → Offboard D
  vehicle_status_callback nav_state arming_state s = record s {
    nav_state = nav_state;
    arming_state = arming_state;
  }
