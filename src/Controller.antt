-- ===== src/Controller.antt =====
-- ControllerServer (nav3d_controller/src/controller_server.cpp): its members and the reference filter, with
-- the parameters of the whole component. An Eigen vector is taken axis by axis, as Eigen does it.
pub mod Trajectory
pub mod Control
pub mod Limits
pub mod Segment
pub mod Rests
pub mod Settling
pub mod Checkers
mod Examples
use nav2_3d.Prelude.{ℕ, Bool, true, false, not, ◌||◌, if◌then◌else◌, List}
use nav2_3d.Prelude.Double.{Doubles, max_of}

-- What the source uses of <cmath>, of angles and of literals.
pub record Reals (D : Type 0) : Type 0 where
  pub doubles : Doubles D
  pub abs : D → D
  pub copysign : D → D → D
  pub sqrt : D → D
  pub normalize_angle : D → D
  pub shortest_angular_distance : D → D → D
  pub two : D
  pub two_tenths : D
  pub tenth : D
  pub hundredth : D
  pub thousandth : D
  pub millionth : D

pub record Vector (D : Type 0) : Type 0 where
  pub x : D
  pub y : D
  pub z : D

-- geometry_msgs: a pose, whose orientation `Q` is tf2's, and a twist, of which only yaw turns.
pub record Pose (D Q : Type 0) : Type 0 where
  pub position : Vector D
  pub orientation : Q

pub record Twist (D : Type 0) : Type 0 where
  pub linear : Vector D
  pub angular_z : D

-- `ReferenceState`.
pub record Reference (D : Type 0) : Type 0 where
  pub pos : Vector D
  pub vel : Vector D
  pub acc : Vector D
  pub yaw : D
  pub yaw_vel : D
  pub yaw_acc : D

-- The parameters.
pub record Settings (D : Type 0) : Type 0 where
  pub ref_jerk_max : D
  pub ref_acc_max : D
  pub ref_vel_max : D
  pub ref_omega : D
  pub ref_zita : D
  pub ref_yaw_jerk_max : D
  pub ref_yaw_acc_max : D
  pub ref_yaw_vel_max : D
  pub controller_frequency : D
  pub xyz_goal_tolerance : D
  pub yaw_goal_tolerance : D
  pub slowdown_distance : D
  pub default_speed_limit : D

-- The members that change. A time is in nanoseconds.
pub record Controller (D Q : Type 0) : Type 0 where
  pub speed_limit : D
  pub path_start_time : ℕ
  pub current_path : List (ℕ × Pose D Q)
  pub current_waypoint_index : ℕ
  pub ref_state : Reference D
  pub filter_initialized : Bool

-- TrajectoryPoint.
pub record TrajectoryPoint (D Q : Type 0) : Type 0 where
  pub pose : Pose D Q
  pub velocity : Twist D
  pub acceleration : Vector D
  pub time_from_start : ℕ × ℕ  -- the clock and the start of the path, which are subtracted

-- tf2's orientations, and rclcpp's times: a duration in seconds in nanoseconds, and the seconds from the
-- first time to the second.
pub record Frames (D Q : Type 0) : Type 0 where
  pub get_yaw : Q → D
  pub from_yaw : D → Q
  pub slerp : Q → Q → D → Q  -- and normalize
  pub from_seconds : D → ℕ
  pub seconds_between : ℕ → ℕ → D

module _ {D Q : Type 0} (reals : Reals D) (frames : Frames D Q) (settings : Settings D) where
  open reals use {
    doubles, abs, copysign, normalize_angle, shortest_angular_distance, two, two_tenths, tenth,
  }
  open doubles use {zero, add, sub, mul, div, lt, le}
  open settings use {
    ref_jerk_max, ref_acc_max, ref_vel_max, ref_omega, ref_zita, ref_yaw_jerk_max, ref_yaw_acc_max,
    ref_yaw_vel_max,
  }

  -- `if (std::abs(v) > limit) v = std::copysign(limit, v)`.
  unfoldable pub saturate : D → D → D
  saturate limit v = if lt limit (abs v) then copysign limit v else v

  unfoldable pub reset_filter : Pose D Q → Controller D Q → Controller D Q
  reset_filter start_pose c =
      let none : Vector D = record { x = zero; y = zero; z = zero } in
      record c {
        ref_state = record {
          pos = start_pose.position;
          vel = none;
          acc = none;
          yaw = frames.get_yaw start_pose.orientation;
          yaw_vel = zero;
          yaw_acc = zero;
        };
        filter_initialized = true;
      }

  -- One axis: the acceleration, from the target's position and velocity and the axis of `ref_state_`.
  unfoldable pub axis_acc : D → D → D → D → D → D → D
  unfolding saturate
  axis_acc dt target_pos target_vel pos vel acc =
      let pos_error = sub target_pos pos in
      let vel_error = sub vel target_vel in
      let desired_acc : D =
        sub (mul (mul ref_omega ref_omega) pos_error)
          (mul (mul (mul two ref_zita) ref_omega) vel_error) in
      let jerk = saturate ref_jerk_max (div (sub desired_acc acc) dt) in
      saturate ref_acc_max (add acc (mul jerk dt))

  unfoldable pub axis_vel : D → D → D → D
  unfolding saturate
  axis_vel dt vel acc = saturate ref_vel_max (add vel (mul acc dt))

  -- `yaw_acc` of the next state, from the error and the target's velocity.
  unfoldable pub yaw_acc_of : D → D → D → Reference D → D
  unfolding saturate
  yaw_acc_of dt yaw_error target_yaw_vel r =
      let yaw_vel_error = sub r.yaw_vel target_yaw_vel in
      let desired_yaw_acc : D =
        sub
          (sub (mul (mul ref_omega ref_omega) yaw_error)
            (mul (mul (mul two ref_zita) ref_omega) yaw_vel_error))
          (mul tenth r.yaw_vel) in
      let yaw_jerk = saturate ref_yaw_jerk_max (div (sub desired_yaw_acc r.yaw_acc) dt) in
      saturate ref_yaw_acc_max (add r.yaw_acc (mul yaw_jerk dt))

  -- The limit is lowered where the error is small.
  unfoldable pub yaw_vel_limit : D → D
  yaw_vel_limit yaw_error =
      if lt (abs yaw_error) two_tenths
      then mul ref_yaw_vel_max (max_of doubles tenth (div (abs yaw_error) two_tenths))
      else ref_yaw_vel_max

  -- The error that `updateFilter` computes.
  unfoldable pub yaw_error_of : Pose D Q → Reference D → D
  yaw_error_of target_pose r =
      shortest_angular_distance (normalize_angle r.yaw)
        (normalize_angle (frames.get_yaw target_pose.orientation))

  unfoldable pub filtered : Pose D Q → Twist D → D → Reference D → Reference D
  unfolding saturate axis_acc axis_vel yaw_acc_of yaw_vel_limit yaw_error_of
  filtered target_pose target_vel dt r =
      let p = target_pose.position in
      let v = target_vel.linear in
      let acc : Vector D = record {
        x = axis_acc dt p.x v.x r.pos.x r.vel.x r.acc.x;
        y = axis_acc dt p.y v.y r.pos.y r.vel.y r.acc.y;
        z = axis_acc dt p.z v.z r.pos.z r.vel.z r.acc.z;
      } in
      let vel : Vector D = record {
        x = axis_vel dt r.vel.x acc.x;
        y = axis_vel dt r.vel.y acc.y;
        z = axis_vel dt r.vel.z acc.z;
      } in
      let yaw_error = yaw_error_of target_pose r in
      let yaw_acc = yaw_acc_of dt yaw_error target_vel.angular_z r in
      let yaw_vel = saturate (yaw_vel_limit yaw_error) (add r.yaw_vel (mul yaw_acc dt)) in
      record {
        pos = record {
          x = add r.pos.x (mul vel.x dt);
          y = add r.pos.y (mul vel.y dt);
          z = add r.pos.z (mul vel.z dt);
        };
        vel = vel;
        acc = acc;
        yaw = normalize_angle (add (normalize_angle r.yaw) (mul yaw_vel dt));
        yaw_vel = yaw_vel;
        yaw_acc = yaw_acc;
      }

  unfoldable pub update_filter : Pose D Q → Twist D → D → Controller D Q → Controller D Q
  unfolding filtered
  update_filter target_pose target_vel dt c =
      if le dt zero || not c.filter_initialized
      then c
      else record c { ref_state = filtered target_pose target_vel dt c.ref_state }

  unfoldable pub get_filtered_setpoint : ℕ → Controller D Q → TrajectoryPoint D Q
  get_filtered_setpoint now c =
      let r = c.ref_state in
      record {
        pose = record { position = r.pos; orientation = frames.from_yaw r.yaw };
        velocity = record { linear = r.vel; angular_z = r.yaw_vel };
        acceleration = r.acc;
        time_from_start = (now, c.path_start_time);
      }

  -- `speedLimitCallback`.
  unfoldable pub speed_limit_callback : D → Controller D Q → Controller D Q
  speed_limit_callback msg c =
      if lt zero msg
      then record c { speed_limit = msg }
      else record c { speed_limit = settings.default_speed_limit }
