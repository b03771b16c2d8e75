-- ===== src/Offboard/Examples.antt =====
-- The bridge to PX4 on concrete values.
use nav2_3d.Prelude.{ℕ, ◌+◌, ◌-◌, ◌*◌, ◌≡◌, refl, false, ltb, leb, none, some, List, [], ◌∷◌, arith}
use nav2_3d.Controller.{Vector, Pose}
use nav2_3d.Offboard.{Quaternion, Numerics, Settings, Twist, TrajectoryPoint, EnuSetpoint, Offboard}
use nav2_3d.Offboard.Timer.{
  is_at_altitude, has_fresh_waypoint, publish_setpoint, timer_callback, begin_takeoff,
  publish_takeoff_setpoint, is_takeoff_complete, hold, send_commands, command_due,
  required_setpoints, after_setpoint, after_heartbeat,
}
use nav2_3d.Offboard.History.{Event, odom, status, waypoint, timer, run, handle}
use nav2_3d.Offboard.Warmup.{RunsWarm, run-Warm}
use nav2_3d.Offboard.Spacing.{Spaced, noted, command_times, command_times-Spaced}
use nav2_3d.Offboard.Stale.Course.{Leaves, PublishesStart, timer_callback-returns_to_start}

-- Numbers in place of doubles; angles are not turned.
abbrev natural : Numerics ℕ
natural = record {
  doubles = record {
    zero = 0;
    one = 1;
    add = ◌+◌;
    sub = ◌-◌;
    mul = ◌*◌;
    div = λ a b. a;
    hypot = ◌+◌;
    lt = ltb;
    le = leb;
  };
  neg = λ v. v;
  fabs = λ v. v;
  sqrt = λ v. v;
  ceil_count = λ v. v;
  to_float = λ v. v;
  nan = 0;
  two = 2;
  half_pi = 0;
  pi = 9;
  tenth = 1;
  thousandth = 1;
  millionth = 1;
  get_rpy = λ q. (q.x, q.y, q.z);
  set_rpy = λ r p y. record { x = r; y = p; z = y; w = 0 };
  get_yaw = λ q. q.z;
  seconds = λ a b. b - a;
  navigation_state_offboard = 14;
  arming_state_armed = 2;
}

abbrev settings : Settings ℕ
settings = record {
  control_rate_hz = 2;
  waypoint_timeout_s = 3;
  offboard_warmup_s = 1;
  offboard_command_retry_s = 4;
  offset_alpha = 1;
  takeoff_altitude = 5;
  altitude_tolerance = 1;
}

abbrev point : ℕ → Vector ℕ
point z = record { x = 0; y = 0; z = z }

abbrev pose : ℕ → Pose ℕ (Quaternion ℕ)
pose z = record { position = point z; orientation = record { x = 0; y = 0; z = 0; w = 1 } }

abbrev rest : Twist ℕ
rest = record { linear = point 0; angular = point 0 }

abbrev fresh : Offboard ℕ
fresh = record {
  current_odom = none;
  current_local_pos = none;
  nav_state = 0;
  arming_state = 0;
  odom_to_px4_offset = point 0;
  current_waypoint_ned = none;
  last_valid_setpoint_enu = none;
  last_waypoint_time = 0;
  takeoff_start_enu = none;
  takeoff_target_altitude = none;
  takeoff_completed = false;
  offboard_setpoint_counter = 0;
  offboard_command_sent = false;
  last_offboard_command_time = 0;
}

abbrev target : TrajectoryPoint ℕ
target = record { pose = pose 9; velocity = rest; acceleration = point 0 }

-- The vehicle stays on the ground, and a waypoint comes late.
abbrev events : List (Event ℕ)
events =
    timer 1 1
    ∷ odom (pose 0)
    ∷ timer 2 2
    ∷ timer 3 3
    ∷ timer 4 4
    ∷ waypoint target 5
    ∷ timer 5 5
    ∷ timer 9 9
    ∷ status 14 2
    ∷ timer 20 20
    ∷ []

run-Warm_example : RunsWarm 2 0 (run natural settings events fresh)
unfolding required_setpoints
run-Warm_example =
    run-Warm natural settings events fresh 0
      (record { counted = omega arith; started = refl; held = λ h. h })

command_times-Spaced_example :
    Spaced natural settings none (command_times natural settings events fresh)
command_times-Spaced_example = command_times-Spaced natural settings events fresh

sent_times : command_times natural settings events fresh ≡ 4 ∷ 9 ∷ []
unfolding command_times noted handle timer_callback after_heartbeat after_setpoint send_commands
    command_due required_setpoints publish_setpoint hold is_takeoff_complete
    publish_takeoff_setpoint begin_takeoff has_fresh_waypoint is_at_altitude
    nav2_3d.Offboard.odom_callback nav2_3d.Offboard.update_offset nav2_3d.Offboard.waypoint_callback
    nav2_3d.Offboard.vehicle_status_callback nav2_3d.Offboard.Timer.publish_hover_setpoint
sent_times = refl

abbrev start_enu : EnuSetpoint ℕ
start_enu = record { pose = pose 0; twist = rest }

-- A takeoff that has begun and is not complete.
abbrev climbing : Offboard ℕ
climbing = record fresh {
  current_odom = some (pose 9);
  takeoff_start_enu = some start_enu;
  takeoff_target_altitude = some 5;
}

-- The vehicle passes the altitude of the takeoff while the waypoint is fresh.
abbrev passing : List (Event ℕ)
passing = odom (pose 5) ∷ timer 11 11 ∷ odom (pose 9) ∷ timer 12 12 ∷ []

timer_callback-returns_to_start_example :
    Leaves natural settings start_enu 5 10
      (PublishesStart natural settings start_enu 5 10 (pose 9) 30 30)
      (run natural settings (waypoint target 10 ∷ passing) climbing)
unfolding is_at_altitude
timer_callback-returns_to_start_example =
    timer_callback-returns_to_start natural settings start_enu 5 10 (pose 9) 30 30 target passing
      climbing refl refl refl (tt, (refl, (tt, (refl, tt)))) refl refl
