-- ===== src/Controller/Examples.antt =====
-- The controller server on concrete values.
use nav2_3d.Prelude.{
  map, ℕ, ◌+◌, ◌-◌, ◌*◌, ◌<◌, Bool, true, false, ltb, leb, Eq, ◌==◌, ==_iff, if◌then◌else◌, Option,
  none, some, List, [], ◌∷◌, inl, ◌≡◌, refl, subst, arith,
}
use nav2_3d.ActionServer.{Handles}
use nav2_3d.ActionServer.Orphans.{AreHandles}
use nav2_3d.Navigation.Engine.{EndsIn}
use nav2_3d.Controller.{Reals, Vector, Pose, Settings, Controller, Frames}
use nav2_3d.Controller.Trajectory.{get_current_command}
use nav2_3d.Controller.Checkers.{
  reset_baseline_pose, reset_progress, Measures, SimpleGoalChecker, ProgressChecker, is_close,
  is_aligned, to_pose2d, pose_distance, pose_angle_distance, is_pose_moved_enough,
}
use nav2_3d.Controller.Checkers.Reached.{answers, expected, answers-expected}
use nav2_3d.Controller.Checkers.Planar.{checks, at_altitudes, check-climb}
use nav2_3d.Controller.Segment.{Follows, get_current_command-Follows}
use nav2_3d.Controller.Limits.{AreLimits, Keeps, get_current_command-Keeps}
use nav2_3d.Controller.Control.{State, Surroundings, round, continues, compute_control}
use nav2_3d.Controller.Rests.{Rests, round-Rests}
use nav2_3d.Controller.Settling.{Settled, compute_control-Settled}

instance numbers : Eq ℕ
numbers = record { beq = ◌==◌; beq_iff = ==_iff }

-- Numbers in place of doubles, none of them negative; angles and orientations are numbers.
abbrev natural : Reals ℕ
natural = record {
  doubles = record {
    zero = 0;
    one = 1;
    add = ◌+◌;
    sub = ◌-◌;
    mul = ◌*◌;
    div = λ a b. a;
    hypot = ◌+◌;
    lt = ltb;
    le = leb;
  };
  abs = λ v. v;
  copysign = λ l v. l;
  sqrt = λ v. v;
  normalize_angle = λ v. v;
  shortest_angular_distance = λ a b. b - a;
  two = 2;
  two_tenths = 1;
  tenth = 1;
  hundredth = 1;
  thousandth = 1;
  millionth = 1;
}

abbrev counted : Frames ℕ ℕ
counted = record {
  get_yaw = λ q. q;
  from_yaw = λ v. v;
  slerp = λ q0 q1 alpha. q1;
  from_seconds = λ v. v;
  seconds_between = λ t0 t1. t1 - t0;
}

abbrev limits : Settings ℕ
limits = record {
  ref_jerk_max = 1;
  ref_acc_max = 1;
  ref_vel_max = 2;
  ref_omega = 1;
  ref_zita = 1;
  ref_yaw_jerk_max = 1;
  ref_yaw_acc_max = 1;
  ref_yaw_vel_max = 2;
  controller_frequency = 1;
  xyz_goal_tolerance = 0;
  yaw_goal_tolerance = 0;
  slowdown_distance = 1;
  default_speed_limit = 1;
}

limits-AreLimits : AreLimits natural limits
limits-AreLimits = record {
  copysign_within = λ l v positive. ground arith;
  zero_within = λ l positive. ground arith;
  acc_limit = refl;
  vel_limit = refl;
  yaw_acc_limit = refl;
  yaw_limit = refl;
  lowered_limit = λ e small. (ground arith, λ v below. ground arith);
}

abbrev at : ℕ → Vector ℕ
at n = record { x = n; y = 0; z = 0 }

abbrev pose_at : ℕ → Pose ℕ ℕ
pose_at n = record { position = at n; orientation = 0 }

-- The path leads from 0 over 4 to 9, and the first entry has been passed.
abbrev following : Controller ℕ ℕ
following = record {
  speed_limit = 1;
  path_start_time = 10;
  current_path = (10, pose_at 0) ∷ (14, pose_at 4) ∷ (19, pose_at 9) ∷ [];
  current_waypoint_index = 0;
  ref_state = record { pos = at 0; vel = at 0; acc = at 0; yaw = 0; yaw_vel = 0; yaw_acc = 0 };
  filter_initialized = true;
}

abbrev clock : ℕ
clock = 16

get_current_command-Follows_example :
    Follows natural counted limits clock
      (get_current_command natural counted limits clock none following)
get_current_command-Follows_example =
    get_current_command-Follows natural counted limits 15 clock none following (inl refl)
      (omega arith)

get_current_command-Keeps_example :
    let r = get_current_command natural counted limits clock none following in
    Follows natural counted limits clock r × Keeps natural counted limits limits-AreLimits r
get_current_command-Keeps_example =
    get_current_command-Keeps natural counted limits limits-AreLimits 15 clock none following
      (inl refl) (omega arith) ((refl, refl, refl), (refl, refl, refl), refl, refl)

-- The world tells which handles are active and the time; at 30 rclcpp is shut down.
record Place : Type 0 where
  live : ℕ → Bool
  time : ℕ

abbrev ended : ℕ → Place → Place
ended h w = record w { live = λ x. if x == h then false else w.live x }

abbrev numbered : Handles ℕ Place
numbered = record {
  is_active = λ h w. w.live h;
  is_canceling = λ h w. false;
  abort = ended;
  canceled = ended;
  succeed = ended;
  publish_feedback = λ h w. w;
  complete = λ w. w;
}

numbered-AreHandles : AreHandles numbered
numbered-AreHandles = record {
  abort_ends = λ h w. ground arith;
  canceled_ends = λ h w. ground arith;
  succeed_ends = λ h w. ground arith;
  abort_quiet = λ h x w live. ground arith;
  canceled_quiet = λ h x w live. ground arith;
  succeed_quiet = λ h x w live. ground arith;
  send_quiet = λ h x w live. live;
  complete_quiet = λ x w live. live;
}

-- A round takes until 30.
abbrev flight : Surroundings ℕ ℕ ℕ Place
flight = record {
  path_of = λ h. pose_at 0 ∷ pose_at h ∷ [];
  now = λ w. w.time;
  get_current_pose = λ w. none;
  publish = λ out w. w;
  ok = λ w. ltb w.time 30;
  sleep = λ s w. (s, record w { time = w.time + 30 });
}

abbrev taken : State ℕ ℕ ℕ Place
taken = record {
  server = record {
    server_active = true;
    stop_execution = false;
    preempt_requested = false;
    current_handle = some 5;
    pending_handle = none;
    running = true;
  };
  world = record { live = λ x. true; time = 1 };
  controller = following;
}

abbrev turns_left : State ℕ ℕ ℕ Place → ℕ
turns_left s = if ltb s.world.time 30 then 1 else 0

shorter :
    (s s' : State ℕ ℕ ℕ Place)
    → round numbered natural counted limits flight s ≡ continues s'
    → turns_left s' < turns_left s
shorter s s' on =
    subst (Rests numbered natural counted limits flight (λ x. turns_left x < turns_left s)) on (
      round-Rests numbered natural counted limits flight (λ x. turns_left x < turns_left s) s
        (λ up server w c. ground arith))

compute_control-Settled_example :
    EndsIn
      (λ (r : Option ℕ × State ℕ ℕ ℕ Place). Settled numbered natural counted limits flight r.1)
      (compute_control numbered natural counted limits flight 2 taken)
compute_control-Settled_example =
    compute_control-Settled numbered natural counted limits flight numbered-AreHandles
      (λ out w. omega arith) (λ server w. omega arith) turns_left shorter 2 taken
      (λ s. ground arith)

abbrev measured : Measures ℕ ℕ
measured = record {
  doubles = natural.doubles;
  fabs = λ v. v;
  get_yaw = λ q. q;
  shortest_angular_distance = λ a b. b - a;
  from_seconds = λ v. v;
}

abbrev goal_checker : SimpleGoalChecker ℕ
goal_checker = record {
  xyz_goal_tolerance = 1;
  yaw_goal_tolerance = 0;
  stateful = true;
  check_xyz = true;
  xyz_goal_tolerance_sq = 1;
}

abbrev at_height : ℕ → ℕ → Pose ℕ ℕ
at_height z yaw = record { position = record { x = 0; y = 0; z = z }; orientation = yaw }

-- Too high, then close but turned away, then aligned and too high again.
abbrev approach : List (Pose ℕ ℕ)
approach = at_height 9 3 ∷ at_height 3 1 ∷ at_height 9 3 ∷ []

answers-expected_example :
    answers measured (at_height 2 3) approach goal_checker
    ≡ expected measured
        (at_height 2 3)
        (λ q. is_close measured goal_checker q (at_height 2 3))
        (λ q. is_aligned measured goal_checker q (at_height 2 3))
        false
        approach
answers-expected_example = answers-expected measured (at_height 2 3) approach goal_checker refl

abbrev climbing : ProgressChecker ℕ
climbing = record {
  radius = 2;
  time_allowance = 10;
  required_movement_angle = 1;
  baseline = some (record { x = 0; y = 0; theta = 3 }, 5);
}

-- Up by ten at a time, the last time too late.
abbrev climb : List (ℕ × ℕ)
climb = (10, 9) ∷ (20, 13) ∷ (30, 17) ∷ []

check-climb_example :
    checks measured
      (is_pose_moved_enough measured)
      ((at_height 0 3, 5)
        ∷ at_altitudes measured (is_pose_moved_enough measured) (at_height 0 3) climb)
      (reset_progress measured climbing)
    ≡ true ∷ map (λ a. leb a.1 (5 + 10)) climb
unfolding is_pose_moved_enough pose_distance pose_angle_distance to_pose2d reset_baseline_pose
check-climb_example =
    check-climb measured (is_pose_moved_enough measured) climbing (at_height 0 3) 5 climb refl
