-- ===== src/Navigation/Examples.antt =====
-- Navigators, their action server and the tree on concrete values.
use nav2_3d.Prelude.{
  ◌+◌, ◌-◌, ◌*◌, ◌/◌, ltb, leb, List, get_elem?, ℕ, ◌≤◌, ◌≡◌, ◌≢◌, ◌⊎◌, refl, Bool, true, false, Eq,
  ◌==◌, ==_iff, if◌then◌else◌, Option, none, some, [], ◌∷◌, All, Any, arith,
}
use nav2_3d.BehaviorTree.{running, success, returned}
use nav2_3d.ActionServer.{Handles, Server, active}
use nav2_3d.ActionServer.Orphans.{AreHandles}
use nav2_3d.Navigation.Muxer.{is_navigating, start_navigating}
use nav2_3d.Navigation.Muxer.Exclusion.{
  Navigators, resting, received, navigating, moved, finds_free, starts, Reach, Orderly, IsIdle,
  Orderly-exclusive, Reach-race,
}
use nav2_3d.Navigation.Engine.{BtStatus, succeeded, ends, EndsIn, run}
use nav2_3d.Prelude.Int.{ℤ, pos}
use nav2_3d.Navigation.Errors.{populate_error_code}
use nav2_3d.Navigation.Errors.Least.{populate_error_code-least}
use nav2_3d.Navigation.Session.{Session, Setup, Robot, Tree}
use nav2_3d.Navigation.ToPose.{tf_error, on_preempt}
use nav2_3d.Navigation.ThroughPoses.{WaypointStatus, Waypoints, initialize_goal_poses}
use nav2_3d.Navigation.ThroughPoses.Statuses.{IsBlackboard, Begun, initialize_goal_poses-Begun}
use nav2_3d.Navigation.ThroughPoses.Feedback.{Sensors, closest_from, find_closest_pose_idx}
use nav2_3d.Navigation.ThroughPoses.Closest.{find_closest_pose_idx-least}
use nav2_3d.Navigation.BtServer.{Report, callbacks, execute_callback}
use nav2_3d.Navigation.BtServer.Settled.{Released}
use nav2_3d.Navigation.BtServer.Release.{execute_callback-Released}
use nav2_3d.Navigation.BtServer.Preempt.{Switched, on_preempt-rejected, run-hands_over}

instance numbers : Eq ℕ
numbers = record { beq = ◌==◌; beq_iff = ==_iff }

-- Handles are numbers, and the world tells which are active, whether the tree has a tick to go, and
-- whether the robot knows where it is.
record Place : Type 0 where
  moving : Bool
  located : Bool
  live : ℕ → Bool

abbrev ended : ℕ → Place → Place
ended h w = record w { live = λ x. if x == h then false else w.live x }

abbrev numbered : Handles ℕ Place
numbered = record {
  is_active = λ h w. w.live h;
  is_canceling = λ h w. false;
  abort = ended;
  canceled = ended;
  succeed = ended;
  publish_feedback = λ h w. w;
  complete = λ w. w;
}

numbered-AreHandles : AreHandles numbered
numbered-AreHandles = record {
  abort_ends = λ h w. ground arith;
  canceled_ends = λ h w. ground arith;
  succeed_ends = λ h w. ground arith;
  abort_quiet = λ h x w live. ground arith;
  canceled_quiet = λ h x w live. ground arith;
  succeed_quiet = λ h x w live. ground arith;
  send_quiet = λ h x w live. live;
  complete_quiet = λ x w live. live;
}

-- One file, 1; poses are the handles, and the errors have one prefix.
abbrev drone : Robot ℕ ℕ ℕ ℕ Place
drone = record {
  behavior_tree = λ h. 1;
  empty_filename = 0;
  create_tree = λ f w. (true, w);
  get_current_pose = λ w. (w.located, w);
  transform_goal_pose = λ h w. (some h, w);
  set_goal = λ h w. w;
  error_code_of = λ w p. none;
  clear_error_code = λ p w. w;
}

abbrev named_one : Setup ℕ ℕ ℕ
named_one = record {
  name = 1;
  default_bt_xml_filename = 1;
  always_reload_bt_xml = false;
  error_code_name_prefixes = 7 ∷ [];
}

-- The tree runs for a tick and then succeeds. The navigator 2 takes the muxer whenever it can.
abbrev short_tree : Tree ℕ ℕ Place
short_tree = record {
  ok = λ w. true;
  tick_once = λ s w. (if w.moving then returned running else returned success, s, w);
  halt_tree = λ w. w;
  sleep = λ w. record w { moving = false };
  others = λ w m. record { current_navigator = 2 };
}

-- The goal 3 has been accepted.
abbrev working : Server ℕ
working = record {
  server_active = true;
  stop_execution = false;
  preempt_requested = false;
  current_handle = some 3;
  pending_handle = none;
  running = true;
}

abbrev all_live : Bool → Place
all_live located = record { moving = true; located = located; live = λ x. true }

abbrev fresh : Session ℕ ℕ ℕ Place
fresh = record {
  server = working;
  world = all_live true;
  muxer = record { current_navigator = 0 };
  internal_error_code = 0;
  current_bt_xml_filename = 1;
}

abbrev turns_left : Session ℕ ℕ ℕ Place → ℕ
turns_left s = if s.world.moving then 1 else 0

execute_callback-Released_example :
    EndsIn
      (λ (r : Report × Session ℕ ℕ ℕ Place). Released 0 numbered drone named_one short_tree r.1)
      (execute_callback 0 numbered drone named_one short_tree 3 fresh)
unfolding is_navigating numbers
execute_callback-Released_example =
    execute_callback-Released 0 numbered drone named_one short_tree numbered-AreHandles
      (λ p x w live. live) (λ e. ground arith) (λ w m free e. absurd (ground arith)) turns_left
      (λ server w quiet asked. absurd (cc)) (λ s up quiet runs. ground arith) 3 fresh
      (λ e. ground arith) refl refl (λ s. ground arith)

-- The goal 4 asks to preempt the goal 3.
abbrev asked : Server ℕ
asked = record working { preempt_requested = true; pending_handle = some 4 }

abbrev lost : Session ℕ ℕ ℕ Place
lost = record fresh { server = asked; world = all_live false }

on_preempt-rejected_example :
    on_preempt numbered drone named_one (some 4) lost
    ≡ ends (record lost {
      server = record working { current_handle = some 4 };
      world = ended 3 (all_live false);
      internal_error_code = tf_error;
    })
unfolding nav2_3d.Navigation.ToPose.same_tree numbers
on_preempt-rejected_example =
    on_preempt-rejected 0 numbered drone named_one short_tree 3 4 lost (refl, refl, refl, refl)
      (λ p. ground arith) refl refl refl

-- The goal 4 asks to preempt during the tick that ends the tree.
abbrev arriving : Tree ℕ ℕ Place
arriving = record short_tree { tick_once = λ s w. (returned success, asked, w) }

run-hands_over_example :
    EndsIn
      (λ (end : BtStatus × Session ℕ ℕ ℕ Place).
        (end.0 ≡ succeeded) × Switched 0 numbered drone named_one arriving 4 end.1.server)
      (run (callbacks 0 numbered drone named_one arriving) 2 fresh)
unfolding nav2_3d.Navigation.ToPose.same_tree nav2_3d.Navigation.BtServer.is_canceling
    nav2_3d.ActionServer.is_cancel_requested numbers
run-hands_over_example =
    run-hands_over 0 numbered drone named_one arriving 3 4 0 fresh refl refl refl
      (refl, refl, refl, refl) refl

-- The codes 0 and 5 on the blackboard, and the internal error 8.
abbrev internal : ℕ
internal = 8

abbrev codes : ℕ → Option ℤ
codes p = if p == 1 then some (pos 0) else if p == 2 then some (pos 5) else none

populate_error_code-least_example :
    let c = populate_error_code codes (1 ∷ 2 ∷ 3 ∷ []) internal in
    ((c ≢ 0) → (c ≡ internal) ⊎ Any (λ p. codes p ≡ some (pos c)) (1 ∷ 2 ∷ 3 ∷ []))
    × (internal ≢ 0 → (c ≢ 0) × (c ≤ internal))
    × All (λ p. (k : ℕ) → codes p ≡ some (pos k) → k ≢ 0 → (c ≢ 0) × (c ≤ k)) (1 ∷ 2 ∷ 3 ∷ [])
populate_error_code-least_example =
    populate_error_code-least codes (1 ∷ 2 ∷ 3 ∷ []) internal (omega arith)
      (omega arith, (omega arith, (tt, tt)))

-- A code that a uint16_t does not hold is cut.
cut_code : populate_error_code (λ (p : ℕ). some (pos 65536)) (1 ∷ []) 0 ≡ 0
unfolding populate_error_code
cut_code = refl

-- Navigators are their names, and 0 is the empty one.
abbrev at_rest : Navigators ℕ
at_rest = record { muxer = record { current_navigator = 0 }; phase = λ x. resting }

at_rest-IsIdle : IsIdle 0 at_rest
at_rest-IsIdle = record { free = refl; all_rest = λ x. refl }

abbrev first_received : Navigators ℕ
first_received = record at_rest { phase = moved 0 1 received at_rest.phase }

abbrev first_navigates : Navigators ℕ
first_navigates = record first_received {
  muxer = start_navigating 1 first_received.muxer;
  phase = moved 0 1 navigating first_received.phase;
}

first_alone :
    (x y : ℕ) → first_received.phase x ≡ received → first_received.phase y ≡ received → x ≡ y
unfolding numbers
first_alone x y p q = ground arith

first_started :
    (x y : ℕ) → first_navigates.phase x ≡ received → first_navigates.phase y ≡ received → x ≡ y
unfolding numbers
first_started x y p q = absurd (ground arith)

taken : Orderly 0 at_rest first_navigates
unfolding is_navigating numbers
taken =
    Orderly.next
      (Orderly.next Orderly.here (finds_free at_rest 1 (λ p. ground arith) refl refl) first_alone)
      (starts first_received 1 refl) first_started

abbrev first : ℕ
first = 1

Orderly-exclusive_example : (first ≡ first) × (first_navigates.muxer.current_navigator ≡ first)
unfolding numbers
Orderly-exclusive_example = Orderly-exclusive 0 at_rest-IsIdle taken first first refl refl

Reach-race_example :
    (t : Navigators ℕ) × Reach 0 at_rest t
    × (t.phase 1 ≡ navigating)
    × (t.phase 2 ≡ navigating)
    × (t.muxer.current_navigator ≡ 2)
Reach-race_example =
    Reach-race 0 at_rest 1 2 at_rest-IsIdle (λ p. ground arith) (λ p. ground arith)
      (λ p. ground arith)

-- Two poses, where the world holds what the blackboard does.
record Board : Type 0 where
  located : Bool
  goals : List ℕ
  statuses : Option (List (WaypointStatus ℕ))

abbrev board : Waypoints ℕ ℕ Board
board = record {
  poses = λ h. 5 ∷ 6 ∷ [];
  transform_pose = λ g w. (some (g + 1), w);
  note_start = λ w. w;
  set_goals = λ gs w. (gs, record w { goals = gs });
  get_goals = λ w. w.goals;
  set_statuses = λ ss w. record w { statuses = some ss };
  get_statuses = λ w. w.statuses;
}

board-IsBlackboard : IsBlackboard board
board-IsBlackboard = record {
  copies = λ gs w. refl;
  goals_set = λ gs w. refl;
  goals_kept = λ ss w. refl;
  statuses_set = λ ss w. refl;
}

abbrev board_handles : Handles ℕ Board
board_handles = record {
  is_active = λ h w. true;
  is_canceling = λ h w. false;
  abort = λ h w. w;
  canceled = λ h w. w;
  succeed = λ h w. w;
  publish_feedback = λ h w. w;
  complete = λ w. w;
}

abbrev surveyor : Robot ℕ ℕ ℕ ℕ Board
surveyor = record {
  behavior_tree = λ h. 1;
  empty_filename = 0;
  create_tree = λ f w. (true, w);
  get_current_pose = λ w. (w.located, w);
  transform_goal_pose = λ h w. (some h, w);
  set_goal = λ h w. w;
  error_code_of = λ w p. none;
  clear_error_code = λ p w. w;
}

abbrev about_to_start : Session ℕ ℕ ℕ Board
about_to_start = record {
  server = working;
  world = record { located = true; goals = []; statuses = none };
  muxer = record { current_navigator = 0 };
  internal_error_code = 0;
  current_bt_xml_filename = 1;
}

initialize_goal_poses-Begun_example :
    EndsIn
      (Begun board_handles surveyor named_one board board-IsBlackboard 3)
      (initialize_goal_poses board_handles surveyor named_one board (some 3) about_to_start)
initialize_goal_poses-Begun_example =
    initialize_goal_poses-Begun board_handles surveyor named_one board board-IsBlackboard 3
      about_to_start

-- Poses on a line.
abbrev line : Sensors ℕ ℕ (Unit {0})
line = record {
  doubles = record {
    zero = 0;
    one = 1;
    add = ◌+◌;
    sub = ◌-◌;
    mul = ◌*◌;
    div = ◌/◌;
    hypot = ◌+◌;
    lt = ltb;
    le = leb;
  };
  largest = 1000;
  hundredth = 0;
  tenth = 0;
  fabs = λ v. v;
  distance = λ a b. a - b + (b - a);
  current_pose = λ w. 4;
  path = λ w. none;
  odom_linear = λ w. (0, 0);
  number_recoveries = λ w. 0;
  navigation_time = λ w. 0;
}

find_closest_pose_idx-least_example :
    (nearest : ℕ) × (get_elem? (9 ∷ 5 ∷ 1 ∷ []) (find_closest_pose_idx line 4 (9 ∷ 5 ∷ 1 ∷ []))
      ≡ some nearest)
    × All (λ p. ltb (4 - p + (p - 4)) (4 - nearest + (nearest - 4)) ≡ false) (9 ∷ 5 ∷ 1 ∷ [])
find_closest_pose_idx-least_example =
    find_closest_pose_idx-least line
      (record { irreflexive = λ a. ground arith; transitive = λ a b c p q. ground arith }) 4 9
      (5 ∷ 1 ∷ []) refl

second_is_closest : find_closest_pose_idx line 4 (9 ∷ 5 ∷ 1 ∷ []) ≡ 1
unfolding find_closest_pose_idx closest_from
second_is_closest = refl
