-- ===== src/Planner/Examples.antt =====
-- The planner server on concrete values.
use nav2_3d.Prelude.{
  ℕ, Bool, true, false, ◌||◌, Eq, contains, ◌==◌, ==_iff, if◌then◌else◌, inl, inr, none, some, List,
  [], ◌∷◌, ◌≡◌, refl, arith,
}
use nav2_3d.ActionServer.{Handles}
use nav2_3d.ActionServer.Orphans.{AreHandles}
use nav2_3d.Planner.{
  Exception, start_occupied, Request, State, Planning, Planners, configure, get_planner_or_throw,
  compute_plan,
}
use nav2_3d.Planner.Loading.{found, configure-get_planner_or_throw}
use nav2_3d.Planner.Settling.{Settles, compute_plan-Settles}

instance numbers : Eq ℕ
numbers = record { beq = ◌==◌; beq_iff = ==_iff }

abbrev ended : ℕ → (ℕ → Bool) → ℕ → Bool
ended h w x = if x == h then false else w x

abbrev numbered : Handles ℕ (ℕ → Bool)
numbered = record {
  is_active = λ h w. w h;
  is_canceling = λ h w. false;
  abort = ended;
  canceled = ended;
  succeed = ended;
  publish_feedback = λ h w. w;
  complete = λ w. w;
}

numbered-AreHandles : AreHandles numbered
numbered-AreHandles = record {
  abort_ends = λ h w. ground arith;
  canceled_ends = λ h w. ground arith;
  succeed_ends = λ h w. ground arith;
  abort_quiet = λ h x w live. ground arith;
  canceled_quiet = λ h x w live. ground arith;
  succeed_quiet = λ h x w live. ground arith;
  send_quiet = λ h x w live. live;
  complete_quiet = λ x w live. live;
}

-- Planners are their names, and 0 is the empty one; poses are their frames. A start in frame 9 is occupied.
abbrev numbered_planning : Planning ℕ ℕ ℕ ℕ ℕ ℕ (ℕ → Bool)
numbered_planning = record {
  request = λ h. record { use_start = true; start = h; goal = 1; planner_id = 0 };
  frame_id = λ p. p;
  empty_frame = 0;
  global_frame = 1;
  empty_id = 0;
  get_current_pose = λ s. (some 1, s);
  transform_pose = λ p s. (some p, s);
  create_plan = λ l start goal s. (if start == 9 then inl start_occupied else inr 5, s);
  has_no_poses = λ path. path == 0;
  publish = λ path w. w;
  create = λ i. some i;
  checker = λ l. none;
}

abbrev planner_plugins : List ℕ
planner_plugins = 4 ∷ 6 ∷ []

abbrev loaded : Planners ℕ ℕ
loaded = (configure numbered numbered_planning planner_plugins).1

configure-get_planner_or_throw_example :
    found numbered numbered_planning (get_planner_or_throw numbered numbered_planning loaded 6)
    ≡ ((numbers.beq 6 0) || contains planner_plugins 6)
unfolding configure nav2_3d.Planner.load
configure-get_planner_or_throw_example =
    configure-get_planner_or_throw numbered numbered_planning planner_plugins refl 6

abbrev planning_for : State ℕ (ℕ → Bool)
planning_for = record {
  server = record {
    server_active = true;
    stop_execution = false;
    preempt_requested = false;
    current_handle = some 9;
    pending_handle = none;
    running = true;
  };
  world = λ x. true;
}

compute_plan-Settles_example :
    Settles numbered numbered_planning (compute_plan numbered numbered_planning loaded planning_for)
compute_plan-Settles_example =
    compute_plan-Settles numbered numbered_planning numbered-AreHandles loaded planning_for refl
      refl (λ asked. absurd (cc))
