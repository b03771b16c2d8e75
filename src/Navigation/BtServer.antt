-- ===== src/Navigation/BtServer.antt =====
-- BtActionServer::executeCallback (nav3d_behavior_tree/include/nav3d_behavior_tree/bt_action_server_impl.hpp),
-- with BehaviorTreeNavigator::onGoalReceived and onCompletion
-- (nav3d_core/include/nav3d_core/behavior_tree_navigator.hpp) that it calls.
pub mod Settled
pub mod Release
pub mod Preempt
use nav2_3d.Prelude.{
  ℕ, Bool, true, false, not, ◌||◌, Eq, if◌then◌else◌, Option, none, some, List, [], ◌∷◌,
}
use nav2_3d.ActionServer.{
  Handles, Server, get_current_goal, get_pending_goal, is_preempt_requested, is_cancel_requested,
  terminate_current, terminate_all, succeeded_current,
}
use nav2_3d.Navigation.Muxer.{is_navigating, start_navigating, stop_navigating}
use nav2_3d.Navigation.Engine.{
  BtStatus, succeeded, failed, canceled, Call, normal, throws, Run, ends, crashes, out_of_fuel,
  Callbacks, run,
}
use nav2_3d.Navigation.Engine as Engine
use nav2_3d.Navigation.Errors.{populate_error_code}
use nav2_3d.Navigation.Session.{Session, Setup, Robot, Tree}
use nav2_3d.Navigation.ToPose.{goal_received, on_preempt, send_feedback, goal_completed}

-- What is reported of a goal: its end, and the error code of its result.
pub record Report : Type 0 where
  pub status : BtStatus
  pub error_code : ℕ

module _ {ℓ} {H N F G P : Type 0} {W : Type ℓ} ⦃eh : Eq H⦄ ⦃en : Eq N⦄ ⦃ef : Eq F⦄ (empty : N)
    (handles : Handles H W) (robot : Robot H F G P W) (setup : Setup N F P)
    (tree : Tree H N W) where
  -- The muxer once the other navigators have acted on it.
  unfoldable pub meanwhile : Session H N F W → Session H N F W
  meanwhile s = record s { muxer = tree.others s.world s.muxer }

  -- `onGoalReceived` after `goalReceived`, in which the muxer is not locked.
  unfoldable pub after_goal_received : Run (Bool × Session H N F W) → Run (Bool × Session H N F W)
  unfolding meanwhile
  after_goal_received (ends (accepted, s)) =
      let s' = meanwhile s in
      ends (
        accepted,
        if accepted then record s' { muxer = start_navigating setup.name s'.muxer } else s',
      )
  after_goal_received crashes = crashes
  after_goal_received out_of_fuel = out_of_fuel

  unfoldable pub on_goal_received : Option H → Session H N F W → Run (Bool × Session H N F W)
  unfolding after_goal_received
  on_goal_received goal s =
      if is_navigating empty s.muxer
      then ends (false, s)
      else after_goal_received (goal_received handles robot setup goal s)

  unfoldable pub is_canceling : Session H N F W → Bool
  is_canceling s = not s.server.server_active || is_cancel_requested handles s.server s.world

  -- `onLoop` of the navigator, once a preemption is served.
  unfoldable pub after_preempt : Session H N F W → Run (Session H N F W) → Call × Session H N F W
  after_preempt s (ends s') = (normal, send_feedback handles robot setup s')
  after_preempt s crashes = (Engine.Call.crashes, s)
  after_preempt s out_of_fuel = (normal, s)

  unfoldable pub on_loop : Session H N F W → Call × Session H N F W
  unfolding after_preempt
  on_loop s =
      let preempted : Run (Session H N F W) =
        if is_preempt_requested s.server
        then on_preempt handles robot setup (get_pending_goal handles s.server s.world) s
        else ends s in
      after_preempt s preempted

  abbrev pub callbacks : Callbacks (Session H N F W)
  callbacks = record {
    ok = λ s. tree.ok s.world;
    cancel_requested = is_canceling;
    halt_tree = λ s. record s { world = tree.halt_tree s.world };
    tick_once = λ s.
        let (o, server, w) = tree.tick_once s.server s.world in
        (o, meanwhile (record s { server = server; world = w }));
    on_loop = on_loop;
    sleep = λ s. record s { world = tree.sleep s.world };
  }

  clear_codes : List P → W → W
  clear_codes [] w = w
  clear_codes (p ∷ ps) w = clear_codes ps (robot.clear_error_code p w)

  unfoldable pub clean_error_codes : Session H N F W → Session H N F W
  unfolding clear_codes
  clean_error_codes s = record s {
    world = clear_codes setup.error_code_name_prefixes s.world;
    internal_error_code = 0;
  }

  unfoldable pub on_completion : Session H N F W → Session H N F W
  on_completion s = record s { muxer = stop_navigating empty setup.name s.muxer }

  -- The `switch` on the end of the run.
  unfoldable pub settle : BtStatus → Session H N F W → Session H N F W
  settle succeeded s =
      let (server, w) = succeeded_current handles s.server s.world in
      record s { server = server; world = w }
  settle failed s =
      let (server, w) = terminate_current handles s.server s.world in
      record s { server = server; world = w }
  settle canceled s =
      let (server, w) = terminate_all handles s.server s.world in
      record s { server = server; world = w }

  abbrev pub error_code : Session H N F W → ℕ
  error_code s =
      populate_error_code (robot.error_code_of s.world) setup.error_code_name_prefixes
        s.internal_error_code

  -- A goal that is not accepted.
  unfoldable pub refuse : Session H N F W → Report × Session H N F W
  unfolding settle clean_error_codes meanwhile
  refuse s = (
    record { status = failed; error_code = error_code s },
    meanwhile (clean_error_codes (settle failed s)),
  )

  -- What follows `bt_->run`.
  unfoldable pub complete : BtStatus → Session H N F W → Report × Session H N F W
  unfolding settle clean_error_codes on_completion meanwhile
  complete rc s =
      let halted : Session H N F W = record s { world = tree.halt_tree s.world } in
      let done = on_completion halted in
      (
        record {
          status = rc;
          error_code = goal_completed handles robot setup (error_code halted) done;
        },
        meanwhile (clean_error_codes (settle rc done)),
      )

  unfoldable pub after_run : Run (BtStatus × Session H N F W) → Run (Report × Session H N F W)
  unfolding complete
  after_run (ends (rc, s)) = ends (complete rc s)
  after_run crashes = crashes
  after_run out_of_fuel = out_of_fuel

  unfoldable pub after_received : ℕ → Run (Bool × Session H N F W) → Run (Report × Session H N F W)
  unfolding refuse after_run
  after_received fuel (ends (accepted, s)) =
      if not accepted then ends (refuse s) else after_run (run callbacks fuel s)
  after_received fuel crashes = crashes
  after_received fuel out_of_fuel = out_of_fuel

  unfoldable pub execute_callback : ℕ → Session H N F W → Run (Report × Session H N F W)
  unfolding on_goal_received after_received
  execute_callback fuel s =
      after_received fuel (on_goal_received (get_current_goal handles s.server s.world) s)
