-- ===== src/Controller/Control.antt =====
-- ControllerServer::computeControl (nav3d_controller/src/controller_server.cpp). The goals are paths; the
-- exceptions that the code itself throws are InvalidPath, and a command that reads past the end of the path
-- is told apart.
use nav2_3d.Prelude.{ℕ, zero, suc, Bool, not, Eq, if◌then◌else◌, Option, none, some, List, []}
use nav2_3d.ActionServer.{
  Handles, Server, get_current_goal, is_cancel_requested, is_preempt_requested, accept_pending_goal,
  terminate_all, terminate_current, succeeded_current,
}
use nav2_3d.Navigation.Engine.{Run, ends, crashes, out_of_fuel}
use nav2_3d.Controller.{Reals, Pose, Settings, Controller, TrajectoryPoint, Frames}
use nav2_3d.Controller.Trajectory.{
  PathCommand, nothing, out_of_range, setpoint, generate_timed_trajectory, get_current_command,
  is_goal_reached,
}

-- FollowPath.action.
abbrev pub invalid_path : ℕ
invalid_path = 103

-- The action server, the world and the members.
pub record State {ℓ} (H D Q : Type 0) (W : Type ℓ) : Type ℓ where
  pub server : Server H
  pub world : W
  pub controller : Controller D Q

-- The path of a goal, the clock, the transforms, the publisher, rclcpp::ok() and the sleep, during which
-- other threads act on the server.
pub record Surroundings {ℓ} (H D Q : Type 0) (W : Type ℓ) : Type ℓ where
  pub path_of : H → List (Pose D Q)
  pub now : W → ℕ
  pub get_current_pose : W → Option (Pose D Q)
  pub publish : TrajectoryPoint D Q → W → W
  pub ok : W → Bool
  pub sleep : Server H → W → Server H × W

-- What a round of the loop does: the callback returns, with the code that it reports if any, the loop goes
-- on, or memory past the end of the path is read.
pub data Round {ℓ} (H D Q : Type 0) (W : Type ℓ) : Type ℓ where
  finished : Option ℕ → State H D Q W → Round H D Q W
  continues : State H D Q W → Round H D Q W
  broken : Round H D Q W

module _ {ℓ} {H D Q : Type 0} {W : Type ℓ} ⦃eh : Eq H⦄ (handles : Handles H W) (reals : Reals D)
    (frames : Frames D Q) (settings : Settings D) (around : Surroundings H D Q W) where
  open around use {path_of, now, get_current_pose, publish, ok, sleep}

  unfoldable pub stop : State H D Q W → State H D Q W
  stop s =
      let (server, w) = terminate_all handles s.server s.world in
      record s { server = server; world = w }

  -- The `catch` of InvalidPath.
  unfoldable pub fail : State H D Q W → State H D Q W
  fail s =
      let (server, w) = terminate_current handles s.server s.world in
      record s { server = server; world = w }

  -- `generateTimedTrajectory(goal->path)`.
  unfoldable pub generate : H → State H D Q W → Option (State H D Q W)
  generate h s =
      elim (generate_timed_trajectory reals frames settings (now s.world) (get_current_pose s.world)
        (path_of h) s.controller) [ none ↦ none | some c ↦ some (record s { controller = c }) ]

  unfoldable pub clear_path : Controller D Q → Controller D Q
  clear_path c = record c { current_path = []; current_waypoint_index = 0 }

  -- The new goal after `accept_pending_goal`.
  unfoldable pub start_over : Option H → State H D Q W → Round H D Q W
  unfolding stop fail generate clear_path
  start_over none s = finished none (stop s)
  start_over (some h) s =
      let cleared : State H D Q W = record s { controller = clear_path s.controller } in
      elim (generate h cleared) [
        | none ↦ finished (some invalid_path) (fail cleared)
        | some s' ↦ continues s'
      ]

  unfoldable pub preempted : State H D Q W → Round H D Q W
  unfolding start_over
  preempted s =
      if is_preempt_requested s.server
      then (let (goal, server, w) = accept_pending_goal handles s.server s.world in
          start_over (get_current_goal handles server w) (record s { server = server; world = w }))
      else continues s

  -- After the command: is the goal reached?
  unfoldable pub after_command : State H D Q W → Round H D Q W
  unfolding clear_path
  after_command s =
      if is_goal_reached reals frames settings (get_current_pose s.world) s.controller
      then (let (server, w) = succeeded_current handles s.server s.world in
          finished none
            (record { server = server; world = w; controller = clear_path s.controller }))
      else (let (server, w) = sleep s.server s.world in
          continues (record s { server = server; world = w }))

  -- What is published.
  unfoldable pub publish_command :
      Option (PathCommand reals frames settings × Controller D Q) → State H D Q W → Round H D Q W
  unfolding after_command
  publish_command none s = broken
  publish_command (some (nothing, c)) s = after_command (record s { controller = c })
  publish_command (some (out_of_range, c)) s = broken
  publish_command (some (setpoint out, c)) s =
      after_command (record s { controller = c; world = publish out s.world })

  unfoldable pub command : Round H D Q W → Round H D Q W
  unfolding publish_command
  command (finished code s) = finished code s
  command broken = broken
  command (continues s) =
      publish_command
        (get_current_command reals frames settings (now s.world) (get_current_pose s.world)
          s.controller)
        s

  -- A round of the `while` loop, and what follows the loop.
  unfoldable pub round : State H D Q W → Round H D Q W
  unfolding stop preempted command
  round s =
      if not (ok s.world)
      then finished none (stop s)
      else if not s.server.server_active
      then finished none s
      else if is_cancel_requested handles s.server s.world
      then finished none (stop s)
      else command (preempted s)

  unfoldable pub control_loop : ℕ → State H D Q W → Run (Option ℕ × State H D Q W)
  unfolding round
  control_loop zero s = out_of_fuel
  control_loop (suc fuel) s = elim (round s) [
    | finished code s' ↦ ends (code, s')
    | continues s' ↦ control_loop fuel s'
    | broken ↦ crashes
  ]

  unfoldable pub begin_control : ℕ → Option H → State H D Q W → Run (Option ℕ × State H D Q W)
  unfolding control_loop stop fail generate
  begin_control fuel none s = ends (none, stop s)
  begin_control fuel (some h) s = elim (generate h s) [
    | none ↦ ends (some invalid_path, fail s)
    | some s' ↦ control_loop fuel s'
  ]

  unfoldable pub compute_control : ℕ → State H D Q W → Run (Option ℕ × State H D Q W)
  unfolding begin_control
  compute_control fuel s = begin_control fuel (get_current_goal handles s.server s.world) s
