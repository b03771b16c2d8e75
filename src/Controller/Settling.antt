-- ===== src/Controller/Settling.antt =====
-- How ControllerServer::computeControl ends (nav3d_controller/src/controller_server.cpp).
use nav2_3d.Prelude.{
  ℕ, zero, suc, ◌≤◌, ◌<◌, false, not, Eq, if_rule, Option-cases, ◌≡◌, refl, subst, ◌⊎◌, inl, inr,
  Option, none, some, List, [], ◌∷◌, arith,
}
use nav2_3d.ActionServer.{
  Handles, Server, get_current_goal, is_cancel_requested, is_preempt_requested, accept_pending_goal,
}
use nav2_3d.ActionServer.Orphans.{AreHandles}
use nav2_3d.ActionServer.Slots.{
  IsOver, terminate_all-IsOver, terminate_current-IsOver, succeeded_current-IsOver,
}
use nav2_3d.Navigation.Engine.{EndsIn}
use nav2_3d.Controller.{Reals, Pose, Settings, Controller, TrajectoryPoint, Frames, reset_filter}
use nav2_3d.Controller.Trajectory.{
  PathCommand, nothing, out_of_range, setpoint, generate_timed_trajectory, is_goal_reached,
}
use nav2_3d.Controller.Segment.{Started, Follows, Started-later, get_current_command-Follows}
use nav2_3d.Controller.Control.{
  State, Surroundings, Round, finished, continues, broken, stop, fail, generate, clear_path,
  start_over, preempted, after_command, publish_command, command, round, control_loop,
  begin_control, compute_control,
}

Round-cases {ℓ} :
    {H D Q : Type 0} {W : Type ℓ} (r : Round H D Q W)
    → ((code : Option ℕ) × (s : State H D Q W) × (r ≡ finished code s))
      ⊎ (((s : State H D Q W) × (r ≡ continues s)) ⊎ (r ≡ broken))
Round-cases (finished code s) = inl (code, s, refl)
Round-cases (continues s) = inr (inl (s, refl))
Round-cases broken = inr (inr refl)

module _ {ℓ} {H D Q : Type 0} {W : Type ℓ} ⦃eh : Eq H⦄ (handles : Handles H W) (reals : Reals D)
    (frames : Frames D Q) (settings : Settings D) (around : Surroundings H D Q W) where
  open around use {path_of, now, get_current_pose, publish, ok, sleep}

  -- The goal is over, or the server is no longer active and its worker is left to end the goal.
  abbrev pub Settled : State H D Q W → Type 0
  Settled s = IsOver handles s.server s.world ⊎ (s.server.server_active ≡ false)

  abbrev StartedNow : State H D Q W → Type 0
  StartedNow s = Started reals frames settings (now s.world) s.controller

  abbrev Proceeds : Round H D Q W → Type 0
  Proceeds (finished code s) = Settled s
  Proceeds (continues s) = StartedNow s
  Proceeds broken = ⊥

  -- Nothing is made, or a state whose index is started.
  abbrev Makes : Option (State H D Q W) → Type 0
  Makes none = Unit
  Makes (some s) = StartedNow s

  abbrev First : Option (Controller D Q) → Type 0
  First none = Unit
  First (some c) = c.current_waypoint_index ≡ 0

  generate_timed_trajectory-First :
      (time : ℕ) (pose : Option (Pose D Q)) (path : List (Pose D Q)) (c : Controller D Q)
      → First (generate_timed_trajectory reals frames settings time pose path c)
  unfolding generate_timed_trajectory reset_filter
  generate_timed_trajectory-First time pose [] c = tt
  generate_timed_trajectory-First time none (p ∷ ps) c = refl
  generate_timed_trajectory-First time (some current) (p ∷ ps) c = refl

  generate-Makes :
      (h : H) (s : State H D Q W) → Makes (generate handles reals frames settings around h s)
  unfolding generate
  generate-Makes h s =
      let made =
        generate_timed_trajectory reals frames settings (now s.world) (get_current_pose s.world)
          (path_of h) s.controller in
      elim (Option-cases made) [
        | inl bad ↦ rw (bad, generate) tt
        | inr (c, good) ↦
            let first =
              generate_timed_trajectory-First (now s.world) (get_current_pose s.world) (path_of h)
                s.controller in
            rw (good, generate) (inl (subst First good first))
      ]

  module _ (laws : AreHandles handles)
      (publish_later : (out : TrajectoryPoint D Q) (w : W) → now w ≤ now (publish out w))
      (sleep_later : (server : Server H) (w : W) → now w ≤ now (sleep server w).1) where
    stop-Settled : (s : State H D Q W) → Settled (stop handles reals frames settings around s)
    unfolding stop
    stop-Settled s = inl (terminate_all-IsOver handles laws s.server s.world)

    start_over-Proceeds :
        (goal : Option H) (s : State H D Q W)
        → Proceeds (start_over handles reals frames settings around goal s)
    unfolding start_over fail
    start_over-Proceeds none s = stop-Settled s
    start_over-Proceeds (some h) s =
        let cleared : State H D Q W = record s {
          controller = clear_path handles reals frames settings around s.controller;
        } in
        elim (Option-cases (generate handles reals frames settings around h cleared)) [
          | inl bad ↦ rw (bad, start_over) (inl (terminate_current-IsOver handles s.server s.world))
          | inr (s', good) ↦ rw (good, start_over) (subst Makes good (generate-Makes h cleared))
        ]

    preempted-Proceeds :
        (s : State H D Q W)
        → StartedNow s
        → Proceeds (preempted handles reals frames settings around s)
    unfolding preempted
    preempted-Proceeds s started =
        let (goal, server, w) = accept_pending_goal handles s.server s.world in
        if_rule Proceeds (is_preempt_requested s.server)
          (λ _.
            start_over-Proceeds (get_current_goal handles server w)
              (record s { server = server; world = w }))
          (λ _. started)

    after_command-Proceeds :
        (s : State H D Q W)
        → StartedNow s
        → Proceeds (after_command handles reals frames settings around s)
    unfolding after_command
    after_command-Proceeds s started =
        if_rule Proceeds
          (is_goal_reached reals frames settings (get_current_pose s.world) s.controller)
          (λ _. inl (succeeded_current-IsOver handles s.server s.world))
          (λ _.
            Started-later reals frames settings _ _ s.controller (sleep_later s.server s.world)
              started)

    publish_command-Proceeds :
        (r : Option (PathCommand reals frames settings × Controller D Q)) (s : State H D Q W)
        → Follows reals frames settings (now s.world) r
        → Proceeds (publish_command handles reals frames settings around r s)
    unfolding publish_command
    publish_command-Proceeds none s never = absurd never
    publish_command-Proceeds (some (nothing, c)) s (safe, started) =
        after_command-Proceeds (record s { controller = c }) started
    publish_command-Proceeds (some (out_of_range, c)) s (safe, started) = absurd (safe refl)
    publish_command-Proceeds (some (setpoint out, c)) s (safe, started) =
        after_command-Proceeds (record s { controller = c; world = publish out s.world })
          (Started-later reals frames settings _ _ c (publish_later out s.world) started)

    command-Proceeds :
        (r : Round H D Q W) → Proceeds r → Proceeds (command handles reals frames settings around r)
    unfolding command
    command-Proceeds (finished code s) settled = settled
    command-Proceeds broken never = absurd never
    command-Proceeds (continues s) started = publish_command-Proceeds _ s (
        get_current_command-Follows reals frames settings (now s.world) (now s.world)
          (get_current_pose s.world) s.controller started (omega arith))

    round-Proceeds :
        (s : State H D Q W) → StartedNow s → Proceeds (round handles reals frames settings around s)
    unfolding round
    round-Proceeds s started =
        if_rule Proceeds (not (ok s.world)) (λ _. stop-Settled s)
          (λ _.
            if_rule Proceeds (not s.server.server_active) (λ off. inr (ground arith))
              (λ _.
                if_rule Proceeds (is_cancel_requested handles s.server s.world)
                  (λ _. stop-Settled s)
                  (λ _.
                    command-Proceeds (preempted handles reals frames settings around s)
                      (preempted-Proceeds s started))))

    module _ (turns : State H D Q W → ℕ)
        (fewer : (s s' : State H D Q W)
          → round handles reals frames settings around s ≡ continues s'
          → turns s' < turns s) where
      control_loop-Settled :
          (fuel : ℕ) (s : State H D Q W)
          → StartedNow s
          → turns s < fuel
          → EndsIn
              (λ (r : Option ℕ × State H D Q W). Settled r.1)
              (control_loop handles reals frames settings around fuel s)
      unfolding control_loop
      control_loop-Settled zero s started enough = absurd (omega (arith, enough))
      control_loop-Settled (suc fuel) s started enough =
          elim (Round-cases (round handles reals frames settings around s)) [
            | inl (code, s', ended) ↦
                rw (ended, control_loop) (subst Proceeds ended (round-Proceeds s started))
            | inr (inl (s', on)) ↦
                rw (on, control_loop)
                  (control_loop-Settled fuel s' (subst Proceeds on (round-Proceeds s started))
                    (omega (arith, enough, fewer s s' on)))
            | inr (inr bad) ↦ absurd (subst Proceeds bad (round-Proceeds s started))
          ]

      begin_control-Settled :
          (fuel : ℕ) (goal : Option H) (s : State H D Q W)
          → ((s' : State H D Q W) → turns s' < fuel)
          → EndsIn
              (λ (r : Option ℕ × State H D Q W). Settled r.1)
              (begin_control handles reals frames settings around fuel goal s)
      unfolding begin_control fail
      begin_control-Settled fuel none s enough = stop-Settled s
      begin_control-Settled fuel (some h) s enough =
          elim (Option-cases (generate handles reals frames settings around h s)) [
            | inl bad ↦
                rw (bad, begin_control) (inl (terminate_current-IsOver handles s.server s.world))
            | inr (s', good) ↦
                rw (good, begin_control)
                  (control_loop-Settled fuel s' (subst Makes good (generate-Makes h s)) (enough s'))
          ]

      -- computeControl reads no entry past the end of the path and ends, and then the goal that
      -- the server holds is no longer active, or the server has been deactivated: where there is
      -- no goal, where the path of a goal is empty, where the goal is reached, cancelled or
      -- preempted any number of times, and where ROS is shut down. The conditions: publishing and
      -- sleeping do not set the clock back, a measure falls with every round that goes on and is
      -- everywhere below the fuel, and the handles obey their laws.
      pub compute_control-Settled :
          (fuel : ℕ) (s : State H D Q W)
          → ((s' : State H D Q W) → turns s' < fuel)
          → EndsIn
              (λ (r : Option ℕ × State H D Q W). Settled r.1)
              (compute_control handles reals frames settings around fuel s)
      unfolding compute_control
      compute_control-Settled fuel s enough =
          begin_control-Settled fuel (get_current_goal handles s.server s.world) s enough
