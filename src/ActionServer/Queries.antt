-- ===== src/ActionServer/Queries.antt =====
-- What the server's queries answer after its operations, and whether it takes goals.
use nav2_3d.Prelude.{true, false, none, some, Eq, ◌≡◌, ◌≢◌, ◌⊎◌, refl, arith, List, [], ◌∷◌, All}
use nav2_3d.ActionServer.{
  Handles, Server, terminate_current, terminate_slot, terminate_all, terminate_pending_goal,
  succeeded_current, accept_pending_goal, get_current_goal, get_pending_goal, is_preempt_requested,
  handle_goal, reject, begin_deactivate,
}
use nav2_3d.ActionServer.Worker.{
  handle_accepted, stop_all, finish_current, next_goal, end_turn, leave_loop,
}
use nav2_3d.ActionServer.Events.{
  Event, goal_enters, client_acts, activates, deactivates, misses_deadline, accepts_pending,
  terminates_pending, terminates_all, terminates_current, succeeds_current, publishes,
  callback_threw, turn_ended, loop_left, step, run,
}

module _ {ℓ} {H : Type 0} {W : Type ℓ} ⦃e : Eq H⦄ (handles : Handles H W) where
  open handles use {is_active}

  -- A goal that is accepted and still active afterwards is the one that get_current_goal returns,
  -- or it is the one that get_pending_goal returns and a preemption is requested.
  pub handle_accepted-visible :
      (h : H) (s : Server H) (w : W)
      → let r = handle_accepted handles h s w in
        is_active h r.1 ≡ true
        → (get_current_goal handles r.0 r.1 ≡ some h)
          ⊎ ((get_pending_goal handles r.0 r.1 ≡ some h) × (is_preempt_requested r.0 ≡ true))
  unfolding handle_accepted get_current_goal get_pending_goal is_preempt_requested terminate_slot
  handle_accepted-visible h s w live = ground arith

  -- accept_pending_goal returns the goal that get_pending_goal would have returned. If there is
  -- one, it becomes the current goal, no goal is pending and no preemption is requested; if not,
  -- nothing changes.
  pub accept_pending_goal-get_pending_goal :
      (s : Server H) (w : W)
      → let (goal, s', w') = accept_pending_goal handles s w in
        (goal ≡ get_pending_goal handles s w)
        × (goal ≢ none
            → (s'.current_handle ≡ goal)
              × (get_pending_goal handles s' w' ≡ none)
              × (is_preempt_requested s' ≡ false))
        × (goal ≡ none → (s' ≡ s) × (w' ≡ w))
  unfolding accept_pending_goal get_pending_goal is_preempt_requested
  accept_pending_goal-get_pending_goal s w = ground arith

  -- Only `activate` makes the server active.
  step-inactive :
      (v : Event handles) (s : Server H) (w : W)
      → v ≢ activates
      → s.server_active ≡ false
      → (step handles v s w).0.server_active ≡ false
  unfolding step handle_accepted stop_all end_turn finish_current next_goal leave_loop
      accept_pending_goal terminate_pending_goal terminate_slot terminate_current terminate_all
      succeeded_current begin_deactivate
  step-inactive (goal_enters h f quiet) s w other off = ground arith
  step-inactive (client_acts f quiet) s w other off = off
  step-inactive activates s w other off = absurd (other refl)
  step-inactive deactivates s w other off = refl
  step-inactive misses_deadline s w other off = off
  step-inactive accepts_pending s w other off = ground arith
  step-inactive terminates_pending s w other off = ground arith
  step-inactive terminates_all s w other off = off
  step-inactive terminates_current s w other off = off
  step-inactive succeeds_current s w other off = off
  step-inactive publishes s w other off = off
  step-inactive callback_threw s w other off = off
  step-inactive turn_ended s w other off = ground arith
  step-inactive loop_left s w other off = off

  -- A server that is not active, as deactivate leaves it, rejects every goal after any history in
  -- which activate is not called.
  pub run-handle_goal :
      (vs : List (Event handles)) (s : Server H) (w : W)
      → All (λ v. v ≢ activates) vs
      → s.server_active ≡ false
      → handle_goal (run handles vs s w).0 ≡ reject
  unfolding run handle_goal
  run-handle_goal [] s w others off = ground arith
  run-handle_goal (v ∷ vs) s w others off =
      let (s', w') = step handles v s w in
      run-handle_goal vs s' w' others.1 (step-inactive v s w others.0 off)
