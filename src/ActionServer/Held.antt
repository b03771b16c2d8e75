-- ===== src/ActionServer/Held.antt =====
-- The goals that the server holds along a history (nav3d_util's simple_action_server.hpp).
use nav2_3d.Prelude.{true, Eq, if_rule, ◌≡◌, ◌≢◌, inl, inr, refl, eq_cases, List, [], ◌∷◌, All}
use nav2_3d.ActionServer.{
  Handles, Server, active, terminate_current, terminate_all, activate, begin_deactivate,
}
use nav2_3d.ActionServer.Worker.{
  handle_accepted, stop_all, finish_current, next_goal, end_turn, leave_loop,
}
use nav2_3d.ActionServer.Orphans.{
  AreHandles, Kept, terminate_all-Kept, terminate_current-Kept, accept_pending_goal-Kept,
  terminate_pending_goal-Kept, succeeded_current-Kept, publish_feedback-Kept, handle_accepted-Kept,
}
use nav2_3d.ActionServer.Events.{
  Event, goal_enters, client_acts, activates, deactivates, misses_deadline, accepts_pending,
  terminates_pending, terminates_all, terminates_current, succeeds_current, publishes,
  callback_threw, turn_ended, loop_left, step, run, enters, entered,
}

module _ {ℓ} {H : Type 0} {W : Type ℓ} ⦃e : Eq H⦄ (handles : Handles H W)
    (laws : AreHandles handles) where
  complete-Kept :
      (x : H) (s : Server H) (w : W) → Kept handles s w x → Kept handles s (handles.complete w) x
  complete-Kept x s w k live = k (laws.complete_quiet x w live)

  stop_all-Kept :
      (x : H) (s : Server H) (w : W)
      → Kept handles s w x
      → let r = stop_all handles s w in Kept handles r.0 r.1 x
  unfolding stop_all
  stop_all-Kept x s w k =
      let (s', w') = terminate_all handles s w in
      complete-Kept x s' w' (terminate_all-Kept handles laws x s w k)

  finish_current-Kept :
      (x : H) (s : Server H) (w : W)
      → Kept handles s w x
      → let r = finish_current handles s w in Kept handles r.0 r.1 x
  unfolding finish_current
  finish_current-Kept x s w k =
      let (s', w') = terminate_current handles s w in
      if_rule (λ (r : Server H × W). Kept handles r.0 r.1 x) (active handles s.current_handle w)
        (λ _. complete-Kept x s' w' (terminate_current-Kept handles laws x s w k)) (λ _. k)

  next_goal-Kept :
      (x : H) (s : Server H) (w : W)
      → Kept handles s w x
      → let r = next_goal handles s w in Kept handles r.0 r.1 x
  unfolding next_goal
  next_goal-Kept x s w k =
      if_rule (λ (r : Server H × W). Kept handles r.0 r.1 x) (active handles s.pending_handle w)
        (λ _. accept_pending_goal-Kept handles laws x s w k) (λ _. k)

  end_turn-Kept :
      (x : H) (s : Server H) (w : W)
      → Kept handles s w x
      → let r = end_turn handles s w in Kept handles r.0 r.1 x
  unfolding end_turn
  end_turn-Kept x s w k =
      let (s1, w1) = finish_current handles s w in
      if_rule (λ (r : Server H × W). Kept handles r.0 r.1 x) s.stop_execution
        (λ _. stop_all-Kept x s w k) (λ _. next_goal-Kept x s1 w1 (finish_current-Kept x s w k))

  goal_enters-Kept :
      (x h : H) (s : Server H) (w w' : W)
      → (x ≢ h → handles.is_active x w' ≡ true → handles.is_active x w ≡ true)
      → Kept handles s w x
      → let r = handle_accepted handles h s w' in Kept handles r.0 r.1 x
  goal_enters-Kept x h s w w' quiet k = elim (eq_cases x h) [
    | inl same ↦ handle_accepted-Kept handles laws x h s w' (inl same)
    | inr differs ↦
        handle_accepted-Kept handles laws x h s w' (inr (λ live. k (quiet differs live)))
  ]

  step-Kept :
      (v : Event handles) (x : H) (s : Server H) (w : W)
      → Kept handles s w x
      → let r = step handles v s w in Kept handles r.0 r.1 x
  unfolding step activate begin_deactivate leave_loop
  step-Kept (goal_enters h f quiet) x s w k = goal_enters-Kept x h s w (f w) (quiet x w) k
  step-Kept (client_acts f quiet) x s w k = λ live. k (quiet x w live)
  step-Kept activates x s w k = k
  step-Kept deactivates x s w k = k
  step-Kept misses_deadline x s w k = stop_all-Kept x s w k
  step-Kept accepts_pending x s w k = accept_pending_goal-Kept handles laws x s w k
  step-Kept terminates_pending x s w k = terminate_pending_goal-Kept handles laws x s w k
  step-Kept terminates_all x s w k = terminate_all-Kept handles laws x s w k
  step-Kept terminates_current x s w k = terminate_current-Kept handles laws x s w k
  step-Kept succeeds_current x s w k = succeeded_current-Kept handles laws x s w k
  step-Kept publishes x s w k = publish_feedback-Kept handles laws x s w k
  step-Kept callback_threw x s w k = stop_all-Kept x s w k
  step-Kept turn_ended x s w k = end_turn-Kept x s w k
  step-Kept loop_left x s w k = k

  All-step :
      (v : Event handles) (s : Server H) (w : W) (hs : List H)
      → All (Kept handles s w) hs
      → let r = step handles v s w in All (Kept handles r.0 r.1) hs
  All-step v s w [] k = tt
  All-step v s w (h ∷ hs) k = (step-Kept v h s w k.0, All-step v s w hs k.1)

  enters-Kept :
      (v : Event handles) (s : Server H) (w : W) (hs : List H)
      → All (Kept handles s w) hs
      → let r = step handles v s w in All (Kept handles r.0 r.1) (enters handles v hs)
  unfolding step
  enters-Kept (goal_enters h f quiet) s w hs k = (
    handle_accepted-Kept handles laws h h s (f w) (inl refl),
    All-step (goal_enters h f quiet) s w hs k,
  )
  enters-Kept (client_acts f quiet) s w hs k = All-step (client_acts f quiet) s w hs k
  enters-Kept activates s w hs k = All-step activates s w hs k
  enters-Kept deactivates s w hs k = All-step deactivates s w hs k
  enters-Kept misses_deadline s w hs k = All-step misses_deadline s w hs k
  enters-Kept accepts_pending s w hs k = All-step accepts_pending s w hs k
  enters-Kept terminates_pending s w hs k = All-step terminates_pending s w hs k
  enters-Kept terminates_all s w hs k = All-step terminates_all s w hs k
  enters-Kept terminates_current s w hs k = All-step terminates_current s w hs k
  enters-Kept succeeds_current s w hs k = All-step succeeds_current s w hs k
  enters-Kept publishes s w hs k = All-step publishes s w hs k
  enters-Kept callback_threw s w hs k = All-step callback_threw s w hs k
  enters-Kept turn_ended s w hs k = All-step turn_ended s w hs k
  enters-Kept loop_left s w hs k = All-step loop_left s w hs k

  -- In every history of the action server, a goal that has entered and is still active is the
  -- current or the pending goal of the server, if this holds of the goals that entered before and
  -- the handles obey their laws (a finished handle is not active and no call of the server
  -- activates one).
  pub run-Kept :
      (vs : List (Event handles)) (s : Server H) (w : W) (hs : List H)
      → All (Kept handles s w) hs
      → let r = run handles vs s w in All (Kept handles r.0 r.1) (entered handles vs hs)
  unfolding run
  run-Kept [] s w hs k = k
  run-Kept (v ∷ vs) s w hs k =
      let (s', w') = step handles v s w in
      run-Kept vs s' w' (enters handles v hs) (enters-Kept v s w hs k)
