-- ===== src/ActionServer/Worker.antt =====
-- Where goals enter the server, and the thread that executes them
-- (nav3d_util/include/nav3d_util/simple_action_server.hpp).
use nav2_3d.Prelude.{Bool, true, false, not, ◌&&◌, ◌||◌, some, Eq, if◌then◌else◌}
use nav2_3d.ActionServer.{
  Handles, Server, active, terminate_current, terminate_slot, terminate_all, accept_pending_goal,
}

-- The thread has left the loop and ends: only then `is_running` is false, and the mutex is not held
-- between the two.
unfoldable pub leave_loop : {H : Type 0} → Server H → Server H
leave_loop s = record s { running = false }

module _ {ℓ} {H : Type 0} {W : Type ℓ} (handles : Handles H W) where
  -- The thread of `work` is started where `running` becomes true.
  unfoldable pub handle_accepted : H → Server H → W → Server H × W
  unfolding terminate_slot
  handle_accepted h s w =
      if active handles s.current_handle w || s.running
      then (let r : Server H × W =
            if active handles s.pending_handle w then terminate_slot handles s w else (s, w) in
          (record (r.0) { pending_handle = some h; preempt_requested = true }, r.1))
      else (let r : Server H × W =
            if active handles s.pending_handle w
            then (let (s1, w1) = terminate_slot handles s w in
                (record s1 { preempt_requested = false }, w1))
            else (s, w) in
          (record (r.0) { current_handle = some h; running = true }, r.1))

  -- The test of the `while` loop; `ok` is rclcpp::ok().
  unfoldable pub goes_on : Bool → Server H → W → Bool
  goes_on ok s w = ok && not s.stop_execution && active handles s.current_handle w

  -- All goals are terminated: in the `catch` of `work`, at the end of a turn at which a stop is
  -- requested, and each time that `deactivate`, which waits for the thread, finds its deadline passed.
  unfoldable pub stop_all : Server H → W → Server H × W
  unfolding terminate_all
  stop_all s w = let (s', w') = terminate_all handles s w in (s', handles.complete w')

  -- A current goal that is still active at the end of a turn was not completed.
  unfoldable pub finish_current : Server H → W → Server H × W
  unfolding terminate_current
  finish_current s w =
      if active handles s.current_handle w
      then (let (s', w') = terminate_current handles s w in (s', handles.complete w'))
      else (s, w)

  -- The pending goal is taken on the same thread, or the loop is left.
  unfoldable pub next_goal : ⦃e : Eq H⦄ → Server H → W → Server H × W
  unfolding accept_pending_goal
  next_goal ⦃e⦄ s w =
      if active handles s.pending_handle w
      then (let (goal, s', w') = accept_pending_goal handles s w in (s', w'))
      else (s, w)

  -- What follows `execute_callback_()` in the loop's body, under the mutex.
  unfoldable pub end_turn : ⦃e : Eq H⦄ → Server H → W → Server H × W
  unfolding stop_all finish_current next_goal
  end_turn ⦃e⦄ s w =
      if s.stop_execution
      then stop_all s w
      else (let (s1, w1) = finish_current s w in next_goal s1 w1)
