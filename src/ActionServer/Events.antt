-- ===== src/ActionServer/Events.antt =====
-- Histories of the action server: goals that enter, the methods that the owner, the executed callback
-- and the worker thread call, and the clients, in any order. Every step runs under `update_mutex_`.
use nav2_3d.Prelude.{true, Eq, ◌≡◌, ◌≢◌, List, [], ◌∷◌}
use nav2_3d.ActionServer.{
  Handles, Server, terminate_current, terminate_all, accept_pending_goal, terminate_pending_goal,
  succeeded_current, publish_feedback, activate, begin_deactivate,
}
use nav2_3d.ActionServer.Worker.{handle_accepted, stop_all, end_turn, leave_loop}

module _ {ℓ} {H : Type 0} {W : Type ℓ} ⦃e : Eq H⦄ (handles : Handles H W) where
  pub data Event : Type ℓ where
    -- A goal enters under a new handle: the middleware may activate that handle and no other.
    goal_enters :
        (h : H) (f : W → W)
        → ((x : H) (w : W)
            → x ≢ h
            → handles.is_active x (f w) ≡ true
            → handles.is_active x w ≡ true)
        → Event
    -- A client, as by asking to cancel: it activates no handle.
    client_acts :
        (f : W → W)
        → ((x : H) (w : W) → handles.is_active x (f w) ≡ true → handles.is_active x w ≡ true)
        → Event
    activates deactivates misses_deadline : Event
    accepts_pending terminates_pending terminates_all terminates_current succeeds_current : Event
    publishes : Event
    callback_threw turn_ended loop_left : Event

  unfoldable pub step : Event → Server H → W → Server H × W
  step (goal_enters h f quiet) s w = handle_accepted handles h s (f w)
  step (client_acts f quiet) s w = (s, f w)
  step activates s w = (activate s, w)
  step deactivates s w = (begin_deactivate s, w)
  step misses_deadline s w = stop_all handles s w
  step accepts_pending s w = let (goal, s', w') = accept_pending_goal handles s w in (s', w')
  step terminates_pending s w = terminate_pending_goal handles s w
  step terminates_all s w = terminate_all handles s w
  step terminates_current s w = terminate_current handles s w
  step succeeds_current s w = succeeded_current handles s w
  step publishes s w = (s, publish_feedback handles s w)
  step callback_threw s w = stop_all handles s w
  step turn_ended s w = end_turn handles s w
  step loop_left s w = (leave_loop s, w)

  unfoldable pub run : List Event → Server H → W → Server H × W
  unfolding step
  run [] s w = (s, w)
  run (v ∷ vs) s w = let (s', w') = step v s w in run vs s' w'

  -- The handles that have entered, the latest first.
  abbrev pub enters : Event → List H → List H
  enters (goal_enters h f quiet) hs = h ∷ hs
  enters (client_acts f quiet) hs = hs
  enters activates hs = hs
  enters deactivates hs = hs
  enters misses_deadline hs = hs
  enters accepts_pending hs = hs
  enters terminates_pending hs = hs
  enters terminates_all hs = hs
  enters terminates_current hs = hs
  enters succeeds_current hs = hs
  enters publishes hs = hs
  enters callback_threw hs = hs
  enters turn_ended hs = hs
  enters loop_left hs = hs

  abbrev pub entered : List Event → List H → List H
  entered [] hs = hs
  entered (v ∷ vs) hs = entered vs (enters v hs)
