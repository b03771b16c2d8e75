-- ===== src/ActionServer.antt =====
-- nav3d_util/include/nav3d_util/simple_action_server.hpp: the goal handles, the server's members and the
-- methods, each of which runs under `update_mutex_`.
pub mod Worker
pub mod Orphans
pub mod Events
pub mod Held
pub mod Stopped
pub mod Queries
pub mod Slots
mod Examples
use nav2_3d.Prelude.{
  Bool, true, false, not, ◌&&◌, ◌||◌, Option, none, some, Eq, if◌then◌else◌, ◌≡◌, ◌≢◌,
}

-- rclcpp_action::ServerGoalHandle, which is not code of the repository: `H` are the handles, `W` the
-- state that they share. A result or a feedback message is passed on as it is and is left out.
pub record Handles {ℓ} (H : Type 0) (W : Type ℓ) : Type ℓ where
  pub is_active : H → W → Bool
  pub is_canceling : H → W → Bool
  pub abort : H → W → W
  pub canceled : H → W → W
  pub succeed : H → W → W
  pub publish_feedback : H → W → W
  -- completion_callback_, the identity where none is given.
  pub complete : W → W

-- The members. `running` is whether `execution_future_` is valid and not ready, that is, whether the
-- thread that runs `work` has not ended.
pub record Server (H : Type 0) : Type 0 where
  pub server_active : Bool
  pub stop_execution : Bool
  pub preempt_requested : Bool
  pub current_handle : Option H
  pub pending_handle : Option H
  pub running : Bool

pub data GoalResponse : Type 0 where
  reject accept_and_execute : GoalResponse

pub data CancelResponse : Type 0 where
  refuse accept : CancelResponse

module _ {H : Type 0} where
  unfoldable pub handle_goal : Server H → GoalResponse
  handle_goal s = if not s.server_active then reject else accept_and_execute

  pub activate : Server H → Server H
  activate s = record s { server_active = true; stop_execution = false }

  -- The first part of `deactivate`, under the mutex.
  pub begin_deactivate : Server H → Server H
  begin_deactivate s = record s { server_active = false; stop_execution = true }

  unfoldable pub is_preempt_requested : Server H → Bool
  is_preempt_requested s = s.preempt_requested

module _ {ℓ} {H : Type 0} {W : Type ℓ} (handles : Handles H W) where
  unfoldable pub handle_cancel : H → W → CancelResponse
  handle_cancel h w = if not (handles.is_active h w) then refuse else accept

  -- `is_active(handle)`.
  abbrev pub active : Option H → W → Bool
  active none w = false
  active (some h) w = handles.is_active h w

  abbrev pub canceling : Option H → W → Bool
  canceling none w = false
  canceling (some h) w = handles.is_canceling h w

  unfoldable pub is_cancel_requested : Server H → W → Bool
  is_cancel_requested s w = elim s.current_handle [
    | none ↦ false
    | some current ↦ elim s.pending_handle [
      | some pending ↦ handles.is_canceling pending w
      | none ↦ handles.is_canceling current w
    ]
  ]

  -- `get_current_goal` and `get_pending_goal`: the handle whose goal is returned, none for null.
  unfoldable pub get_current_goal : Server H → W → Option H
  get_current_goal s w = if active s.current_handle w then s.current_handle else none

  unfoldable pub get_pending_goal : Server H → W → Option H
  get_pending_goal s w = if not (active s.pending_handle w) then none else s.pending_handle

  -- `terminate(handle)`: what becomes of the handle's slot and of the world.
  pub terminate : Option H → W → Option H × W
  terminate none w = (none, w)
  terminate (some h) w = elim (handles.is_active h w) [
    | false ↦ (some h, w)
    | true ↦ elim (handles.is_canceling h w) [
      | true ↦ (none, handles.canceled h w)
      | false ↦ (none, handles.abort h w)
    ]
  ]

  pub terminate_current : Server H → W → Server H × W
  unfolding terminate
  terminate_current s w =
      let (slot, w') = terminate s.current_handle w in (record s { current_handle = slot }, w')

  -- `terminate(pending_handle_)` alone.
  pub terminate_slot : Server H → W → Server H × W
  unfolding terminate
  terminate_slot s w =
      let (slot, w') = terminate s.pending_handle w in (record s { pending_handle = slot }, w')

  pub terminate_pending_goal : Server H → W → Server H × W
  unfolding terminate_slot
  terminate_pending_goal s w =
      if not (active s.pending_handle w)
      then (s, w)
      else (let (s', w') = terminate_slot s w in (record s' { preempt_requested = false }, w'))

  pub terminate_all : Server H → W → Server H × W
  unfolding terminate_current terminate_slot
  terminate_all s w =
      let (s1, w1) = terminate_current s w in
      let (s2, w2) = terminate_slot s1 w1 in (record s2 { preempt_requested = false }, w2)

  succeed_slot : Option H → W → Option H × W
  succeed_slot none w = (none, w)
  succeed_slot (some h) w =
      if handles.is_active h w then (none, handles.succeed h w) else (some h, w)

  pub succeeded_current : Server H → W → Server H × W
  unfolding succeed_slot
  succeeded_current s w =
      let (slot, w') = succeed_slot s.current_handle w in (record s { current_handle = slot }, w')

  feed_back : Option H → W → W
  feed_back none w = w
  feed_back (some h) w = if handles.is_active h w then handles.publish_feedback h w else w

  pub publish_feedback : Server H → W → W
  unfolding feed_back
  publish_feedback s w = feed_back s.current_handle w

  -- `current_handle_->abort(…)` in `accept_pending_goal`, where it is active and not the pending one.
  pub abort_current : ⦃e : Eq H⦄ → Option H → H → W → W
  abort_current ⦃e⦄ none pending w = w
  abort_current ⦃e⦄ (some h) pending w =
      if handles.is_active h w && not (e.beq h pending) then handles.abort h w else w

  -- The result is the handle whose goal is returned.
  pub accept_pending_goal : ⦃e : Eq H⦄ → Server H → W → Option H × Server H × W
  unfolding abort_current
  accept_pending_goal ⦃e⦄ s w = elim s.pending_handle [
    | none ↦ (none, s, w)
    | some pending ↦ elim (handles.is_active pending w) [
      | false ↦ (none, s, w)
      | true ↦ (
        some pending,
        record s {
          current_handle = some pending;
          pending_handle = none;
          preempt_requested = false;
        },
        abort_current s.current_handle pending w,
      )
    ]
  ]
