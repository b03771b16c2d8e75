-- ===== src/BehaviorTree/ActionNode.antt =====
-- BtActionNode (nav3d_behavior_tree/include/nav3d_behavior_tree/bt_action_node.hpp), the base of the nodes that
-- send a goal to an action server. Goals have identifiers `I`; times are in milliseconds.
pub mod Handles
pub mod Life
mod Examples
use nav2_3d.Prelude.{
  ℕ, ◌+◌, ◌-◌, Bool, true, false, not, ◌&&◌, ltb, leb, Eq, if◌then◌else◌, Option, none, some, List,
  [], ◌∷◌, min,
}
use nav2_3d.BehaviorTree.{NodeStatus, running, success, failure}

-- rclcpp_action::ResultCode and rclcpp::FutureReturnCode, with the goal's handle where the server accepts it.
pub data ResultCode : Type 0 where
  unknown succeeded canceled aborted : ResultCode

pub data Waited (I : Type 0) : Type 0 where
  interrupted timed_out : Waited I
  answered : Option I → Waited I

-- The members. The future is the request that it waits for.
pub record ActionNode (I : Type 0) : Type 0 where
  pub should_send_goal : Bool
  pub goal_updated : Bool
  pub goal_result_available : Bool
  pub goal_handle : Option I
  pub result : ResultCode
  pub future_goal_handle : Option I
  pub time_goal_sent : ℕ

-- The action client, the executor that delivers results, and the methods that a derived node overrides.
pub record Client {ℓ} (I : Type 0) (W : Type ℓ) : Type ℓ where
  pub ok : W → Bool
  pub now : W → ℕ
  pub send_goal : W → I × W
  pub spin_some : W → List (I × ResultCode) × W
  pub spin_until : I → ℕ → W → List (I × ResultCode) × Waited I × W
  pub is_pending : I → W → Bool  -- the status is accepted or executing
  pub cancel : I → W → W  -- async_get_result, async_cancel_goal and the waits for them
  pub on_tick : W → Bool × W  -- should_send_goal_ afterwards
  pub on_wait_for_result : Bool → W → Bool × W  -- goal_updated_ before and afterwards
  pub on_success : W → NodeStatus × W
  pub on_aborted : W → NodeStatus × W
  pub on_cancelled : W → NodeStatus × W
  pub on_timeout : W → W

pub record Timeouts : Type 0 where
  pub server_timeout : ℕ
  pub max_timeout : ℕ

-- What a part of `tick` does: the code after it runs, tick returns, it throws, or a null handle is
-- dereferenced.
pub data Phase {ℓ} (I : Type 0) (W : Type ℓ) : Type ℓ where
  goes : ActionNode I → W → Phase I W
  stops : NodeStatus → ActionNode I → W → Phase I W
  throws : ActionNode I → W → Phase I W
  crashes : Phase I W

-- What `is_future_goal_handle_complete` does: true, false with the time that has passed, or an exception.
pub data Completion {ℓ} (I : Type 0) (W : Type ℓ) : Type ℓ where
  complete : ActionNode I → W → Completion I W
  incomplete : ℕ → ActionNode I → W → Completion I W
  refused : ActionNode I → W → Completion I W
  null : Completion I W

module _ {ℓ} {I : Type 0} {W : Type ℓ} ⦃e : Eq I⦄ (client : Client I W) (timeouts : Timeouts) where
  open client use {
    ok, now, send_goal, spin_some, spin_until, is_pending, cancel, on_tick, on_wait_for_result,
    on_success, on_aborted, on_cancelled, on_timeout,
  }
  open timeouts use {server_timeout, max_timeout}

  -- The result callback; none is a null handle that is dereferenced.
  unfoldable pub receive_by :
      Option I → Option I → I × ResultCode → ActionNode I → Option (ActionNode I)
  receive_by (some sent) handle r n = some n
  receive_by none none r n = none
  receive_by none (some h) (id, code) n =
      some (if e.beq h id then record n { goal_result_available = true; result = code } else n)

  unfoldable pub receive_result : I × ResultCode → ActionNode I → Option (ActionNode I)
  unfolding receive_by
  receive_result r n = receive_by n.future_goal_handle n.goal_handle r n

  unfoldable pub receive_all : List (I × ResultCode) → ActionNode I → Option (ActionNode I)
  unfolding receive_result
  receive_all [] n = some n
  receive_all (r ∷ rs) n = elim (receive_result r n) [ none ↦ none | some n' ↦ receive_all rs n' ]

  unfoldable pub send_new_goal : ActionNode I → W → ActionNode I × W
  send_new_goal n w =
      let (id, w') = send_goal w in
      (
        record n {
          goal_result_available = false;
          future_goal_handle = some id;
          time_goal_sent = now w';
        },
        w',
      )

  -- What follows the wait for the request.
  unfoldable pub waited : ℕ → Waited I → ActionNode I → W → Completion I W
  waited elapsed interrupted n w = refused (record n { future_goal_handle = none }) w
  waited elapsed timed_out n w = incomplete elapsed n w
  waited elapsed (answered none) n w =
      refused (record n { goal_handle = none; future_goal_handle = none }) w
  waited elapsed (answered (some h)) n w =
      complete (record n { goal_handle = some h; future_goal_handle = none }) w

  unfoldable pub is_future_goal_handle_complete : I → ActionNode I → W → Completion I W
  unfolding receive_all waited
  is_future_goal_handle_complete sent n w =
      let elapsed = now w - n.time_goal_sent in
      if leb server_timeout elapsed
      then incomplete elapsed (record n { future_goal_handle = none }) w
      else (let timeout = min (server_timeout - elapsed) max_timeout in
          let (results, outcome, w') = spin_until sent timeout w in
          elim (receive_all results n) [
            | none ↦ null
            | some n' ↦ waited (elapsed + timeout) outcome n' w'
          ])

  -- What `tick` does with it.
  unfoldable pub acknowledged : Completion I W → Phase I W
  acknowledged (complete n w) = goes n w
  acknowledged (refused n w) = stops failure n w
  acknowledged null = crashes
  acknowledged (incomplete elapsed n w) =
      if ltb elapsed server_timeout
      then stops running n w
      else stops failure (record n { future_goal_handle = none }) (on_timeout w)

  and_then : Phase I W → (ActionNode I → W → Phase I W) → Phase I W
  and_then (goes n w) next = next n w
  and_then (stops s n w) next = stops s n w
  and_then (throws n w) next = throws n w
  and_then crashes next = crashes

  -- A node that is not active: `setStatus` and the goal's reset are left out.
  unfoldable pub begin : Bool → ActionNode I → W → Phase I W
  unfolding send_new_goal
  begin true n w = goes n w
  begin false n w =
      let (should_send, w') = on_tick w in
      let n' : ActionNode I = record n { should_send_goal = should_send; result = unknown } in
      if not should_send
      then stops failure n' w'
      else (let (n'', w'') = send_new_goal n' w' in goes n'' w'')

  unfoldable pub await_request : Option I → ActionNode I → W → Phase I W
  unfolding is_future_goal_handle_complete acknowledged
  await_request none n w = goes n w
  await_request (some sent) n w = acknowledged (is_future_goal_handle_complete sent n w)

  unfoldable pub await_handle : ActionNode I → W → Phase I W
  unfolding await_request
  await_handle n w = await_request n.future_goal_handle n w

  -- A goal that a derived node has updated is sent again while the last one is pending.
  unfoldable pub resend : I → ActionNode I → W → Phase I W
  unfolding send_new_goal await_request
  resend h n w =
      if n.goal_updated && is_pending h w
      then (let (n', w') = send_new_goal (record n { goal_updated = false }) w in
          await_request n'.future_goal_handle n' w')
      else goes n w

  unfoldable pub spin : ActionNode I → W → Phase I W
  unfolding receive_all
  spin n w =
      let (results, w') = spin_some w in
      elim (receive_all results n) [
        | none ↦ crashes
        | some n' ↦ if not n'.goal_result_available then stops running n' w' else goes n' w'
      ]

  -- `goal_handle_->get_status()` and what follows.
  unfoldable pub watch : Option I → ActionNode I → W → Phase I W
  unfolding and_then resend spin
  watch none n w = crashes
  watch (some h) n w = and_then (resend h n w) spin

  unfoldable pub await_result : ActionNode I → W → Phase I W
  unfolding watch
  await_result n w =
      if ok w && not n.goal_result_available
      then (let (updated, w') = on_wait_for_result n.goal_updated w in
          watch n.goal_handle (record n { goal_updated = updated }) w')
      else goes n w

  unfoldable pub conclude : ResultCode → ActionNode I → W → Phase I W
  conclude succeeded n w =
      let (s, w') = on_success w in stops s (record n { goal_handle = none }) w'
  conclude aborted n w = let (s, w') = on_aborted w in stops s (record n { goal_handle = none }) w'
  conclude canceled n w =
      let (s, w') = on_cancelled w in stops s (record n { goal_handle = none }) w'
  conclude unknown n w = throws n w

  -- `active` is whether the status is running, as it is after a tick that returned RUNNING.
  unfoldable pub tick : Bool → ActionNode I → W → Phase I W
  unfolding and_then begin await_handle await_result conclude
  tick active n w = and_then (begin active n w) (λ n1 w1.
      and_then (await_handle n1 w1)
        (λ n2 w2. and_then (await_result n2 w2) (λ n3 w3. conclude n3.result n3 w3)))

  -- `should_cancel_goal`: none is a null handle that is dereferenced.
  unfoldable pub pending_after_spin :
      I → Option (ActionNode I) → W → Option (Bool × ActionNode I × W)
  pending_after_spin h none w = none
  pending_after_spin h (some n) w = some (is_pending h w, n, w)

  unfoldable pub should_cancel : Option I → ActionNode I → W → Option (Bool × ActionNode I × W)
  unfolding receive_all pending_after_spin
  should_cancel none n w = some (false, n, w)
  should_cancel (some h) n w =
      let (results, w') = spin_some w in pending_after_spin h (receive_all results n) w'

  unfoldable pub should_cancel_goal : Bool → ActionNode I → W → Option (Bool × ActionNode I × W)
  unfolding should_cancel
  should_cancel_goal false n w = some (false, n, w)
  should_cancel_goal true n w = should_cancel n.goal_handle n w

  -- The goal is cancelled; a null handle is never passed on, since `should_cancel_goal` is false for it.
  unfoldable pub cancel_goal : Option I → W → W
  cancel_goal none w = w
  cancel_goal (some h) w = (on_cancelled (cancel h w)).1

  unfoldable pub after_should : Option (Bool × ActionNode I × W) → Option (ActionNode I × W)
  unfolding cancel_goal
  after_should none = none
  after_should (some (should, n, w)) = some (n, if should then cancel_goal n.goal_handle w else w)

  unfoldable pub halt : Bool → ActionNode I → W → Option (ActionNode I × W)
  unfolding should_cancel_goal after_should
  halt active n w = after_should (should_cancel_goal active n w)
