-- ===== src/BehaviorTree/ServiceNode.antt =====
-- BtServiceNode and BtCancelActionNode (nav3d_behavior_tree/include/nav3d_behavior_tree/bt_service_node.hpp
-- and bt_cancel_action_node.hpp). The client, the executor, the clock and the methods that a derived
-- node overrides are a parameter. Times are in milliseconds.
pub mod Outstanding
use nav2_3d.Prelude.{
  ℕ, ◌+◌, ◌-◌, ltb, min, Bool, true, false, not, if◌then◌else◌, Option, none, some,
}
use nav2_3d.BehaviorTree.{NodeStatus, running, success, failure, BtNode, get_input}

-- What spinning on a future gives.
pub data Spun (R : Type 0) : Type 0 where
  completed : R → Spun R
  timed_out interrupted : Spun R

pub record ServiceCalls {ℓ} (R : Type 0) (W : Type ℓ) : Type ℓ where
  pub now : W → ℕ × W
  -- The ports: the timeout and the half of the loop's duration; and the client of the named service.
  pub server_timeout_port : W → Option ℕ
  pub max_timeout : W → ℕ
  pub create_ros_interfaces : W → W
  -- Whether the request is to be sent, as on_tick leaves it.
  pub on_tick : W → Bool × W
  pub async_call : W → W
  pub spin_until_complete : ℕ → W → Spun R × W
  pub on_completion : R → W → NodeStatus × W
  pub on_wait_for_result : W → W

pub record ServiceNode : Type 0 where
  pub server_timeout : ℕ
  pub max_timeout : ℕ
  pub request_sent : Bool
  pub sent_time : ℕ

module _ {ℓ} {R : Type 0} {W : Type ℓ} (bt : BtNode W) (calls : ServiceCalls R W) where
  open calls use {
    now, server_timeout_port, create_ros_interfaces, on_tick, async_call, spin_until_complete,
    on_completion, on_wait_for_result,
  }

  unfoldable pub initialize : ServiceNode → W → ServiceNode × W
  initialize s w = (
    record s {
      server_timeout = get_input (server_timeout_port w) s.server_timeout;
      max_timeout = calls.max_timeout w;
    },
    create_ros_interfaces w,
  )

  -- The end of `check_future`: the call has timed out.
  unfoldable pub give_up : ServiceNode → W → NodeStatus × ServiceNode × W
  give_up s w = (failure, record s { request_sent = false }, w)

  -- After the future was spun on.
  unfoldable pub after_spin : ServiceNode → Spun R × W → NodeStatus × ServiceNode × W
  unfolding give_up
  after_spin s (completed r, w) =
      let (status, w') = on_completion r w in (status, record s { request_sent = false }, w')
  after_spin s (timed_out, w) =
      let (t, w') = now (on_wait_for_result w) in
      if ltb t (s.sent_time + s.server_timeout) then (running, s, w') else give_up s w'
  after_spin s (interrupted, w) = give_up s w

  unfoldable pub check_future : ServiceNode → W → NodeStatus × ServiceNode × W
  unfolding after_spin
  check_future s w =
      let (t, w') = now w in
      if ltb t (s.sent_time + s.server_timeout)
      then after_spin s
          (spin_until_complete (min (s.sent_time + s.server_timeout - t) s.max_timeout) w')
      else give_up s w'

  -- The request is sent, and the time is noted.
  unfoldable pub send : ServiceNode → W → ServiceNode × W
  send s w =
      let (t, w') = now (async_call w) in (record s { request_sent = true; sent_time = t }, w')

  unfoldable pub start : ServiceNode → W → NodeStatus × ServiceNode × W
  unfolding send check_future
  start s w =
      let (should_send, w') = on_tick w in
      if not should_send
      then (failure, s, w')
      else (let (s', w'') = send s w' in check_future s' w'')

  unfoldable pub initialize_inactive : ServiceNode → W → ServiceNode × W
  unfolding initialize
  initialize_inactive s w =
      if not (bt.is_status_active (bt.status w)) then initialize s w else (s, w)

  unfoldable pub tick : ServiceNode → W → NodeStatus × ServiceNode × W
  unfolding initialize_inactive start check_future
  tick s w =
      let (s', w') = initialize_inactive s w in
      if not s'.request_sent then start s' w' else check_future s' w'

  -- `halt`; resetStatus of the base class is left out.
  unfoldable pub halt : ServiceNode → ServiceNode
  halt s = record s { request_sent = false }

-- BtCancelActionNode: the times of the goals to cancel, and whether the answer came in time.
pub record Cancelling {ℓ} (W : Type ℓ) : Type ℓ where
  pub now : W → ℕ × W
  pub async_cancel_goals_before : ℕ → W → W
  pub spin_until_cancelled : ℕ → W → Spun (Unit {0}) × W

unfoldable pub cancel_tick {ℓ} : {W : Type ℓ} → BtNode W → Cancelling W → ℕ → W → NodeStatus × W
cancel_tick bt cancelling server_timeout w =
    let (t, w1) = cancelling.now (bt.set_status running w) in
    let (spun, w2) =
      cancelling.spin_until_cancelled server_timeout
        (cancelling.async_cancel_goals_before (t - 10) w1) in
    (elim spun [ completed _ ↦ success | timed_out ↦ failure | interrupted ↦ failure ], w2)
