-- ===== src/BehaviorTree/Examples.antt =====
-- The control nodes on concrete children, and the node of a service.
use nav2_3d.Prelude.{
  ℕ, Bool, ◌+◌, refl, true, false, none, some, ◌==◌, ◌&&◌, if◌then◌else◌, arith, Returns,
}
use nav2_3d.BehaviorTree.{idle, running, success, failure, BtNode}
use nav2_3d.BehaviorTree.Pipeline.{Pipeline, tick as tick_pipeline}
use nav2_3d.BehaviorTree.Pipeline.Run.{Verdict, tick-Verdict}
use nav2_3d.BehaviorTree.Recovery.{Recovery, tick as tick_recovery}
use nav2_3d.BehaviorTree.Recovery.Total.{Settled, tick-Settled}
use nav2_3d.BehaviorTree.Recovery.Run.{Recovers, tick-Recovers}
use nav2_3d.BehaviorTree.RoundRobin.{RoundRobin, tick as tick_round_robin}
use nav2_3d.BehaviorTree.ServiceNode.{timed_out, ServiceCalls, ServiceNode, tick as tick_service}
use nav2_3d.BehaviorTree.ServiceNode.Outstanding.{Counts, Ticks, tick-Ticks}
use nav2_3d.BehaviorTree.RoundRobin.Run.{Rotates, tick-Rotates}

-- Two children; the world counts the ticks, and the first child fails on the first tick.
abbrev two_children : BtNode ℕ
two_children = record {
  count = 2;
  execute_tick = λ i w. (if i == 0 && w == 0 then failure else success, w + 1);
  child_status = λ i w. success;
  halt_child = λ i w. w;
  halt_children = λ w. w;
  base_halt = λ w. w;
  reset_child = λ w. w;
  status = λ w. idle;
  set_status = λ s w. w;
  is_status_active = λ s. true;
}

abbrev first_child : Pipeline
first_child = record { last_child_ticked = 0 }

-- An active node over the time and the requests.
abbrev active_node : BtNode (ℕ × ℕ)
active_node = record {
  count = 0;
  execute_tick = λ i w. (success, w);
  child_status = λ i w. success;
  halt_child = λ i w. w;
  halt_children = λ w. w;
  base_halt = λ w. w;
  reset_child = λ w. w;
  status = λ w. running;
  set_status = λ s w. w;
  is_status_active = λ s. true;
}

abbrev fresh : Recovery
fresh = record { current_child_idx = 0; number_of_retries = 1; retry_count = 0 }

abbrev start : RoundRobin
start = record { current_child_idx = 0; num_failed_children = 0 }

tick-Verdict_example : Verdict two_children 0 0 (tick_pipeline two_children first_child 0)
tick-Verdict_example = tick-Verdict two_children first_child 0 (omega arith)

tick-Settled_example : Returns (Settled 1) (tick_recovery two_children (some 1) fresh 0)
tick-Settled_example = tick-Settled two_children (some 1) fresh 0 refl (omega arith) (omega arith)

tick-Recovers_example : Recovers two_children fresh 0 (tick_recovery two_children none fresh 0)
tick-Recovers_example =
    tick-Recovers two_children none fresh 0 refl refl (omega arith) (omega arith)

tick-Rotates_example : Rotates two_children start 0 (tick_round_robin two_children start 0)
tick-Rotates_example = tick-Rotates two_children start 0 (omega arith, omega arith) (omega arith)

-- A service that does not answer; the world is the time and the requests that were sent.
abbrev slow_service : ServiceCalls Bool (ℕ × ℕ)
slow_service = record {
  now = λ w. (w.0, w);
  server_timeout_port = λ w. some 5;
  max_timeout = λ w. 2;
  create_ros_interfaces = λ w. w;
  on_tick = λ w. (true, w);
  async_call = λ w. (w.0, w.1 + 1);
  spin_until_complete = λ t w. (timed_out, (w.0 + t, w.1));
  on_completion = λ r w. (success, w);
  on_wait_for_result = λ w. w;
}

slow_service-Counts : Counts active_node slow_service (λ w. w.1)
slow_service-Counts = record {
  by_call = λ w. refl;
  by_now = λ w. refl;
  by_ros = λ w. refl;
  by_on_tick = λ w. refl;
  by_spin = λ t w. refl;
  by_completion = λ r w. refl;
  by_wait = λ w. refl;
  decides = λ r w e. absurd (cc);
}

abbrev unsent : ServiceNode
unsent = record { server_timeout = 1; max_timeout = 1; request_sent = false; sent_time = 0 }

tick-Ticks_example :
    Ticks active_node slow_service
      (λ w. w.1)
      1
      (tick_service active_node slow_service unsent (3, 0))
tick-Ticks_example =
    tick-Ticks active_node slow_service (λ w. w.1) slow_service-Counts unsent (3, 0)
