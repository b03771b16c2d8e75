-- ===== src/Lifecycle/Examples.antt =====
-- The lifecycle manager on concrete nodes.
use nav2_3d.Prelude.{
  ℕ, suc, ◌-◌, ◌^◌, ltb, none, some, ◌≡◌, ◌≢◌, refl, inl, inr, ◌↔◌, Bool, true, false, ◌&&◌, Eq,
  ◌==◌, ==_iff, if◌then◌else◌, arith, List, [], ◌∷◌, All,
}
use nav2_3d.Prelude.Int.{pos}
use nav2_3d.Lifecycle.ServiceClient.{RosClient, Counts, invoke, invoke-pending}
use nav2_3d.Lifecycle.Retries.{
  Action, done, retry_runtime_error, Retried, retry_runtime_error-Retried, startup_lifecycle_nodes,
}
use nav2_3d.Lifecycle.Retries.Silent.{IsAnswering, visited, startup_lifecycle_nodes-silent}
use nav2_3d.Lifecycle.Services.{
  Transition, configure, activate, State, unconfigured, active, response, interrupted, Nodes,
  returns, throws, null_dereference, answered, change_state, change_state-returns,
}
use nav2_3d.Lifecycle.Manager.{Manager, transition_state}
use nav2_3d.Lifecycle.Operations.{manager_callback, startup_command, shutdown_command, startup}
use nav2_3d.Lifecycle.Invariant.{Inv}
use nav2_3d.Lifecycle.Invariant.Timers.{Callback, command, bond_timer_fires, run, run-Inv}
use nav2_3d.Lifecycle.Startup.{AreNodes, bring_up-IsUp}
use nav2_3d.Lifecycle.Clients.{HasClients, Answers}
use nav2_3d.Lifecycle.Clients.Commands.{manager_callback-Answers}
use nav2_3d.Lifecycle.Clients.Shutdown.{manager_callback-null}

instance numbers : Eq ℕ
numbers = record { beq = ◌==◌; beq_iff = ==_iff }

-- The world gives the state of each node, and every node takes every transition.
abbrev willing : Nodes ℕ (ℕ → State)
willing = record {
  change_state_available = λ n w. (true, w);
  get_state_available = λ n w. (true, w);
  request_transition = λ n t w. (response true, λ x. if x == n then transition_state t else w x);
  request_state = λ n w. (response (w n), w);
  form_bond = λ n w. (true, w);
  is_broken = λ n w. false;
  ok = λ w. true;
  now = λ w. (0, w);
}

-- Every node answers and refuses.
abbrev refusing : Nodes ℕ (ℕ → State)
refusing = record willing { request_transition = λ n t w. (response false, w) }

abbrev state_of : ℕ → (ℕ → State) → State
state_of n w = w n

willing-AreNodes : AreNodes willing state_of
willing-AreNodes = record {
  reports = λ n w s h. ground arith;
  state_frame = λ n x w. refl;
  available_frame = λ n x w. refl;
  change_available_frame = λ n x w. refl;
  transition_frame = λ n x t w differs. ground arith;
  bond_frame = λ n x w. refl;
}

abbrev all_unconfigured : ℕ → State
all_unconfigured n = unconfigured

abbrev two_nodes : Manager ℕ
two_nodes = record {
  node_names = 1 ∷ 2 ∷ [];
  clients = 1 ∷ 2 ∷ [];
  bonds = [];
  system_active = false;
  bond_timer = false;
  bond_respawn_timer = false;
  bond_timeout = pos 4000;
  attempt_respawn_reconnection = true;
  bond_respawn_start_time = 0;
  bond_respawn_max_duration = 10;
}

-- The manager after SHUTDOWN.
abbrev shut_down : Manager ℕ
shut_down = record two_nodes { clients = [] }

two_nodes-Inv : Inv two_nodes
two_nodes-Inv = record {
  timer_active = λ t. absurd (ground arith);
  bonded = λ a t. absurd (ground arith);
}

change_state-returns_example :
    ((change_state refusing false 1 activate all_unconfigured).0 ≡ returns true)
    ↔ ((true ≡ true) × (answered (response false) ≡ true))
change_state-returns_example = change_state-returns refusing false 1 activate all_unconfigured

-- STARTUP, after which every node dies, and the timer.
abbrev history : List (Callback × ((ℕ → State) → ℕ → State))
history = (command startup_command, λ w x. unconfigured) ∷ (bond_timer_fires, λ w. w) ∷ []

run-Inv_example : Inv (run willing history two_nodes all_unconfigured).0
run-Inv_example = run-Inv willing history two_nodes all_unconfigured two_nodes-Inv

bring_up-IsUp_example :
    let d = manager_callback willing startup_command two_nodes all_unconfigured in
    All (λ n. d.world n ≡ active) (1 ∷ 2 ∷ []) × (d.manager.system_active ≡ true)
unfolding manager_callback startup nav2_3d.Lifecycle.Manager.change_state_for_all_nodes
    nav2_3d.Lifecycle.Manager.change_state_for_node nav2_3d.Prelude.contains numbers change_state
    nav2_3d.Lifecycle.Services.get_state
bring_up-IsUp_example =
    bring_up-IsUp willing state_of willing-AreNodes startup_command two_nodes all_unconfigured
      (inl refl) refl

manager_callback-Answers_example :
    let d = manager_callback refusing startup_command two_nodes all_unconfigured in
    Answers d.result × (startup_command ≢ shutdown_command → HasClients d.manager)
unfolding nav2_3d.Prelude.contains numbers
manager_callback-Answers_example =
    manager_callback-Answers refusing startup_command two_nodes all_unconfigured (refl, (refl, tt))

manager_callback-null_example :
    (manager_callback willing startup_command shut_down all_unconfigured).result ≡ null_dereference
manager_callback-null_example =
    manager_callback-null willing startup_command shut_down all_unconfigured 1 (2 ∷ []) refl refl
      (λ p. ground arith)

-- The world tells whether a response is there, and counts the requests that wait for one.
abbrev one_request : RosClient Bool (Bool × ℕ)
one_request = record {
  ok = λ w. true;
  wait_for_service = λ w. (true, w);
  send_request = λ w. (w.0, suc w.1);
  spin_until_complete = λ w. if w.0 && ltb 0 w.1 then (some true, (false, w.1 - 1)) else (none, w);
  remove_pending_request = λ w. (w.0, w.1 - 1);
}

one_request-Counts : Counts one_request (λ w. w.1)
one_request-Counts = record {
  waited = λ w. refl;
  sent = λ w. refl;
  received = λ w r came. ground arith;
  unanswered = λ w silent. ground arith;
  removed = λ w some_wait. omega arith;
}

-- Two other requests wait, and no response comes.
invoke-pending_example : (invoke one_request 3 (false, 2)).1.1 ≡ 2
invoke-pending_example = invoke-pending one_request (λ w. w.1) one_request-Counts 3 (false, 2)

-- The action throws until the third attempt.
abbrev third_time : Action Bool ℕ
third_time n = (if ltb n 2 then throws else returns true, suc n)

retry_runtime_error-Retried_example :
    Retried third_time 3 0 (retry_runtime_error third_time (pos 3) 0)
retry_runtime_error-Retried_example = retry_runtime_error-Retried third_time (pos 3) 0

refusing-IsAnswering : IsAnswering refusing
refusing-IsAnswering = record { there = λ n w. refl; stated = λ n w. refl; answers = λ n t w. refl }

startup_lifecycle_nodes-silent_example :
    startup_lifecycle_nodes refusing 1 (2 ^ 63 - 1) (pos 3) (1 ∷ 2 ∷ []) all_unconfigured
    ≡ (done, visited refusing (1 ∷ 2 ∷ []) all_unconfigured)
startup_lifecycle_nodes-silent_example =
    startup_lifecycle_nodes-silent refusing refusing-IsAnswering 0 (2 ^ 63 - 1) (pos 3) (1 ∷ 2 ∷ [])
      all_unconfigured
