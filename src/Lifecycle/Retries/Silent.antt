-- ===== src/Lifecycle/Retries/Silent.antt =====
-- What nav3d_util/src/lifecycle_utils.cpp makes of nodes that refuse.
use nav2_3d.Prelude.{ℕ, zero, suc, ◌-◌, ◌^◌, ◌≡◌, refl, ap, ◌∙◌, Bool, true, false, List, [], ◌∷◌}
use nav2_3d.Prelude.Int.{ℤ, pos_part}
use nav2_3d.Lifecycle.Services.{
  Nodes, Transition, configure, activate, Exchange, interrupted, no_response, response, answered,
  returns, change_state, sent, sent_within,
}
use nav2_3d.Lifecycle.Retries.{
  Action, done, attempt, after_attempt, retry_runtime_error, and_then, is_positive_ms, request,
  lifecycle_service_client, startup_lifecycle_node, startup_lifecycle_nodes,
}

module _ {ℓ} {Name : Type 0} {W : Type ℓ} (nodes : Nodes Name W) where
  -- Every service is there, and the nodes answer every request, whether they accept it or refuse.
  pub record IsAnswering : Type ℓ where
    pub there : (n : Name) (w : W) → (nodes.change_state_available n w).0 ≡ true
    pub stated : (n : Name) (w : W) → (nodes.get_state_available n w).0 ≡ true
    pub answers :
        (n : Name) (t : Transition) (w : W) → answered (nodes.request_transition n t w).0 ≡ true

  -- The world after a transition is requested of a node once.
  pub asked : Name → Transition → W → W
  asked n t w = (nodes.request_transition n t (nodes.change_state_available n w).1).1

  -- The world after every node was asked for the two transitions, each once.
  pub visited : List Name → W → W
  visited [] w = w
  visited (n ∷ ns) w =
      visited ns (asked n activate (asked n configure (nodes.get_state_available n w).1))

  -- An action that returns is not tried again.
  returns-once :
      {A : Type 0} (fn : Action A W) (left : ℕ) (w : W) (a : A)
      → (fn w).0 ≡ returns a
      → attempt left fn w ≡ (done, (fn w).1)
  unfolding attempt after_attempt
  returns-once fn zero w a e = rw e refl
  returns-once fn (suc left) w a e = rw e refl

  result-answered :
      (timed : Bool) (e : Exchange Bool)
      → answered e ≡ true
      → (elim timed [ true ↦ sent_within nodes e | false ↦ sent nodes e ]) ≡ returns true
  unfolding sent sent_within
  result-answered timed interrupted never = absurd (cc)
  result-answered timed no_response never = absurd (cc)
  result-answered true (response success) came = refl
  result-answered false (response success) came = refl

  module _ (answering : IsAnswering) where
    change_state-answered :
        (timed : Bool) (n : Name) (t : Transition) (w : W)
        → change_state nodes timed n t w ≡ (returns true, asked n t w)
    unfolding change_state asked
    change_state-answered timed n t w =
        rw (answering.there n w, change_state)
          (ap (λ r. (r, asked n t w))
            (result-answered timed _ (answering.answers n t (nodes.change_state_available n w).1)))

    request-once :
        (timeout : ℕ) (retries : ℤ) (n : Name) (t : Transition) (w : W)
        → request nodes timeout retries n t w ≡ (done, asked n t w)
    unfolding request retry_runtime_error
    request-once timeout retries n t w =
        let e = change_state-answered (is_positive_ms timeout) n t w in
        returns-once (change_state nodes (is_positive_ms timeout) n t) (pos_part retries) w true
          (ap (λ r. r.0) e)
        ∙ ap (λ r. (done, r.1)) e

    startup_lifecycle_node-once :
        (fuel timeout : ℕ) (retries : ℤ) (n : Name) (w : W)
        → startup_lifecycle_node nodes (suc fuel) timeout retries n w
          ≡ (done, asked n activate (asked n configure (nodes.get_state_available n w).1))
    unfolding startup_lifecycle_node lifecycle_service_client and_then
    startup_lifecycle_node-once fuel timeout retries n w =
        let w1 : W = (nodes.get_state_available n w).1 in
        rw (answering.stated n w) (
          ap (λ r. and_then r (request nodes timeout retries n activate))
            (request-once timeout retries n configure w1)
          ∙ request-once timeout retries n activate _)

    -- Where all services are available and the nodes answer every request: startup_lifecycle_nodes
    -- returns without an exception, for every timeout and number of retries, and it has asked
    -- every node for the two transitions once each, in order, whether the node accepted them or
    -- refused.
    pub startup_lifecycle_nodes-silent :
        (fuel timeout : ℕ) (retries : ℤ) (ns : List Name) (w : W)
        → startup_lifecycle_nodes nodes (suc fuel) timeout retries ns w ≡ (done, visited ns w)
    unfolding startup_lifecycle_nodes visited and_then
    startup_lifecycle_nodes-silent fuel timeout retries [] w = refl
    startup_lifecycle_nodes-silent fuel timeout retries (n ∷ ns) w =
        ap (λ r. and_then r (startup_lifecycle_nodes nodes (suc fuel) timeout retries ns))
          (startup_lifecycle_node-once fuel timeout retries n w)
        ∙ startup_lifecycle_nodes-silent fuel timeout retries ns _

-- std::chrono::seconds::max(), the timeout where none is given, times 1000 in 64 bits is -1000.
default_timeout : is_positive_ms (2 ^ 63 - 1) ≡ false
unfolding is_positive_ms
default_timeout = refl
