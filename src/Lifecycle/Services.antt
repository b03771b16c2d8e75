-- ===== src/Lifecycle/Services.antt =====
-- nav3d_util/src/lifecycle_service_client.cpp over the services that a managed node offers. The nodes,
-- the middleware and the bonds are not code of the repository: `W` is their state, and the calls of
-- them are a parameter.
use nav2_3d.Prelude.{ℕ, ◌≡◌, refl, ◌↔◌, arith, Bool, true, false}

-- The transitions that the repository requests.
pub data Transition : Type 0 where
  configure cleanup activate deactivate unconfigured_shutdown : Transition

-- The states of a node, `in_transition` for those that are not primary.
pub data State : Type 0 where
  unknown unconfigured inactive active finalized in_transition : State

-- The outcome of ServiceClient::invoke where it comes to an end: it throws while it waits for the
-- service, the wait for the response ends without one, or a response comes. With a timeout the wait ends
-- by it; with none it goes on until ROS is shut down, so that a call that no node answers may not end.
pub data Exchange (A : Type 0) : Type 0 where
  interrupted : Exchange A
  no_response : Exchange A
  response : A → Exchange A

pub record Nodes {ℓ} (Name : Type 0) (W : Type ℓ) : Type ℓ where
  pub change_state_available : Name → W → Bool × W
  pub get_state_available : Name → W → Bool × W
  -- The response holds the field `success`.
  pub request_transition : Name → Transition → W → Exchange Bool × W
  -- The response holds `current_state.id`.
  pub request_state : Name → W → Exchange State × W
  -- bond::Bond of the node: start() and waitUntilFormed(), isBroken().
  pub form_bond : Name → W → Bool × W
  pub is_broken : Name → W → Bool
  -- rclcpp::ok(), now().
  pub ok : W → Bool
  pub now : W → ℕ × W

-- What a C++ call does: it returns, throws a std::runtime_error, or dereferences a null pointer.
pub data Result (A : Type 0) : Type 0 where
  returns : A → Result A
  throws : Result A
  null_dereference : Result A

-- A response came, of success or of refusal.
abbrev pub answered : Exchange Bool → Bool
answered interrupted = false
answered no_response = false
answered (response success) = true

module _ {ℓ} {Name : Type 0} {W : Type ℓ} (nodes : Nodes Name W) where
  open nodes use {change_state_available, get_state_available, request_transition, request_state}

  -- The result of `invoke(request, response)`: `static_cast<bool>(response)`, not the success in it.
  unfoldable pub sent : Exchange Bool → Result Bool
  sent interrupted = throws
  sent no_response = returns false
  sent (response success) = returns true

  -- The result of `invoke(request, timeout)`, and `response.get()` of it.
  unfoldable pub sent_within : Exchange Bool → Result Bool
  sent_within interrupted = throws
  sent_within no_response = throws
  sent_within (response success) = returns true

  -- `timed` says whether `transition_timeout > 0ms`; by default it is -1.
  unfoldable pub change_state : Bool → Name → Transition → W → Result Bool × W
  unfolding sent sent_within
  change_state timed n t w =
      let (available, w1) = change_state_available n w in
      elim available [
        | false ↦ (throws, w1)
        | true ↦
            let (e, w2) = request_transition n t w1 in
            (elim timed [ true ↦ sent_within e | false ↦ sent e ], w2)
      ]

  reported : Exchange State → Result State
  reported interrupted = throws
  reported no_response = throws
  reported (response s) = returns s

  unfoldable pub get_state : Name → W → Result State × W
  unfolding reported
  get_state n w =
      let (available, w1) = get_state_available n w in
      elim available [
        | false ↦ (throws, w1)
        | true ↦ let (e, w2) = request_state n w1 in (reported e, w2)
      ]

  -- With or without a timeout, change_state returns true if and only if the service is available
  -- and answers, whether the node accepts the transition or refuses it.
  pub change_state-returns :
      (timed : Bool) (n : Name) (t : Transition) (w : W)
      → ((change_state timed n t w).0 ≡ returns true) ↔ (
          ((change_state_available n w).0 ≡ true)
          × (answered (request_transition n t (change_state_available n w).1).0 ≡ true))
  unfolding change_state
  change_state-returns timed n t w = ground arith

-- To split on a result and keep the equation.
pub data ResultCases {A : Type 0} (r : Result A) : Type 0 where
  is_returned : (a : A) → r ≡ returns a → ResultCases r
  is_thrown : r ≡ throws → ResultCases r
  is_null : r ≡ null_dereference → ResultCases r

pub result_cases : {A : Type 0} (r : Result A) → ResultCases r
result_cases (returns a) = is_returned a refl
result_cases throws = is_thrown refl
result_cases null_dereference = is_null refl
