-- ===== src/Lifecycle/Retries.antt =====
-- The retries of nav3d_util/src/lifecycle_utils.cpp.
pub mod Silent
use nav2_3d.Prelude.{
  if◌then◌else◌, ℕ, zero, suc, ◌+◌, ◌-◌, ◌*◌, ◌%◌, ◌^◌, ◌≤◌, ◌<◌, ◌≡◌, ◌≢◌, refl, sym, subst, ◌∙◌,
  ltb, Bool, true, false, ◌&&◌, List, [], ◌∷◌, arith,
}
use nav2_3d.Prelude.Int.{ℤ, pos_part}
use nav2_3d.Lifecycle.Services.{
  Nodes, Transition, configure, activate, deactivate, cleanup, Result, returns, throws,
  null_dereference, change_state, result_cases, is_returned, is_thrown, is_null,
}

-- A call of which the result is not looked at.
abbrev pub Action {ℓ} : Type 0 → Type ℓ → Type ℓ
Action A W = W → Result A × W

-- What a loop or a sequence of calls does: it returns, lets an exception out, crashes, or waits for a
-- service when the fuel runs out.
pub data Ended : Type 0 where
  done thrown broken waiting : Ended

-- `std::chrono::seconds` as `milliseconds`, both of 64 bits: is the time positive?
pub is_positive_ms : ℕ → Bool
is_positive_ms seconds = (let ms : ℕ = seconds * 1000 % 2 ^ 64 in ltb 0 ms && ltb ms (2 ^ 63))

-- What follows a call that may throw.
unfoldable pub and_then {ℓ} : {W : Type ℓ} → Ended × W → (W → Ended × W) → Ended × W
and_then (done, w) rest = rest w
and_then (thrown, w) rest = (thrown, w)
and_then (broken, w) rest = (broken, w)
and_then (waiting, w) rest = (waiting, w)

module _ {ℓ} {A : Type 0} {W : Type ℓ} where
  -- What follows an attempt, `rest` are the attempts to come.
  unfoldable pub after_attempt : Result A × W → (W → Ended × W) → Ended × W
  after_attempt (returns a, w) rest = (done, w)
  after_attempt (throws, w) rest = rest w
  after_attempt (null_dereference, w) rest = (broken, w)

  -- The loop, with the attempts that are left after the next one.
  unfoldable pub attempt : ℕ → Action A W → W → Ended × W
  unfolding after_attempt
  attempt zero fn w = after_attempt (fn w) (λ w'. (thrown, w'))
  attempt (suc left) fn w = after_attempt (fn w) (attempt left fn)

  unfoldable pub retry_runtime_error : Action A W → ℤ → W → Ended × W
  retry_runtime_error fn retries w = attempt (pos_part retries) fn w

  -- The first `n` attempts throw, and lead from one world to the other.
  pub data Fails (fn : Action A W) : ℕ → W → W → Type ℓ where
    none_yet : {w : W} → Fails fn zero w w
    once_more : {n : ℕ} {w u : W} → (fn w).0 ≡ throws → Fails fn n (fn w).1 u → Fails fn (suc n) w u

  -- How the loop ends: an attempt returns after at most `retries` that threw, or one more than
  -- `retries` throw.
  pub data Retried (fn : Action A W) (retries : ℕ) (w : W) : Ended × W → Type ℓ where
    returned :
        {n : ℕ} {u : W} {a : A}
        → n ≤ retries
        → Fails fn n w u
        → (fn u).0 ≡ returns a
        → Retried fn retries w (done, (fn u).1)
    gave_up : {u : W} → Fails fn (suc retries) w u → Retried fn retries w (thrown, u)
    crashed :
        {n : ℕ} {u : W}
        → n ≤ retries
        → Fails fn n w u
        → (fn u).0 ≡ null_dereference
        → Retried fn retries w (broken, (fn u).1)

  Retried-later :
      (fn : Action A W) (retries : ℕ) (w : W) {e : Ended × W}
      → (fn w).0 ≡ throws
      → Retried fn retries (fn w).1 e
      → Retried fn (suc retries) w e
  Retried-later fn retries w first (returned within fails result) =
      returned (omega (arith, within)) (once_more first fails) result
  Retried-later fn retries w first (gave_up fails) = gave_up (once_more first fails)
  Retried-later fn retries w first (crashed within fails result) =
      crashed (omega (arith, within)) (once_more first fails) result

  attempt-Retried :
      (retries : ℕ) (fn : Action A W) (w : W) → Retried fn retries w (attempt retries fn w)
  unfolding attempt after_attempt
  attempt-Retried zero fn w = elim (result_cases (fn w).0) [
    | is_returned a e ↦ rw e (returned (omega arith) none_yet e)
    | is_thrown e ↦ rw e (gave_up (once_more e none_yet))
    | is_null e ↦ rw e (crashed (omega arith) none_yet e)
  ]
  attempt-Retried (suc left) fn w = elim (result_cases (fn w).0) [
    | is_returned a e ↦ rw e (returned (omega arith) none_yet e)
    | is_thrown e ↦ rw e (Retried-later fn left w e (attempt-Retried left fn (fn w).1))
    | is_null e ↦ rw e (crashed (omega arith) none_yet e)
  ]

  -- For any action and any number of retries, of which a negative one counts as 0,
  -- retry_runtime_error ends in one of three ways: with the first attempt that returns, after at
  -- most as many failed ones as there are retries; with the exception, after one failed attempt
  -- more than there are retries; or, after at most that many failed attempts, with an attempt that
  -- crashes.
  pub retry_runtime_error-Retried :
      (fn : Action A W) (retries : ℤ) (w : W)
      → Retried fn (pos_part retries) w (retry_runtime_error fn retries w)
  unfolding retry_runtime_error
  retry_runtime_error-Retried fn retries w = attempt-Retried (pos_part retries) fn w

module _ {ℓ} {Name : Type 0} {W : Type ℓ} (nodes : Nodes Name W) where
  -- The constructor of LifecycleServiceClient: `while (!get_state_.wait_for_service(2s))`, which has no
  -- other end. A round is a step of fuel.
  unfoldable pub lifecycle_service_client : ℕ → Name → W → Ended × W
  lifecycle_service_client zero n w = (waiting, w)
  lifecycle_service_client (suc fuel) n w =
      let (found, w') = nodes.get_state_available n w in
      let rest = lifecycle_service_client fuel n w' in if found then (done, w') else rest

  -- A transition that is requested of a node, with the retries.
  unfoldable pub request : ℕ → ℤ → Name → Transition → W → Ended × W
  request service_call_timeout retries n t =
      retry_runtime_error (change_state nodes (is_positive_ms service_call_timeout) n t) retries

  unfoldable pub startup_lifecycle_node : ℕ → ℕ → ℤ → Name → W → Ended × W
  unfolding and_then
  startup_lifecycle_node fuel service_call_timeout retries n w =
      and_then (lifecycle_service_client fuel n w) (λ w1.
        and_then (request service_call_timeout retries n configure w1)
          (request service_call_timeout retries n activate))

  unfoldable pub reset_lifecycle_node : ℕ → ℕ → ℤ → Name → W → Ended × W
  unfolding and_then
  reset_lifecycle_node fuel service_call_timeout retries n w =
      and_then (lifecycle_service_client fuel n w) (λ w1.
        and_then (request service_call_timeout retries n deactivate w1)
          (request service_call_timeout retries n cleanup))

  unfoldable pub startup_lifecycle_nodes : ℕ → ℕ → ℤ → List Name → W → Ended × W
  unfolding and_then
  startup_lifecycle_nodes fuel service_call_timeout retries [] w = (done, w)
  startup_lifecycle_nodes fuel service_call_timeout retries (n ∷ ns) w =
      and_then (startup_lifecycle_node fuel service_call_timeout retries n w)
        (startup_lifecycle_nodes fuel service_call_timeout retries ns)

  unfoldable pub reset_lifecycle_nodes : ℕ → ℕ → ℤ → List Name → W → Ended × W
  unfolding and_then
  reset_lifecycle_nodes fuel service_call_timeout retries [] w = (done, w)
  reset_lifecycle_nodes fuel service_call_timeout retries (n ∷ ns) w =
      and_then (reset_lifecycle_node fuel service_call_timeout retries n w)
        (reset_lifecycle_nodes fuel service_call_timeout retries ns)
