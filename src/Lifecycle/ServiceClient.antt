-- ===== src/Lifecycle/ServiceClient.antt =====
-- ServiceClient (nav3d_util/include/nav3d_util/service_client.hpp), the client of one service. The client
-- of rclcpp and the executor are a parameter.
use nav2_3d.Prelude.{
  ℕ, zero, suc, ◌+◌, ◌<◌, ◌≡◌, refl, ◌∙◌, ◌⊎◌, inl, inr, Bool, true, false, Bool-cases,
  if◌then◌else◌, Option, none, some, Option-cases, arith,
}

-- `spin` runs the executor until the response has come, none where the future does not succeed.
pub record RosClient {ℓ} (R : Type 0) (W : Type ℓ) : Type ℓ where
  pub ok : W → Bool
  pub wait_for_service : W → Bool × W
  pub send_request : W → W
  pub spin_until_complete : W → Option R × W
  pub remove_pending_request : W → W

-- The outcome of `invoke`: a response, an exception, or the fuel ran out in the wait for the service.
pub data Invoked (R : Type 0) : Type 0 where
  answer : R → Invoked R
  throws : Invoked R
  waiting : Invoked R

-- How a wait for a service ends.
pub data Wait : Type 0 where
  available interrupted unfinished : Wait

module _ {ℓ} {R : Type 0} {W : Type ℓ} (client : RosClient R W) where
  open client use {ok, wait_for_service, send_request, spin_until_complete, remove_pending_request}

  -- `while (!wait_for_service(…)) { if (!rclcpp::ok()) … }`. A round is a step of fuel.
  unfoldable pub await_service : ℕ → W → Wait × W
  await_service zero w = (unfinished, w)
  await_service (suc fuel) w =
      let (found, w') = wait_for_service w in
      let rest = await_service fuel w' in
      if found then (available, w') else if ok w' then rest else (interrupted, w')

  -- After the future is spun on.
  unfoldable pub collect : Option R × W → Invoked R × W
  collect (none, w) = (throws, remove_pending_request w)
  collect (some r, w) = (answer r, w)

  unfoldable pub after_wait : Wait × W → Invoked R × W
  unfolding collect
  after_wait (available, w) = collect (spin_until_complete (send_request w))
  after_wait (interrupted, w) = (throws, w)
  after_wait (unfinished, w) = (waiting, w)

  -- `invoke(request, timeout)`.
  unfoldable pub invoke : ℕ → W → Invoked R × W
  unfolding after_wait
  invoke fuel w = after_wait (await_service fuel w)

  -- With a measure that falls while the service is missing and ROS runs, the wait ends.
  pub await_service-ends :
      (measure : W → ℕ)
      → ((w : W)
          → (wait_for_service w).0 ≡ false
          → ok (wait_for_service w).1 ≡ true
          → measure (wait_for_service w).1 < measure w)
      → (fuel : ℕ) (w : W) → measure w < fuel
      → ((await_service fuel w).0 ≡ available) ⊎ ((await_service fuel w).0 ≡ interrupted)
  unfolding await_service
  await_service-ends measure falls zero w h = absurd (omega arith)
  await_service-ends measure falls (suc fuel) w h = elim (Bool-cases (wait_for_service w).0) [
    | inl found ↦ rw found (inl refl)
    | inr missing ↦ elim (Bool-cases (ok (wait_for_service w).1)) [
      | inl up ↦
          let shorter = falls w missing up in
          rw (missing, up)
            (await_service-ends measure falls fuel (wait_for_service w).1 (omega (arith, shorter)))
      | inr down ↦ rw (missing, down) (inr refl)
    ]
  ]

  -- What rclcpp documents of the requests that wait for a response: sending adds one, a response and
  -- remove_pending_request take it away, and no other call changes their number.
  pub record Counts (pending : W → ℕ) : Type ℓ where
    pub waited : (w : W) → pending (wait_for_service w).1 ≡ pending w
    pub sent : (w : W) → pending (send_request w) ≡ suc (pending w)
    pub received :
        (w : W) (r : R)
        → (spin_until_complete w).0 ≡ some r
        → suc (pending (spin_until_complete w).1) ≡ pending w
    pub unanswered :
        (w : W) → (spin_until_complete w).0 ≡ none → pending (spin_until_complete w).1 ≡ pending w
    pub removed : (w : W) → 0 < pending w → pending (remove_pending_request w) + 1 ≡ pending w

  module _ (pending : W → ℕ) (counts : Counts pending) where
    await_service-pending : (fuel : ℕ) (w : W) → pending (await_service fuel w).1 ≡ pending w
    unfolding await_service
    await_service-pending zero w = refl
    await_service-pending (suc fuel) w = elim (Bool-cases (wait_for_service w).0) [
      | inl found ↦ rw found (counts.waited w)
      | inr missing ↦ elim (Bool-cases (ok (wait_for_service w).1)) [
        | inl up ↦ rw (missing, up) (await_service-pending fuel _ ∙ counts.waited w)
        | inr down ↦ rw (missing, down) (counts.waited w)
      ]
    ]

    collect-pending :
        (w : W) → pending (collect (spin_until_complete (send_request w))).1 ≡ pending w
    unfolding collect
    collect-pending w = elim (Option-cases (spin_until_complete (send_request w)).0) [
      | inl silent ↦
          let waits : pending (spin_until_complete (send_request w)).1 ≡ suc (pending w) =
            counts.unanswered (send_request w) silent ∙ counts.sent w in
          rw silent (
            omega (
              arith,
              waits,
              counts.removed (spin_until_complete (send_request w)).1 (omega (arith, waits)),
            ))
      | inr (r, came) ↦
          rw came (omega (arith, counts.received (send_request w) r came, counts.sent w))
    ]

    after_wait-pending : (p : Wait × W) → pending (after_wait p).1 ≡ pending p.1
    unfolding after_wait
    after_wait-pending (available, w) = collect-pending w
    after_wait-pending (interrupted, w) = refl
    after_wait-pending (unfinished, w) = refl

    -- invoke leaves no request pending that it has sent: whether it returns the response or
    -- throws, as many requests are pending after it as before, if sending adds one, a response and
    -- remove_pending_request each take one away, and no other call changes their number.
    pub invoke-pending : (fuel : ℕ) (w : W) → pending (invoke fuel w).1 ≡ pending w
    unfolding invoke
    invoke-pending fuel w = after_wait-pending (await_service fuel w) ∙ await_service-pending fuel w
