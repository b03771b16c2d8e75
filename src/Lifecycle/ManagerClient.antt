-- ===== src/Lifecycle/ManagerClient.antt =====
-- LifecycleManagerClient (nav3d_lifecycle_manager/src/lifecycle_manager_client.cpp). The response of a
-- service is its field `success`.
use nav2_3d.Prelude.{ℕ, Bool, true, false}
use nav2_3d.Lifecycle.Operations.{
  Command, startup_command, pause_command, resume_command, reset_command, shutdown_command,
}
use nav2_3d.Lifecycle.ServiceClient.{
  RosClient, Invoked, answer, throws, waiting, Wait, available, interrupted, unfinished,
  await_service, invoke,
}

pub data SystemStatus : Type 0 where
  active inactive timeout : SystemStatus

-- What a call gives, or that the fuel ran out while it waited.
pub data Replied (A : Type 0) : Type 0 where
  replied : A → Replied A
  unending : Replied A

-- The client of `manage_nodes` at each command, and that of `is_active`.
pub record Clients {ℓ} (W : Type ℓ) : Type ℓ where
  pub manager_client : Command → RosClient Bool W
  pub is_active_client : RosClient Bool W

module _ {ℓ} {W : Type ℓ} (clients : Clients W) where
  open clients use {manager_client, is_active_client}

  to_status : Invoked Bool × W → Replied SystemStatus × W
  to_status (answer true, w) = (replied active, w)
  to_status (answer false, w) = (replied inactive, w)
  to_status (throws, w) = (replied timeout, w)
  to_status (waiting, w) = (unending, w)

  pub is_active : ℕ → W → Replied SystemStatus × W
  unfolding to_status
  is_active fuel w =
      let (found, w') = is_active_client.wait_for_service w in
      elim found [
        | false ↦ (replied timeout, w')
        | true ↦ to_status (invoke is_active_client fuel w')
      ]

  to_success : Invoked Bool × W → Replied Bool × W
  to_success (answer success, w) = (replied success, w)
  to_success (throws, w) = (replied false, w)
  to_success (waiting, w) = (unending, w)

  after_service : Command → ℕ → Wait × W → Replied Bool × W
  unfolding to_success
  after_service command fuel (available, w) = to_success (invoke (manager_client command) fuel w)
  after_service command fuel (interrupted, w) = (replied false, w)
  after_service command fuel (unfinished, w) = (unending, w)

  unfoldable pub call_service : Command → ℕ → W → Replied Bool × W
  unfolding after_service
  call_service command fuel w =
      after_service command fuel (await_service (manager_client command) fuel w)

  pub startup : ℕ → W → Replied Bool × W
  startup = call_service startup_command

  pub shutdown : ℕ → W → Replied Bool × W
  shutdown = call_service shutdown_command

  pub pause : ℕ → W → Replied Bool × W
  pause = call_service pause_command

  pub resume : ℕ → W → Replied Bool × W
  resume = call_service resume_command

  pub reset : ℕ → W → Replied Bool × W
  reset = call_service reset_command
