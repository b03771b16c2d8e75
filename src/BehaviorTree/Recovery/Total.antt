-- ===== src/BehaviorTree/Recovery/Total.antt =====
-- The loop of RecoveryNode::tick and its fuel.
use nav2_3d.Prelude.{ℕ, zero, suc, ◌+◌, ◌-◌, ◌*◌, ◌%◌, ◌^◌, ◌≤◌, ◌<◌, ◌≡◌, arith, Option, Returns}
use nav2_3d.BehaviorTree.{
  idle, running, success, failure, skipped, BtNode, returned, Ticked, get_input,
}
use nav2_3d.BehaviorTree.Recovery.{Recovery, IsValid, loop, tick}

pub record Settled {ℓ} {W : Type ℓ} (retries : ℕ) (t : Ticked Recovery W) : Type 0 where
  pub same_limit : t.node.number_of_retries ≡ retries
  pub valid : t.node.current_child_idx ≤ 1
  pub failure_rewinds : t.outcome ≡ returned failure → t.node.current_child_idx ≡ 0
  pub success_resets :
      t.outcome ≡ returned success → (t.node.current_child_idx ≡ 0) × (t.node.retry_count ≡ 0)
  pub skip_resets :
      t.outcome ≡ returned skipped → (t.node.current_child_idx ≡ 0) × (t.node.retry_count ≡ 0)
  pub running_within : t.outcome ≡ returned running → t.node.retry_count ≤ retries
  pub never_idle : ¬ (t.outcome ≡ returned idle)

module _ {ℓ} {W : Type ℓ} (bt : BtNode W) where
  open bt use {count, execute_tick, halt_child}

  loop-Settled :
      (fuel : ℕ) (r : Recovery) (w : W)
      → r.current_child_idx ≤ 1
      → r.number_of_retries + 1 < 2 ^ 32
      → 2 * (r.number_of_retries + 1 - r.retry_count) + 2 ≤ fuel + r.current_child_idx
      → Returns (Settled r.number_of_retries) (loop bt fuel 2 r w)
  unfolding loop
  loop-Settled zero r w valid small enough = absurd (omega arith)
  loop-Settled (suc fuel) r w valid small enough =
      let w' = (execute_tick r.current_child_idx w).1 in
      ground (
        arith,
        loop-Settled fuel (record r { current_child_idx = (r.current_child_idx + 1) % 2 ^ 32 })
            (halt_child 0 w'),
        loop-Settled fuel
            (record r { retry_count = (r.retry_count + 1) % 2 ^ 32; current_child_idx = 0 })
            (halt_child 1 w'),
      )

  -- A tick of a RecoveryNode with two children, whose index is that of a child and whose number of
  -- retries plus one is below 2^32, ends within the fuel that the model gives it, and it ends
  -- settled.
  pub tick-Settled :
      (port : Option ℕ) (r : Recovery) (w : W)
      → count ≡ 2
      → IsValid r
      → get_input port r.number_of_retries + 1 < 2 ^ 32
      → Returns (Settled (get_input port r.number_of_retries)) (tick bt port r w)
  unfolding tick
  tick-Settled port r w two valid small =
      rw (two, tick) (loop-Settled _ _ _ valid small (omega arith))
