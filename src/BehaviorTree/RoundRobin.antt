-- ===== src/BehaviorTree/RoundRobin.antt =====
-- nav3d_behavior_tree/plugins/control/round_robin_node.cpp. The `while` loop takes fuel; `none` means
-- that the fuel ran out.
pub mod Run
use nav2_3d.Prelude.{
  ℕ, zero, suc, ◌+◌, ◌%◌, ◌^◌, ◌<◌, ◌≡◌, Bool, true, false, Option, none, some, ltb, ◌==◌,
  if◌then◌else◌,
}
use nav2_3d.BehaviorTree.{
  NodeStatus, idle, running, success, failure, skipped, BtNode, returned, thrown, Ticked,
}

-- The members, both `unsigned int`.
pub record RoundRobin : Type 0 where
  pub current_child_idx : ℕ
  pub num_failed_children : ℕ

module _ {ℓ} {W : Type ℓ} (bt : BtNode W) where
  open bt use {count, execute_tick, halt_children, base_halt, set_status}

  pub halt : RoundRobin → W → RoundRobin × W
  halt r w = (record { current_child_idx = 0; num_failed_children = 0 }, base_halt w)

  -- The code after the loop.
  give_up : ℕ → RoundRobin → W → Ticked RoundRobin W
  unfolding halt
  give_up num_skipped_children r w =
      let all_skipped = num_skipped_children == count in
      let (r', w') = halt r w in
      record {
        outcome = returned (if all_skipped then skipped else failure);
        node = r';
        world = w';
      }

  -- `++current_child_idx_`, and back to 0 at the last child.
  advance : RoundRobin → RoundRobin
  advance r =
      let next = (r.current_child_idx + 1) % 2 ^ 32 in
      record r { current_child_idx = if next == count then 0 else next }

  -- The `while` loop.
  loop : ℕ → ℕ → RoundRobin → W → Option (Ticked RoundRobin W)
  unfolding give_up advance
  loop zero num_skipped_children r w = none
  loop (suc fuel) num_skipped_children r w =
      elim (ltb ((r.num_failed_children + num_skipped_children) % 2 ^ 32) count) [
        | false ↦ some (give_up num_skipped_children r w)
        | true ↦
            let (s, w') = execute_tick r.current_child_idx w in
            elim s [
              | success ↦ some (record {
                outcome = returned success;
                node = record (advance r) { num_failed_children = 0 };
                world = halt_children w';
              })
              | failure ↦
                  loop fuel num_skipped_children
                    (record (advance r) {
                      num_failed_children = (r.num_failed_children + 1) % 2 ^ 32;
                    })
                    w'
              | skipped ↦ loop fuel ((num_skipped_children + 1) % 2 ^ 32) (advance r) w'
              | running ↦ some (record { outcome = returned running; node = r; world = w' })
              | idle ↦ some (record { outcome = thrown; node = advance r; world = w' })
            ]
      ]

  -- Every round but the last counts one more child as failed or skipped.
  pub tick : RoundRobin → W → Option (Ticked RoundRobin W)
  unfolding loop
  tick r w = loop (count + 1) 0 r (set_status running w)

  -- Between two ticks the index is that of a child, and some child has not failed in this round.
  abbrev pub IsValid : RoundRobin → Type 0
  IsValid r = (r.current_child_idx < count) × (r.num_failed_children < count)
