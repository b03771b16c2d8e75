-- ===== src/BehaviorTree/Pipeline.antt =====
-- nav3d_behavior_tree/plugins/control/pipeline_sequence.cpp.
pub mod Run
use nav2_3d.Prelude.{
  ℕ, zero, suc, ◌+◌, ◌%◌, ◌^◌, ◌≤◌, ◌<◌, ◌≡◌, refl, ◌⊎◌, inl, inr, Bool, true, false, arith, ltb,
  leb, ◌==◌, if◌then◌else◌, Bool-cases,
}
use nav2_3d.BehaviorTree.{
  NodeStatus, idle, running, success, failure, skipped, BtNode, Outcome, returned, thrown, Ticked,
}

-- The member `last_child_ticked_`.
pub record Pipeline : Type 0 where
  pub last_child_ticked : ℕ

module _ {ℓ} {W : Type ℓ} (bt : BtNode W) where
  open bt use {count, execute_tick, halt_children, base_halt}

  -- The code after the loop. `skipped_count` is an `unsigned`.
  finish : ℕ → W → Ticked Pipeline W
  finish skipped_count w = record {
    outcome = returned (if skipped_count == count then skipped else success);
    node = record { last_child_ticked = 0 };
    world = halt_children w;
  }

  -- The `for` loop, from child `i` with `rounds` children left.
  loop : ℕ → ℕ → ℕ → Pipeline → W → Ticked Pipeline W
  unfolding finish
  loop zero i skipped_count p w = finish skipped_count w
  loop (suc rounds) i skipped_count p w =
      let (s, w') = execute_tick i w in
      elim s [
        | failure ↦ record {
          outcome = returned failure;
          node = record { last_child_ticked = 0 };
          world = halt_children w';
        }
        | skipped ↦ loop rounds (i + 1) ((skipped_count + 1) % 2 ^ 32) p w'
        | success ↦ loop rounds (i + 1) skipped_count p w'
        | running ↦ elim (leb p.last_child_ticked i) [
          | true ↦ record {
            outcome = returned running;
            node = record { last_child_ticked = i };
            world = w';
          }
          | false ↦ loop rounds (i + 1) skipped_count p w'
        ]
        | idle ↦ record { outcome = thrown; node = p; world = w' }
      ]

  pub tick : Pipeline → W → Ticked Pipeline W
  unfolding loop
  tick p w = loop count 0 0 p w

  pub halt : Pipeline → W → Pipeline × W
  halt p w = (record { last_child_ticked = 0 }, base_halt w)
