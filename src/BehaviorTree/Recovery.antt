-- ===== src/BehaviorTree/Recovery.antt =====
-- nav3d_behavior_tree/plugins/control/recovery_node.cpp. The `while` loop takes fuel; `none` means that
-- the fuel ran out.
pub mod Total
pub mod Run
use nav2_3d.Prelude.{
  ℕ, zero, suc, ◌+◌, ◌*◌, ◌%◌, ◌^◌, Bool, true, false, Option, none, some, ltb, leb, ◌==◌, ◌&&◌,
  ◌≤◌, if◌then◌else◌,
}
use nav2_3d.BehaviorTree.{
  idle, running, success, failure, skipped, BtNode, returned, thrown, Ticked, get_input, NodeStatus,
}

-- The members, all `unsigned int`.
pub record Recovery : Type 0 where
  pub current_child_idx : ℕ
  pub number_of_retries : ℕ
  pub retry_count : ℕ

-- What `halt()` leaves in the members.
abbrev pub reset : Recovery → Recovery
reset r = record r { retry_count = 0; current_child_idx = 0 }

-- Enough rounds for every retry that is left, twice, and for leaving the loop.
abbrev pub fuel_for : ℕ → ℕ
fuel_for retries = 2 * (retries + 1) + 2

module _ {ℓ} {W : Type ℓ} (bt : BtNode W) where
  open bt use {count, execute_tick, halt_child, base_halt, set_status}

  pub halt : Recovery → W → Recovery × W
  halt r w = (reset r, base_halt w)

  -- `halt(); return s;`
  halt_and_return : NodeStatus → Recovery → W → Ticked Recovery W
  unfolding halt
  halt_and_return s r w =
      let (r', w') = halt r w in record { outcome = returned s; node = r'; world = w' }

  -- The `while` loop; `children_count` is the local of that name.
  loop : ℕ → ℕ → Recovery → W → Option (Ticked Recovery W)
  unfolding halt_and_return
  loop zero children_count r w = none
  loop (suc fuel) children_count r w =
      elim (ltb r.current_child_idx children_count && leb r.retry_count r.number_of_retries) [
        | false ↦ some (halt_and_return failure r w)
        | true ↦
            let (s, w') = execute_tick r.current_child_idx w in
            elim (r.current_child_idx == 0) [
              | true ↦ elim s [
                | skipped ↦ some (halt_and_return skipped r w')
                | success ↦ some (halt_and_return success r (halt_child 1 w'))
                | running ↦ some (record { outcome = returned running; node = r; world = w' })
                | failure ↦ elim (ltb r.retry_count r.number_of_retries) [
                  | true ↦
                      loop fuel children_count
                        (record r { current_child_idx = (r.current_child_idx + 1) % 2 ^ 32 })
                        (halt_child 0 w')
                  | false ↦ some (halt_and_return failure r w')
                ]
                | idle ↦ some (record { outcome = thrown; node = r; world = w' })
              ]
              | false ↦ elim (r.current_child_idx == 1) [
                | true ↦ elim s [
                  | skipped ↦ some (record {
                    outcome = returned failure;
                    node = record r { current_child_idx = 0 };
                    world = halt_child 1 w';
                  })
                  | running ↦ some (record { outcome = returned running; node = r; world = w' })
                  | success ↦
                      loop fuel children_count
                        (record r {
                          retry_count = (r.retry_count + 1) % 2 ^ 32;
                          current_child_idx = 0;
                        })
                        (halt_child 1 w')
                  | failure ↦ some (halt_and_return failure r w')
                  | idle ↦ some (record { outcome = thrown; node = r; world = w' })
                ]
                | false ↦ loop fuel children_count r w'
              ]
            ]
      ]

  -- `port` is the value of the input port "number_of_retries", if it has one.
  pub tick : Option ℕ → Recovery → W → Option (Ticked Recovery W)
  unfolding loop
  tick port r w =
      let r' = record r { number_of_retries = get_input port r.number_of_retries } in
      let children_count = count % 2 ^ 32 in
      if children_count == 2
      then loop (fuel_for r'.number_of_retries) children_count r' (set_status running w)
      else some (record { outcome = thrown; node = r'; world = w })

-- Between two ticks the index is that of a child.
abbrev pub IsValid : Recovery → Type 0
IsValid r = r.current_child_idx ≤ 1
