-- ===== src/BehaviorTree/Recovery/Run.antt =====
-- One tick of a RecoveryNode, from its first child on, against what its two children return.
use nav2_3d.Prelude.{
  ℕ, zero, suc, ◌+◌, ◌-◌, ◌*◌, ◌%◌, ◌^◌, ◌≤◌, ◌<◌, ◌≡◌, subst, inl, inr, true, arith, ltb, leb,
  ltb→lt, Bool-cases, Option, some,
}
use nav2_3d.BehaviorTree.{
  NodeStatus, idle, running, success, failure, skipped, status_cases, is_idle, is_running,
  is_success, is_failure, is_skipped, BtNode, returned, thrown, Ticked, get_input,
}
use nav2_3d.BehaviorTree.Recovery.{Recovery, loop, tick, halt_and_return, reset, fuel_for}

module _ {ℓ} {W : Type ℓ} (bt : BtNode W) where
  open bt use {count, execute_tick, halt_child, base_halt, set_status}

  -- The world before attempt `k` and between the attempt and its recovery, when every attempt before
  -- it was ticked, halted, recovered from and halted again.
  abbrev pub attempt_at : ℕ → W → W
  attempt_at zero w = w
  attempt_at (suc k) w =
      halt_child 1 (execute_tick 1 (halt_child 0 (execute_tick 0 (attempt_at k w)).1)).1

  abbrev pub main_tick : ℕ → W → NodeStatus × W
  main_tick k w = execute_tick 0 (attempt_at k w)

  abbrev pub recovery_tick : ℕ → W → NodeStatus × W
  recovery_tick k w = execute_tick 1 (halt_child 0 (main_tick k w).1)

  -- The attempts before `k` failed and their recoveries succeeded.
  abbrev pub Recovered : ℕ → W → Type 0
  Recovered zero w = Unit
  Recovered (suc k) w =
      Recovered k w × ((main_tick k w).0 ≡ failure) × ((recovery_tick k w).0 ≡ success)

  abbrev pub at_rest : NodeStatus → Recovery → W → Ticked Recovery W
  at_rest s r w = record { outcome = returned s; node = reset r; world = base_halt w }

  -- The members at attempt `k`, on child `idx`.
  abbrev pub on_child : ℕ → Recovery → ℕ → Recovery
  on_child idx r k = record r { current_child_idx = idx; retry_count = r.retry_count + k }

  pub data Recovers (r : Recovery) (w : W) (o : Option (Ticked Recovery W)) : Type ℓ where
    main_skipped :
        (k : ℕ)
        → r.retry_count + k ≤ r.number_of_retries
        → Recovered k w
        → (main_tick k w).0 ≡ skipped
        → o ≡ some (at_rest skipped r (main_tick k w).1)
        → Recovers r w o
    main_succeeded :
        (k : ℕ)
        → r.retry_count + k ≤ r.number_of_retries
        → Recovered k w
        → (main_tick k w).0 ≡ success
        → o ≡ some (at_rest success r (halt_child 1 (main_tick k w).1))
        → Recovers r w o
    main_running :
        (k : ℕ)
        → r.retry_count + k ≤ r.number_of_retries
        → Recovered k w
        → (main_tick k w).0 ≡ running
        → o
          ≡ some (record {
            outcome = returned running;
            node = on_child 0 r k;
            world = (main_tick k w).1;
          })
        → Recovers r w o
    main_invalid :
        (k : ℕ)
        → r.retry_count + k ≤ r.number_of_retries
        → Recovered k w
        → (main_tick k w).0 ≡ idle
        → o ≡ some (record { outcome = thrown; node = on_child 0 r k; world = (main_tick k w).1 })
        → Recovers r w o
    exhausted :
        (k : ℕ)
        → r.retry_count + k ≡ r.number_of_retries
        → Recovered k w
        → (main_tick k w).0 ≡ failure
        → o ≡ some (at_rest failure r (main_tick k w).1)
        → Recovers r w o
    recovery_skipped :
        (k : ℕ)
        → r.retry_count + k < r.number_of_retries
        → Recovered k w
        → (main_tick k w).0 ≡ failure
        → (recovery_tick k w).0 ≡ skipped
        → o
          ≡ some (record {
            outcome = returned failure;
            node = on_child 0 r k;
            world = halt_child 1 (recovery_tick k w).1;
          })
        → Recovers r w o
    recovery_failed :
        (k : ℕ)
        → r.retry_count + k < r.number_of_retries
        → Recovered k w
        → (main_tick k w).0 ≡ failure
        → (recovery_tick k w).0 ≡ failure
        → o ≡ some (at_rest failure r (recovery_tick k w).1)
        → Recovers r w o
    recovery_running :
        (k : ℕ)
        → r.retry_count + k < r.number_of_retries
        → Recovered k w
        → (main_tick k w).0 ≡ failure
        → (recovery_tick k w).0 ≡ running
        → o
          ≡ some (record {
            outcome = returned running;
            node = on_child 1 r k;
            world = (recovery_tick k w).1;
          })
        → Recovers r w o
    recovery_invalid :
        (k : ℕ)
        → r.retry_count + k < r.number_of_retries
        → Recovered k w
        → (main_tick k w).0 ≡ failure
        → (recovery_tick k w).0 ≡ idle
        → o
          ≡ some (record { outcome = thrown; node = on_child 1 r k; world = (recovery_tick k w).1 })
        → Recovers r w o

  -- The first child of attempt `k`; `next` handles its failure with retries left.
  main_step :
      (fuel k : ℕ) (r : Recovery) (w : W)
      → r.retry_count + k ≤ r.number_of_retries
      → Recovered k w
      → ((main_tick k w).0 ≡ failure
          → r.retry_count + k < r.number_of_retries
          → Recovers r w (loop bt fuel 2 (on_child 1 r k) (halt_child 0 (main_tick k w).1)))
      → Recovers r w (loop bt (suc fuel) 2 (on_child 0 r k) (attempt_at k w))
  unfolding loop halt_and_return
  main_step fuel k r w within before next =
      let more : leb (r.retry_count + k) r.number_of_retries ≡ true = ground arith in
      elim (status_cases (main_tick k w).0) [
        | is_skipped s ↦ main_skipped k within before s (rw (more, loop, s, loop))
        | is_success s ↦ main_succeeded k within before s (rw (more, loop, s, loop))
        | is_running s ↦ main_running k within before s (rw (more, loop, s, loop))
        | is_idle s ↦ main_invalid k within before s (rw (more, loop, s, loop))
        | is_failure s ↦ elim (Bool-cases (ltb (r.retry_count + k) r.number_of_retries)) [
          | inl again ↦ rw (more, loop, s, loop) (rw (again, loop) (next s (ltb→lt _ _ again)))
          | inr last ↦
              exhausted k (ground arith) before s (rw (more, loop, s, loop) (rw (last, loop)))
        ]
      ]

  -- The second child of attempt `k`; `next` handles its success.
  recovery_step :
      (fuel k : ℕ) (r : Recovery) (w : W)
      → r.number_of_retries < 2 ^ 32
      → r.retry_count + k < r.number_of_retries
      → Recovered k w
      → (main_tick k w).0 ≡ failure
      → ((recovery_tick k w).0 ≡ success
          → Recovers r w (loop bt fuel 2 (on_child 0 r (suc k)) (attempt_at (suc k) w)))
      → Recovers r w (loop bt (suc fuel) 2 (on_child 1 r k) (halt_child 0 (main_tick k w).1))
  unfolding loop halt_and_return
  recovery_step fuel k r w small within before m next =
      let more : leb (r.retry_count + k) r.number_of_retries ≡ true = ground arith in
      let again : (r.retry_count + k + 1) % 2 ^ 32 ≡ r.retry_count + suc k = omega arith in
      elim (status_cases (recovery_tick k w).0) [
        | is_skipped s ↦ recovery_skipped k within before m s (rw (more, loop, s, loop))
        | is_success s ↦ rw (more, loop, s, loop, again) (next s)
        | is_running s ↦ recovery_running k within before m s (rw (more, loop, s, loop))
        | is_idle s ↦ recovery_invalid k within before m s (rw (more, loop, s, loop))
        | is_failure s ↦ recovery_failed k within before m s (rw (more, loop, s, loop))
      ]

  -- From attempt `k` on, with `left` retries left.
  loop-Recovers :
      (left fuel k : ℕ) (r : Recovery) (w : W)
      → r.number_of_retries < 2 ^ 32
      → r.retry_count + k + left ≡ r.number_of_retries
      → Recovered k w
      → 2 * left < fuel
      → Recovers r w (loop bt fuel 2 (on_child 0 r k) (attempt_at k w))
  loop-Recovers left zero k r w small total before enough = absurd (omega arith)
  loop-Recovers zero (suc fuel) k r w small total before enough =
      main_step fuel k r w (omega arith) before (λ s more. absurd (omega arith))
  loop-Recovers (suc left) (suc zero) k r w small total before enough = absurd (omega arith)
  loop-Recovers (suc left) (suc (suc fuel)) k r w small total before enough =
      main_step (suc fuel) k r w (omega arith) before λ s more.
        recovery_step fuel k r w small more before s λ s'.
          loop-Recovers left fuel (suc k) r w small (omega arith) (before, s, s') (omega arith)

  -- A tick of a RecoveryNode with two children that starts at the first child, with a retry count
  -- not above the number of retries, itself below 2^32, runs rounds of the first child failing and
  -- the second succeeding, and ends in exactly one of the listed ways, each with its outcome, its
  -- counters and the calls made on the children.
  pub tick-Recovers :
      (port : Option ℕ) (r : Recovery) (w : W)
      → count ≡ 2
      → r.current_child_idx ≡ 0
      → r.retry_count ≤ get_input port r.number_of_retries
      → get_input port r.number_of_retries < 2 ^ 32
      → Recovers
          (record r { number_of_retries = get_input port r.number_of_retries })
          (set_status running w)
          (tick bt port r w)
  unfolding tick
  tick-Recovers port r w two first within small =
      let r' : Recovery = record r { number_of_retries = get_input port r.number_of_retries } in
      let w' = set_status running w in
      let start : on_child 0 r' 0 ≡ r' = ground arith in
      simp two (
        subst (λ q. Recovers r' w' (loop bt (fuel_for r'.number_of_retries) 2 q w')) start
          (loop-Recovers (r'.number_of_retries - r.retry_count) _ 0 r' w' small (omega arith) tt
            (omega arith)))
