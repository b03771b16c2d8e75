-- ===== src/BehaviorTree/Pipeline/Run.antt =====
-- One tick of a PipelineSequence against what its children return when they are ticked in order.
use nav2_3d.Prelude.{
  ℕ, zero, suc, ◌+◌, ◌^◌, ◌≤◌, ◌<◌, ◌≡◌, refl, ap, subst, inl, inr, Bool, true, false, arith, ltb,
  leb, ◌==◌, if◌then◌else◌, Bool-cases, leb→le, u32_id,
}
use native.Mathlib.Numerals.{add-one}
use nav2_3d.BehaviorTree.{
  NodeStatus, idle, running, success, failure, skipped, status_cases, is_idle, is_running,
  is_success, is_failure, is_skipped, BtNode, returned, thrown, Ticked,
}
use nav2_3d.BehaviorTree.Pipeline.{Pipeline, finish, loop, tick}

-- The statuses after which the sequence goes on to the next child.
abbrev pub passes : Bool → NodeStatus → Bool
passes early success = true
passes early skipped = true
passes early running = early
passes early failure = false
passes early idle = false

abbrev pub was_skipped : NodeStatus → Bool
was_skipped skipped = true
was_skipped _ = false

module _ {ℓ} {W : Type ℓ} (bt : BtNode W) where
  open bt use {count, execute_tick, halt_children}

  -- The world after the first `k` children were ticked once each, and what the next one returns.
  abbrev pub world_at : ℕ → W → W
  world_at zero w = w
  world_at (suc k) w = (execute_tick k (world_at k w)).1

  abbrev pub status_at : ℕ → W → NodeStatus
  status_at k w = (execute_tick k (world_at k w)).0

  -- The children before `k` were passed.
  abbrev pub PassedTo : ℕ → ℕ → W → Type 0
  PassedTo last zero w = Unit
  PassedTo last (suc k) w = PassedTo last k w × (passes (ltb k last) (status_at k w) ≡ true)

  abbrev pub skips : ℕ → W → ℕ
  skips zero w = 0
  skips (suc k) w = if was_skipped (status_at k w) then skips k w + 1 else skips k w

  pub data Verdict (last : ℕ) (w : W) (t : Ticked Pipeline W) : Type ℓ where
    failed_at :
        (k : ℕ)
        → k < count
        → PassedTo last k w
        → status_at k w ≡ failure
        → t ≡ record {
          outcome = returned failure;
          node = record { last_child_ticked = 0 };
          world = halt_children (world_at (suc k) w);
        }
        → Verdict last w t
    waits_at :
        (k : ℕ)
        → k < count
        → PassedTo last k w
        → status_at k w ≡ running
        → last ≤ k
        → t ≡ record {
          outcome = returned running;
          node = record { last_child_ticked = k };
          world = world_at (suc k) w;
        }
        → Verdict last w t
    invalid_at :
        (k : ℕ)
        → k < count
        → PassedTo last k w
        → status_at k w ≡ idle
        → t ≡ record {
          outcome = thrown;
          node = record { last_child_ticked = last };
          world = world_at (suc k) w;
        }
        → Verdict last w t
    completed :
        PassedTo last count w
        → t ≡ record {
          outcome = returned (if skips count w == count then skipped else success);
          node = record { last_child_ticked = 0 };
          world = halt_children (world_at count w);
        }
        → Verdict last w t

  skips-le : (k : ℕ) (w : W) → skips k w ≤ k
  skips-le zero w = omega arith
  skips-le (suc k) w = ground (arith, skips-le k w)

  loop-Verdict :
      (rounds i : ℕ) (p : Pipeline) (w : W)
      → i + rounds ≡ count
      → count < 2 ^ 32
      → PassedTo p.last_child_ticked i w
      → Verdict p.last_child_ticked w (loop bt rounds i (skips i w) p (world_at i w))
  unfolding loop finish
  loop-Verdict zero i p w e small passed =
      let e' : i ≡ count = omega arith in
      completed (subst (λ k. PassedTo p.last_child_ticked k w) e' passed)
        (ap (λ k. finish bt (skips k w) (world_at k w)) e')
  loop-Verdict (suc rounds) i p w e small passed =
      let rest = loop-Verdict rounds (suc i) p w (omega arith) small in
      elim (status_cases (status_at i w)) [
        | is_failure s ↦ failed_at i (omega arith) passed s (rw (s, loop))
        | is_idle s ↦ invalid_at i (omega arith) passed s (rw (s, loop))
        | is_success s ↦ rw (s, loop, add-one) (rw (s, was_skipped) at (rest (passed, rw s refl)))
        | is_skipped s ↦
            rw (s, loop, u32_id (skips i w + 1) (omega (arith, skips-le i w)), add-one)
              (rw (s, was_skipped) at (rest (passed, rw s refl)))
        | is_running s ↦ elim (Bool-cases (leb p.last_child_ticked i)) [
          | inl late ↦
              waits_at i (omega arith) passed s (leb→le _ _ late) (rw (s, loop) (rw (late, loop)))
          | inr early ↦
              rw (s, loop)
                (rw (early, loop)
                  (rw add-one (rw (s, was_skipped) at (rest (passed, rw s (ground arith))))))
        ]
      ]

  -- With fewer than 2^32 children, a tick of a PipelineSequence passes over children that succeed,
  -- are skipped, or run before the last child ticked, and ends at the first child that fails, runs
  -- at or after the last child ticked, or is idle, or after the last child; each with its outcome,
  -- the member and the calls made.
  pub tick-Verdict :
      (p : Pipeline) (w : W) → count < 2 ^ 32 → Verdict p.last_child_ticked w (tick bt p w)
  unfolding tick
  tick-Verdict p w small = loop-Verdict count 0 p w (omega arith) small tt
