-- ===== src/BehaviorTree/RoundRobin/Run.antt =====
-- One tick of a RoundRobinNode against what its children return in cyclic order.
use native.Mathlib.Nat.{add-zero, add_assoc, mod-add-mod, mod-eq_of_lt, mod-lt, mod_self}
use native.Mathlib.Numerals.{add-one}
use nav2_3d.Prelude.{
  ◌⊎◌, ℕ, zero, suc, ◌+◌, ◌-◌, ◌%◌, ◌^◌, ◌≤◌, ◌<◌, ◌≡◌, refl, sym, ap, subst, ◌∙◌, inl, inr, Bool,
  true, false, arith, ltb, ◌==◌, Returns, if◌then◌else◌, Bool-cases, Option, some, u32_id,
}
use nav2_3d.BehaviorTree.{
  NodeStatus, idle, running, success, failure, skipped, status_cases, is_idle, is_running,
  is_success, is_failure, is_skipped, BtNode, returned, thrown, Ticked,
}
use nav2_3d.BehaviorTree.RoundRobin.{RoundRobin, IsValid, loop, tick, give_up}

next_mod : (a n : ℕ) → 0 < n → (if a % n + 1 == n then 0 else a % n + 1) ≡ (a + 1) % n
next_mod a n h = elim (Bool-cases (a % n + 1 == n)) [
  | inl last ↦
      let e : a % n + 1 ≡ n = ground arith in
      rw last (sym (sym (mod-add-mod a n 1) ∙ ap (λ t. t % n) e ∙ mod_self n))
  | inr more ↦
      let e : a % n + 1 < n = grind (arith, mod-lt) in
      rw more (rw (← mod-add-mod a n 1) (sym (mod-eq_of_lt e)))
]

abbrev pub was_skipped : NodeStatus → Bool
was_skipped skipped = true
was_skipped _ = false

abbrev pub goes_on : NodeStatus → Bool
goes_on skipped = true
goes_on failure = true
goes_on _ = false

-- Child number `k` of a round, counted from the current one.
abbrev pub child : ℕ → RoundRobin → ℕ → ℕ
child count r k = (r.current_child_idx + k) % count

module _ {ℓ} {W : Type ℓ} (bt : BtNode W) where
  open bt use {count, execute_tick, halt_children, base_halt, set_status}

  -- The world after the first `k` children of the round were ticked once each.
  abbrev pub world_at : ℕ → RoundRobin → W → W
  world_at zero r w = w
  world_at (suc k) r w = (execute_tick (child count r k) (world_at k r w)).1

  abbrev pub status_at : ℕ → RoundRobin → W → NodeStatus
  status_at k r w = (execute_tick (child count r k) (world_at k r w)).0

  -- The first `k` children of the round failed or were skipped.
  abbrev pub PassedTo : ℕ → RoundRobin → W → Type 0
  PassedTo zero r w = Unit
  PassedTo (suc k) r w = PassedTo k r w × (goes_on (status_at k r w) ≡ true)

  abbrev pub skips : ℕ → RoundRobin → W → ℕ
  skips zero r w = 0
  skips (suc k) r w = if was_skipped (status_at k r w) then skips k r w + 1 else skips k r w

  -- The members after `k` children of the round were passed.
  abbrev pub after : ℕ → RoundRobin → W → RoundRobin
  after k r w = record {
    current_child_idx = child count r k;
    num_failed_children = r.num_failed_children + (k - skips k r w);
  }

  pub data Rotates (r : RoundRobin) (w : W) (o : Option (Ticked RoundRobin W)) : Type ℓ where
    succeeded :
        (k : ℕ)
        → r.num_failed_children + k < count
        → PassedTo k r w
        → status_at k r w ≡ success
        → o
          ≡ some (record {
            outcome = returned success;
            node = record { current_child_idx = child count r (k + 1); num_failed_children = 0 };
            world = halt_children (world_at (suc k) r w);
          })
        → Rotates r w o
    waits :
        (k : ℕ)
        → r.num_failed_children + k < count
        → PassedTo k r w
        → status_at k r w ≡ running
        → o
          ≡ some (record {
            outcome = returned running;
            node = after k r w;
            world = world_at (suc k) r w;
          })
        → Rotates r w o
    invalid :
        (k : ℕ)
        → r.num_failed_children + k < count
        → PassedTo k r w
        → status_at k r w ≡ idle
        → o
          ≡ some (record {
            outcome = thrown;
            node = record (after k r w) { current_child_idx = child count r (k + 1) };
            world = world_at (suc k) r w;
          })
        → Rotates r w o
    gave_up :
        (k : ℕ)
        → r.num_failed_children + k ≡ count
        → PassedTo k r w
        → o
          ≡ some (record {
            outcome = returned (if skips k r w == count then skipped else failure);
            node = record { current_child_idx = 0; num_failed_children = 0 };
            world = base_halt (world_at k r w);
          })
        → Rotates r w o

  skips-le : (k : ℕ) (r : RoundRobin) (w : W) → skips k r w ≤ k
  skips-le zero r w = omega arith
  skips-le (suc k) r w = ground (arith, skips-le k r w)

  advance_lem :
      (k : ℕ) (r : RoundRobin)
      → 0 < count
      → count < 2 ^ 32
      → (if (child count r k + 1) % 2 ^ 32 == count then 0 else (child count r k + 1) % 2 ^ 32)
        ≡ child count r (k + 1)
  advance_lem k r some_child small =
      let idx = child count r k in
      let below : idx < count = mod-lt _ some_child in
      rw (
        u32_id (idx + 1) (omega arith),
        next_mod (r.current_child_idx + k) count some_child,
        add_assoc,
      )

  -- From child `k` of the round on, with `left` children that may still fail or be skipped.
  loop-Rotates :
      (left fuel k : ℕ) (r : RoundRobin) (w : W)
      → count < 2 ^ 32
      → 0 < count
      → r.num_failed_children + k + left ≡ count
      → left < fuel
      → PassedTo k r w
      → Rotates r w (loop bt fuel (skips k r w) (after k r w) (world_at k r w))
  unfolding loop give_up
  loop-Rotates left zero k r w small some_child total enough passed = absurd (omega arith)
  loop-Rotates zero (suc fuel) k r w small some_child total enough passed =
      let stop : ltb ((r.num_failed_children + (k - skips k r w) + skips k r w) % 2 ^ 32) count
          ≡ false =
        ground (arith, skips-le k r w) in
      gave_up k (omega arith) passed (rw (stop, loop))
  loop-Rotates (suc left) (suc fuel) k r w small some_child total enough passed =
      let on : ltb ((r.num_failed_children + (k - skips k r w) + skips k r w) % 2 ^ 32) count
          ≡ true =
        ground (arith, skips-le k r w) in
      let failed : (r.num_failed_children + (k - skips k r w) + 1) % 2 ^ 32
          ≡ r.num_failed_children + (suc k - skips k r w) =
        omega (arith, skips-le k r w) in
      let more_skipped : (skips k r w + 1) % 2 ^ 32 ≡ skips k r w + 1 =
        omega (arith, skips-le k r w) in
      let same : k - skips k r w ≡ suc k - (skips k r w + 1) = omega (arith, skips-le k r w) in
      let moved = advance_lem k r some_child small in
      let rest = loop-Rotates left fuel (suc k) r w small some_child (omega arith) (omega arith) in
      elim (status_cases (status_at k r w)) [
        | is_success s ↦ succeeded k (omega arith) passed s (rw (on, loop, s, loop, moved))
        | is_running s ↦ waits k (omega arith) passed s (rw (on, loop, s, loop))
        | is_idle s ↦ invalid k (omega arith) passed s (rw (on, loop, s, loop, moved))
        | is_failure s ↦
            rw (on, loop, s, loop, moved, failed, add-one k)
              (rw (s, was_skipped) at (rest (passed, rw s refl)))
        | is_skipped s ↦
            rw (on, loop, s, loop, moved, more_skipped, same, add-one k)
              (rw (s, was_skipped) at (rest (passed, rw s refl)))
      ]

  after-zero : (r : RoundRobin) (w : W) → IsValid bt r → after 0 r w ≡ r
  after-zero r w valid =
      rw (add-zero r.current_child_idx, mod-eq_of_lt valid.0, add-zero r.num_failed_children)

  -- With fewer than 2^32 children and valid members, a tick of a RoundRobinNode ticks the children
  -- in turn from the current one, passing over those that fail or are skipped, and ends at the
  -- first that succeeds, runs or is idle, or when the failures of this round and the skips reach
  -- the number of children; it never runs out of the fuel that the model gives it.
  pub tick-Rotates :
      (r : RoundRobin) (w : W)
      → IsValid bt r
      → count < 2 ^ 32
      → Rotates r (set_status running w) (tick bt r w)
  unfolding tick
  tick-Rotates r w valid small =
      let w' = set_status running w in
      subst (λ q. Rotates r w' (loop bt (count + 1) 0 q w')) (after-zero r w' valid)
        (loop-Rotates (count - r.num_failed_children) _ 0 r w' small (omega arith) (omega arith)
          (omega arith) tt)

  Rotates-IsValid :
      {r : RoundRobin} {w : W} (o : Option (Ticked RoundRobin W))
      → 0 < count
      → Rotates r w o
      → Returns (λ t. (t.outcome ≡ thrown) ⊎ IsValid bt t.node) o
  Rotates-IsValid o some_child (succeeded k below passed s e) =
      rw e (inr (mod-lt _ some_child, some_child))
  Rotates-IsValid {r} {w} o some_child (waits k below passed s e) =
      rw e (inr (mod-lt _ some_child, omega (arith, skips-le k r w)))
  Rotates-IsValid o some_child (invalid k below passed s e) = rw e (inl refl)
  Rotates-IsValid o some_child (gave_up k total passed e) = rw e (inr (some_child, some_child))

  -- With fewer than 2^32 children and valid members, a tick of a RoundRobinNode that does not
  -- throw leaves the index that of a child and the number of failed children below the number of
  -- children.
  pub tick-IsValid :
      (r : RoundRobin) (w : W)
      → IsValid bt r
      → count < 2 ^ 32
      → Returns (λ t. (t.outcome ≡ thrown) ⊎ IsValid bt t.node) (tick bt r w)
  tick-IsValid r w valid small = Rotates-IsValid _ (omega arith) (tick-Rotates r w valid small)
