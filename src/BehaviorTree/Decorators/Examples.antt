-- ===== src/BehaviorTree/Decorators/Examples.antt =====
-- The decorators on a concrete child.
use nav2_3d.Prelude.{
  ℕ, ◌+◌, ◌*◌, ◌-◌, ◌/◌, ◌≡◌, refl, false, some, List, [], ◌∷◌, Eq, ◌==◌, ==_iff, ltb, leb,
}
use nav2_3d.Prelude.Double.{Doubles}
use nav2_3d.BehaviorTree.{NodeStatus, idle, running, success, BtNode}
use nav2_3d.BehaviorTree.Decorators.{Counts, is_running}
use nav2_3d.BehaviorTree.Decorators.RateController as Rate

instance numbers : Eq ℕ
numbers = record { beq = ◌==◌; beq_iff = ==_iff }

-- The world has the time, the number of the child's ticks and the status of the node. The child takes
-- two units of time and succeeds.
abbrev counting : BtNode (ℕ × ℕ × NodeStatus)
counting = record {
  count = 1;
  execute_tick = λ i w. (success, (w.0 + 2, w.1 + 1, w.2));
  child_status = λ i w. success;
  halt_child = λ i w. w;
  halt_children = λ w. w;
  base_halt = λ w. w;
  reset_child = λ w. w;
  status = λ w. w.2;
  set_status = λ s w. (w.0, w.1, s);
  is_status_active = is_running;
}

abbrev ticks : ℕ × ℕ × NodeStatus → ℕ
ticks w = w.1

counting-Counts : Counts counting ticks
counting-Counts = record { tick_counts = λ w. refl; set_status_quiet = λ s w. refl }

-- Whole numbers in place of doubles.
abbrev whole_numbers : Doubles ℕ
whole_numbers = record {
  zero = 0;
  one = 1;
  add = ◌+◌;
  sub = ◌-◌;
  mul = ◌*◌;
  div = ◌/◌;
  hypot = ◌+◌;
  lt = ltb;
  le = leb;
}

abbrev timing : Rate.Timing ℕ (ℕ × ℕ × NodeStatus)
timing = record { now = λ w. (w.0, w); seconds = λ a b. b - a; hz = λ w. some 1 }

abbrev rate : Rate.RateController ℕ
rate = record { period = 9; start = 0; first_time = false }

abbrev later_worlds : List (ℕ × ℕ × NodeStatus)
later_worlds = (12, 1, running) ∷ (13, 1, running) ∷ (20, 5, running) ∷ []

tick-due_example :
    Rate.counted counting whole_numbers timing ticks ((10, 0, idle) ∷ later_worlds) rate
    ≡ 1 ∷ Rate.paced counting whole_numbers timing 1 12 later_worlds
tick-due_example =
    Rate.tick-due counting whole_numbers timing ticks counting-Counts (λ w. refl) (10, 0, idle)
      later_worlds rate refl (refl, (refl, (refl, tt)))

paced_ticks : Rate.paced counting whole_numbers timing 1 12 later_worlds ≡ 0 ∷ 1 ∷ 1 ∷ []
unfolding nav2_3d.BehaviorTree.Decorators.RateController.paced
paced_ticks = refl
