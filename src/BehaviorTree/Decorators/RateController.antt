-- ===== src/BehaviorTree/Decorators/RateController.antt =====
-- nav3d_behavior_tree/plugins/decorator/rate_controller.cpp.
use nav2_3d.Prelude.{
  ℕ, List, [], ◌∷◌, All, ◌-◌, refl, ap, inl, inr, ◌∙◌, Bool-cases, ◌≡◌, Bool, true, false, not,
  ◌||◌, Option, if◌then◌else◌, arith,
}
use nav2_3d.Prelude.Double.{Doubles}
use nav2_3d.BehaviorTree.{
  NodeStatus, idle, running, success, failure, BtNode, returned, Ticked, get_input,
}
use nav2_3d.BehaviorTree.Decorators.{Counts, IsQuiet, is_running}

-- The members; `start` is in the clock's ticks.
pub record RateController (D : Type 0) : Type 0 where
  pub period : D
  pub start : ℕ
  pub first_time : Bool

-- What the node calls besides its child: the clock, the seconds between two of its times, the input
-- port "hz".
pub record Timing {ℓ} (D : Type 0) (W : Type ℓ) : Type ℓ where
  pub now : W → ℕ × W
  pub seconds : ℕ → ℕ → D
  pub hz : W → Option D

module _ {ℓ} {W : Type ℓ} {D : Type 0} (bt : BtNode W) (doubles : Doubles D)
    (timing : Timing D W) where
  open bt use {execute_tick, child_status, status, set_status, is_status_active}
  open timing use {now, seconds, hz}

  initialize : RateController D → W → RateController D
  initialize s w = record s { period = doubles.div doubles.one (get_input (hz w) doubles.one) }

  -- What an inactive node does first.
  pub begin : RateController D → W → RateController D × W
  unfolding initialize
  begin s w =
      if not (is_status_active (status w))
      then (let (t, w') = now w in (record (initialize s w) { start = t; first_time = true }, w'))
      else (s, w)

  after_child : NodeStatus → RateController D → W → Ticked (RateController D) W
  after_child success s w =
      let (t, w') = now w in
      record { outcome = returned success; node = record s { start = t }; world = w' }
  after_child idle s w = record { outcome = returned failure; node = s; world = w }
  after_child child_state s w = record { outcome = returned child_state; node = s; world = w }

  -- The test that lets the child be ticked, at time `t`.
  pub due : RateController D → ℕ → W → Bool
  due s t w =
      s.first_time || is_running (child_status 0 w) || doubles.le s.period (seconds s.start t)

  pub tick : RateController D → W → Ticked (RateController D) W
  unfolding begin after_child due
  tick s w =
      let (s1, w1) = begin s w in
      let (t, w2) = now (set_status running w1) in
      if due s1 t w2
      then (let (child_state, w3) = execute_tick 0 w2 in
          after_child child_state (record s1 { first_time = false }) w3)
      else record { outcome = returned (status w2); node = s1; world = w2 }

  -- Ticks in the worlds of a list, whatever changed in between: how often each ticks the child.
  pub counted : (W → ℕ) → List W → RateController D → List ℕ
  counted ticks [] s = []
  counted ticks (w ∷ ws) s = let r = tick s w in (ticks r.world - ticks w) ∷ counted ticks ws r.node

  abbrev is_success : NodeStatus → Bool
  is_success success = true
  is_success _ = false

  -- The ticks of a child that may run once in a period, where `last` is the time from which the period
  -- is counted: that after the last success of the child, or the start.
  unfoldable pub paced : D → ℕ → List W → List ℕ
  paced period last [] = []
  paced period last (w ∷ ws) =
      let (t, w2) = now (set_status running w) in
      let (child_state, w3) = execute_tick 0 w2 in
      let rest = paced period (if is_success child_state then (now w3).0 else last) ws in
      let rest' = paced period last ws in
      if is_running (child_status 0 w2) || doubles.le period (seconds last t)
      then 1 ∷ rest
      else 0 ∷ rest'

  module _ (ticks : W → ℕ) (counts : Counts bt ticks) (quiet : IsQuiet ticks now) where
    once : (w : W) → ticks (execute_tick 0 (now (set_status running w)).1).1 - ticks w ≡ 1
    once w = omega (
      arith,
      counts.tick_counts (now (set_status running w)).1,
      quiet (set_status running w),
      counts.set_status_quiet running w,
    )

    never : (w : W) → ticks (now (set_status running w)).1 - ticks w ≡ 0
    never w = omega (arith, quiet (set_status running w), counts.set_status_quiet running w)

    after_child-ticks :
        (o : NodeStatus) (s : RateController D) (w : W) → ticks (after_child o s w).world ≡ ticks w
    unfolding after_child
    after_child-ticks success s w = quiet w
    after_child-ticks idle s w = refl
    after_child-ticks running s w = refl
    after_child-ticks failure s w = refl
    after_child-ticks NodeStatus.skipped s w = refl

    after_child-node :
        (o : NodeStatus) (s : RateController D) (w : W)
        → (after_child o s w).node
          ≡ record s { start = if is_success o then (now w).0 else s.start }
    unfolding after_child
    after_child-node success s w = refl
    after_child-node idle s w = refl
    after_child-node running s w = refl
    after_child-node failure s w = refl
    after_child-node NodeStatus.skipped s w = refl

    ticked :
        (ws : List W)
        → ((s : RateController D)
            → s.first_time ≡ false
            → counted ticks ws s ≡ paced s.period s.start ws)
        → (o : NodeStatus) (s : RateController D) (w u : W) → s.first_time ≡ false
        → ticks w - ticks u ≡ 1
        → (ticks (after_child o s w).world - ticks u) ∷ counted ticks ws (after_child o s w).node
          ≡ 1 ∷ paced s.period (if is_success o then (now w).0 else s.start) ws
    ticked ws later o s w u again one =
        ap (λ n. n ∷ counted ticks ws (after_child o s w).node)
          (ap (λ n. n - ticks u) (after_child-ticks o s w) ∙ one)
        ∙ ap (λ l. 1 ∷ l) (ap (counted ticks ws) (after_child-node o s w) ∙ later _ again)

    counted-paced :
        (ws : List W) (s : RateController D)
        → s.first_time ≡ false
        → All (λ w. is_status_active (status w) ≡ true) ws
        → counted ticks ws s ≡ paced s.period s.start ws
    unfolding counted paced tick begin due
    counted-paced [] s later active = refl
    counted-paced (w ∷ ws) s later active =
        let w2 = (now (set_status running w)).1 in
        elim (Bool-cases (
          is_running (child_status 0 w2)
          || doubles.le s.period (seconds s.start (now (set_status running w)).0))) [
            | inl pass ↦
                rw (active.0, later, pass)
                  (ticked ws (λ s' again. counted-paced ws s' again active.1) _
                    (record s { first_time = false }) _ w refl (once w))
            | inr wait ↦
                rw (active.0, later, wait)
                  (ap (λ n. n ∷ counted ticks ws (record s { first_time = false })) (never w)
                    ∙ ap (λ l. 0 ∷ l)
                        (counted-paced ws (record s { first_time = false }) refl active.1))
          ]

    -- A run of ticks of a RateController, the first of which finds the node inactive and the
    -- others active, with any changes of the world between them, ticks the child at the first one,
    -- and at each later one, once, if the child is running or the period has passed since the last
    -- success of the child, or since the start of the run where it has not succeeded yet, and not
    -- at all otherwise. The clock and setStatus tick no child.
    pub tick-due :
        (w : W) (ws : List W) (s : RateController D)
        → is_status_active (status w) ≡ false
        → All (λ w'. is_status_active (status w') ≡ true) ws
        → let (start, w1) = now w in
          let w2 = (now (set_status running w1)).1 in
          let (child_state, w3) = execute_tick 0 w2 in
          let period = doubles.div doubles.one (get_input (hz w) doubles.one) in
          counted ticks (w ∷ ws) s
          ≡ 1 ∷ paced period (if is_success child_state then (now w3).0 else start) ws
    unfolding counted tick begin due initialize
    tick-due w ws s inactive active =
        let w2 = (now (set_status running (now w).1)).1 in
        let (child_state, w3) = execute_tick 0 w2 in
        let begun : RateController D = record {
          period = doubles.div doubles.one (get_input (hz w) doubles.one);
          start = (now w).0;
          first_time = false;
        } in
        rw inactive (
          ticked ws (λ s' again. counted-paced ws s' again active) child_state begun w3 w refl
            (omega (
              arith,
              once (now w).1,
              quiet w,
              counts.tick_counts w2,
              quiet (set_status running (now w).1),
              counts.set_status_quiet running (now w).1,
            )))
