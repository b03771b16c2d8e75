-- ===== src/BehaviorTree/Conditions/TimeExpired.antt =====
-- nav3d_behavior_tree/plugins/condition/time_expired_condition.cpp.
use nav2_3d.Prelude.{ℕ, ◌≡◌, ◌↔◌, true, false, not, Option, if◌then◌else◌, arith}
use nav2_3d.Prelude.Double.{Doubles}
use nav2_3d.BehaviorTree.{NodeStatus, success, failure, BtNode, get_input}

-- The members; `start` is a time of the node's clock.
pub record TimeExpired (D : Type 0) : Type 0 where
  pub period : D
  pub start : ℕ

-- The input port "seconds", the node's clock, and the seconds between two of its times.
pub record Clock {ℓ} (D : Type 0) (W : Type ℓ) : Type ℓ where
  pub seconds_port : W → Option D
  pub now : W → ℕ × W
  pub seconds : ℕ → ℕ → D

module _ {ℓ} {D : Type 0} {W : Type ℓ} (bt : BtNode W) (doubles : Doubles D)
    (clock : Clock D W) where
  open clock use {seconds_port, now, seconds}

  initialize : TimeExpired D → W → TimeExpired D × W
  initialize s w =
      let (t, w') = now w in
      (record { period = get_input (seconds_port w) s.period; start = t }, w')

  pub tick : TimeExpired D → W → NodeStatus × TimeExpired D × W
  unfolding initialize
  tick s w =
      if not (bt.is_status_active (bt.status w))
      then (let (s1, w1) = initialize s w in
          let (t, w2) = now w1 in (failure, record s1 { start = t }, w2))
      else (let (t, w1) = now w in
          if doubles.lt (seconds s.start t) s.period
          then (failure, s, w1)
          else (let (t', w2) = now w1 in (success, record s { start = t' }, w2)))

  -- After an inactive tick of TimeExpiredCondition, or one that returned SUCCESS, the start is the
  -- second reading of the clock in it; the next tick, which finds the node active, returns SUCCESS
  -- if and only if the seconds from the start to its own first reading are not below the period.
  pub tick-spaced :
      (s : TimeExpired D) (w w' : W)
      → bt.is_status_active (bt.status w') ≡ true
      → let (first, s1, w1) = tick s w in
        ((first ≡ success → s1.period ≡ s.period)
          × (bt.is_status_active (bt.status w) ≡ false
              → (first ≡ failure)
                × (s1.start ≡ (now (now w).1).0)
                × (s1.period ≡ get_input (seconds_port w) s.period))
          × (first ≡ success → s1.start ≡ (now (now w).1).0)
          × (((tick s1 w').0 ≡ success)
              ↔ (doubles.lt (seconds s1.start (now w').0) s1.period ≡ false)))
  unfolding tick initialize
  tick-spaced s w w' on = ground arith
