-- ===== src/BehaviorTree/Decorators/SpeedController.antt =====
-- nav3d_behavior_tree/plugins/decorator/speed_controller.cpp, and the functions in line of its header
-- nav3d_behavior_tree/include/nav3d_behavior_tree/plugins/decorator/speed_controller.hpp.
use nav2_3d.Prelude.{ℕ, ◌+◌, ◌≡◌, Bool, true, false, not, ◌||◌, Eq, if◌then◌else◌, arith}
use nav2_3d.Prelude.Double.{Doubles, min_of, max_of}
use nav2_3d.BehaviorTree.{running, BtNode, returned, Ticked, get_input}
use nav2_3d.BehaviorTree.Decorators.{Counts, IsQuiet, is_running}
use nav2_3d.BehaviorTree.Decorators.GoalUpdatedController.{Goals, current_goal, current_goals}

-- The members.
pub record SpeedController (D G L : Type 0) : Type 0 where
  pub first_tick : Bool
  pub start : ℕ
  pub period : D
  pub min_rate : D
  pub max_rate : D
  pub d_rate : D
  pub min_speed : D
  pub d_speed : D
  pub goal : G
  pub goals : L

-- What the node calls besides its child: the ROS clock, the seconds between two of its times, and the
-- smoothed velocity, linear.x and linear.y.
pub record Motion {ℓ} (D : Type 0) (W : Type ℓ) : Type ℓ where
  pub now : W → ℕ × W
  pub seconds : ℕ → ℕ → D
  pub get_twist : W → D × D

module _ {D G L : Type 0} (doubles : Doubles D) where
  open doubles use {add, sub, mul, div, one, lt, hypot}

  pub get_scaled_rate : SpeedController D G L → D → D
  get_scaled_rate s speed =
      max_of doubles
        (min_of doubles (add (mul (div (sub speed s.min_speed) s.d_speed) s.d_rate) s.min_rate)
          s.max_rate)
        s.min_rate

  -- If no number is below itself and the largest rate is not below the smallest, the scaled rate
  -- for any speed is neither below the smallest nor above the largest.
  pub get_scaled_rate-bounded :
      (s : SpeedController D G L) (speed : D)
      → ((a : D) → lt a a ≡ false)
      → lt s.max_rate s.min_rate ≡ false
      → (lt (get_scaled_rate s speed) s.min_rate ≡ false)
        × (lt s.max_rate (get_scaled_rate s speed) ≡ false)
  unfolding get_scaled_rate
  get_scaled_rate-bounded s speed irreflexive ordered =
      ground (arith, irreflexive s.min_rate, irreflexive s.max_rate)

module _ {ℓ} {D G L : Type 0} {W : Type ℓ} ⦃eg : Eq G⦄ ⦃el : Eq L⦄ (bt : BtNode W)
    (doubles : Doubles D) (motion : Motion D W) (goals : Goals G L W) where
  open bt use {execute_tick, child_status, status, set_status, is_status_active}
  open doubles use {div, one, le, hypot}
  open motion use {now, seconds, get_twist}

  update_period : SpeedController D G L → W → SpeedController D G L
  unfolding get_scaled_rate
  update_period s w =
      let (x, y) = get_twist w in
      record s { period = div one (get_scaled_rate doubles s (hypot x y)) }

  -- The start of a new goal, or of an inactive node.
  restart : SpeedController D G L → W → SpeedController D G L × W
  restart s w =
      let (t, w') = now w in
      (record s { period = div one s.max_rate; start = t; first_tick = true }, w')

  begin : SpeedController D G L → W → SpeedController D G L × W
  unfolding restart
  begin s w =
      if not (is_status_active (status w))
      then restart
          (record s {
            goal = get_input (goals.goal_port w) s.goal;
            goals = get_input (goals.goals_port w) s.goals;
          })
          w
      else (s, w)

  compare_goals : SpeedController D G L → W → SpeedController D G L × W
  unfolding restart
  compare_goals s w =
      if not (eg.beq s.goal (current_goal goals w)) || not (el.beq s.goals (current_goals goals w))
      then (let (s', w') = restart s w in
          (record s' { goal = current_goal goals w; goals = current_goals goals w }, w'))
      else (s, w)

  -- The period is chosen anew where it has passed.
  renew : SpeedController D G L → ℕ → W → SpeedController D G L × W
  unfolding update_period
  renew s t w =
      if le s.period (seconds s.start t)
      then (let (t', w') = now w in (record (update_period s w) { start = t' }, w'))
      else (s, w)

  pub tick : SpeedController D G L → W → Ticked (SpeedController D G L) W
  unfolding begin compare_goals renew
  tick s w =
      let (s1, w1) = begin s w in
      let (s2, w2) = compare_goals s1 w1 in
      let (t, w3) = now (set_status running w2) in
      if s2.first_tick || is_running (child_status 0 w3) || le s2.period (seconds s2.start t)
      then (let (s4, w4) = renew (record s2 { first_tick = false }) t w3 in
          let (child_state, w5) = execute_tick 0 w4 in
          record { outcome = returned child_state; node = s4; world = w5 })
      else record { outcome = returned (status w3); node = s2; world = w3 }

  module _ (ticks : W → ℕ) (quiet : IsQuiet ticks now) where
    begin-quiet : (s : SpeedController D G L) (w : W) → ticks (begin s w).1 ≡ ticks w
    unfolding begin restart
    begin-quiet s w = ground (arith, quiet w)

    compare_goals-quiet :
        (s : SpeedController D G L) (w : W) → ticks (compare_goals s w).1 ≡ ticks w
    unfolding compare_goals restart
    compare_goals-quiet s w = ground (arith, quiet w)

    renew-quiet : (s : SpeedController D G L) (t : ℕ) (w : W) → ticks (renew s t w).1 ≡ ticks w
    unfolding renew
    renew-quiet s t w = ground (arith, quiet w)

  compare_goals-first_tick :
      (s : SpeedController D G L) (w : W)
      → s.first_tick ≡ true
      → (compare_goals s w).0.first_tick ≡ true
  unfolding compare_goals restart
  compare_goals-first_tick s w h = ground arith

  begin-first_tick :
      (s : SpeedController D G L) (w : W)
      → is_status_active (status w) ≡ false
      → (begin s w).0.first_tick ≡ true
  unfolding begin restart
  begin-first_tick s w h = ground arith

  compare_goals-same :
      (s : SpeedController D G L) (w : W)
      → s.goal ≡ current_goal goals w
      → s.goals ≡ current_goals goals w
      → compare_goals s w ≡ (s, w)
  unfolding compare_goals
  compare_goals-same s w g l =
      ground (
        arith,
        eg.beq_iff s.goal (current_goal goals w),
        el.beq_iff s.goals (current_goals goals w),
      )

  begin-active :
      (s : SpeedController D G L) (w : W) → is_status_active (status w) ≡ true → begin s w ≡ (s, w)
  unfolding begin
  begin-active s w on = ground arith

  -- An active SpeedController whose goals are those it saw last, and which has ticked its child
  -- before, ticks it, and once, if and only if the child is running or the period has passed; an
  -- inactive node ticks it once. Neither setStatus nor the clock ticks the child.
  pub tick-paced :
      (ticks : W → ℕ)
      → Counts bt ticks
      → IsQuiet ticks now
      → (s : SpeedController D G L) (w : W)
      → (is_status_active (status w) ≡ false → ticks (tick s w).world ≡ ticks w + 1)
        × (is_status_active (status w) ≡ true
            → s.goal ≡ current_goal goals w
            → s.goals ≡ current_goals goals w
            → s.first_tick ≡ false
            → let r = now (set_status running w) in
              ticks (tick s w).world ≡ (
                if is_running (child_status 0 r.1) || le s.period (seconds s.start r.0)
                then ticks w + 1
                else ticks w))
  unfolding tick
  tick-paced ticks counts quiet s w =
      let (s1, w1) = begin s w in
      let (s2, w2) = compare_goals s1 w1 in
      let (t, w3) = now (set_status running w2) in
      let (s4, w4) = renew (record s2 { first_tick = false }) t w3 in
      (
        λ off. ground (
          arith,
          begin-quiet ticks quiet s w,
          compare_goals-quiet ticks quiet s1 w1,
          compare_goals-first_tick s1 w1 (begin-first_tick s w off),
          counts.set_status_quiet running w2,
          quiet (set_status running w2),
          renew-quiet ticks quiet (record s2 { first_tick = false }) t w3,
          counts.tick_counts w4,
        ),
        λ on g l old.
            let now_at = now (set_status running w) in
            rw (begin-active s w on, tick)
              (rw (compare_goals-same s w g l, tick)
                (ground (
                  arith,
                  old,
                  counts.set_status_quiet running w,
                  quiet (set_status running w),
                  renew-quiet ticks quiet (record s { first_tick = false }) now_at.0 now_at.1,
                  counts.tick_counts (renew (record s { first_tick = false }) now_at.0 now_at.1).1,
                ))),
      )
