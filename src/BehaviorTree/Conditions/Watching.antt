-- ===== src/BehaviorTree/Conditions/Watching.antt =====
-- The conditions of nav3d_behavior_tree/plugins/condition that watch a topic, a path or a code:
-- is_stuck_condition.cpp, is_battery_low_condition.cpp, is_battery_charging_condition.cpp,
-- path_expiring_timer_condition.cpp, is_path_valid_condition.cpp, initial_pose_received_condition.cpp
-- and AreErrorCodesPresent (are_error_codes_present_condition.hpp).
use nav2_3d.Prelude.{
  ℕ, suc, leb, Bool, false, ◌&&◌, Eq, contains, if◌then◌else◌, Option, none, some, List, [], ◌∷◌,
  ◌++◌, length,
}
use nav2_3d.Prelude.Double.{Doubles}
use nav2_3d.BehaviorTree.{NodeStatus, success, failure, get_input}
use nav2_3d.BehaviorTree.Conditions.Distances.{verdict}

-- IsStuckCondition: a message is its time in seconds and its forward velocity.
pub record IsStuck (D : Type 0) : Type 0 where
  pub stuck : Bool
  pub odom_history_size : ℕ
  pub odom_history : List (D × D)  -- the front first
  pub current_accel : D
  pub brake_accel_limit : D

-- Entries are taken from the front until fewer than the size are left.
unfoldable pub make_room {ℓ} : {A : Type ℓ} → ℕ → List A → List A
make_room size [] = []
make_room size (x ∷ xs) =
    let rest = make_room size xs in if leb size (suc (length xs)) then rest else x ∷ xs

-- The last two entries, where there are more than two.
unfoldable pub last_two {ℓ} : {A : Type ℓ} → List A → Option (A × A)
last_two [] = none
last_two (x ∷ []) = none
last_two (x ∷ y ∷ []) = none
last_two (x ∷ y ∷ z ∷ []) = some (y, z)
last_two (x ∷ y ∷ z ∷ u ∷ xs) = last_two (y ∷ z ∷ u ∷ xs)

module _ {D : Type 0} (doubles : Doubles D) where
  open doubles use {sub, div, lt, le}

  unfoldable pub accelerate : Option ((D × D) × (D × D)) → D → D
  accelerate none current = current
  accelerate (some (prev, curr)) current = div (sub curr.1 prev.1) (sub curr.0 prev.0)

  unfoldable pub update_states : IsStuck D → IsStuck D
  unfolding accelerate last_two
  update_states s =
      let accel = accelerate (last_two s.odom_history) s.current_accel in
      record s { current_accel = accel; stuck = lt accel s.brake_accel_limit }

  unfoldable pub on_odom_received : D × D → IsStuck D → IsStuck D
  unfolding make_room update_states
  on_odom_received msg s =
      update_states
        (record s { odom_history = make_room s.odom_history_size s.odom_history ++ msg ∷ [] })

  unfoldable pub is_stuck_tick : IsStuck D → NodeStatus
  is_stuck_tick s = verdict s.stuck

  -- IsBatteryLowCondition::batteryCallback.
  unfoldable pub is_battery_low : Bool → D → D → D → Bool
  is_battery_low is_voltage min_battery voltage percentage =
      le (if is_voltage then voltage else percentage) min_battery

-- The messages that a spin hands over, each of which sets the member anew.
unfoldable pub last_of {ℓ} : {M : Type ℓ} → (M → Bool) → List M → Bool → Bool
last_of test [] kept = kept
last_of test (m ∷ ms) kept = last_of test ms (test m)

-- `tick` of both battery conditions, with the messages of the spin.
unfoldable pub battery_tick {ℓ} : {M : Type ℓ} → (M → Bool) → List M → Bool → NodeStatus × Bool
battery_tick test messages kept =
    let latest = last_of test messages kept in (verdict latest, latest)

unfoldable pub is_charging : ℕ → ℕ → Bool
is_charging charging power_supply_status =
    leb power_supply_status charging && leb charging power_supply_status

-- PathExpiringTimerCondition.
pub record PathExpiring (P D : Type 0) : Type 0 where
  pub period : D
  pub prev_path : P
  pub start : ℕ
  pub first_time : Bool

pub record PathClock {ℓ} (P D : Type 0) (W : Type ℓ) : Type ℓ where
  pub doubles : Doubles D
  pub no_path : P
  pub seconds_port : W → Option D
  pub path_port : W → Option P
  pub now : W → ℕ × W
  pub seconds : ℕ → ℕ → D

module _ {ℓ} {P D : Type 0} {W : Type ℓ} ⦃e : Eq P⦄ (clock : PathClock P D W) where
  open clock use {doubles, path_port, seconds_port, now, seconds}

  -- A path that differs starts the period anew.
  unfoldable pub follow_path : P → PathExpiring P D → W → PathExpiring P D × W
  follow_path path s w =
      if e.beq s.prev_path path
      then (s, w)
      else (let (t, w') = now w in (record s { prev_path = path; start = t }, w'))

  unfoldable pub path_expiring_tick : PathExpiring P D → W → NodeStatus × PathExpiring P D × W
  unfolding follow_path
  path_expiring_tick s w =
      if s.first_time
      then (let (t, w') = now w in
          (
            failure,
            record {
              period = get_input (seconds_port w) s.period;
              prev_path = get_input (path_port w) s.prev_path;
              start = t;
              first_time = false;
            },
            w',
          ))
      else (let (s1, w1) = follow_path (get_input (path_port w) clock.no_path) s w in
          let (t, w2) = now w1 in
          if doubles.lt (seconds s1.start t) s1.period
          then (failure, s1, w2)
          else (let (t', w3) = now w2 in (success, record s1 { start = t' }, w3)))

-- IsPathValidCondition: the port, and the answer of the service if it comes in time.
unfoldable pub is_path_valid_tick {ℓ} :
    {P : Type 0} {W : Type ℓ} → (W → Option P) → (P → W → Option Bool × W) → W → NodeStatus × W
is_path_valid_tick path_port ask w = elim (path_port w) [
  | none ↦ (failure, w)
  | some path ↦
      let (answer, w') = ask path w in
      (elim answer [ none ↦ failure | some valid ↦ verdict valid ], w')
]

unfoldable pub initial_pose_received_tick : Option Bool → NodeStatus
initial_pose_received_tick port = verdict (get_input port false)

-- AreErrorCodesPresent: the status, and the code that is kept.
unfoldable pub are_error_codes_present_tick : ⦃e : Eq ℕ⦄ → List ℕ → Option ℕ → ℕ → NodeStatus × ℕ
are_error_codes_present_tick codes_to_check port kept =
    let code = get_input port kept in (verdict (contains codes_to_check code), code)
