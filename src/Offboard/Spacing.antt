-- ===== src/Offboard/Spacing.antt =====
-- The times of the commands of OffboardControl (nav3d_px4_bridge/src/offboard_control.cpp).
use nav2_3d.Prelude.{
  ℕ, ◌≡◌, refl, subst, ◌⊎◌, inl, inr, Bool, true, false, Option, none, some, List, [], ◌∷◌, ◌++◌,
  if◌then◌else◌, arith,
}
use nav2_3d.Prelude.Double.{max_of}
use nav2_3d.Controller.{Pose}
use nav2_3d.Offboard.{
  Quaternion, Numerics, Settings, TrajectorySetpoint, Offboard, odom_callback, update_offset,
  vehicle_local_position_callback, vehicle_status_callback, waypoint_callback,
}
use nav2_3d.Offboard.Timer.{
  Message, heartbeat, setpoint, command, Published, begin_takeoff, publish_takeoff_setpoint,
  is_takeoff_complete, publish_hover_setpoint, hold, has_fresh_waypoint, publish_setpoint,
  command_due, send_commands, after_setpoint, after_heartbeat, timer_callback,
}
use nav2_3d.Offboard.History.{Event, odom, local_position, status, waypoint, timer, handle}

abbrev pub has_command : {D : Type 0} → List (Message D) → Bool
has_command [] = false
has_command (heartbeat ∷ log) = has_command log
has_command (setpoint w ∷ log) = has_command log
has_command (command c ∷ log) = true

-- The time of the last commands, if there were any.
abbrev pub last_sent : {D : Type 0} → Offboard D → Option ℕ
last_sent s = if s.offboard_command_sent then some s.last_offboard_command_time else none

module _ {D : Type 0} (numerics : Numerics D) (settings : Settings D) where
  open numerics use {doubles, seconds, tenth}

  -- The retry period lies between the two times.
  abbrev pub Apart : Option ℕ → ℕ → Type 0
  Apart none t = Unit
  Apart (some last) t =
      doubles.le (max_of doubles tenth settings.offboard_command_retry_s) (seconds last t) ≡ true

  abbrev pub Spaced : Option ℕ → List ℕ → Type 0
  Spaced last [] = Unit
  Spaced last (t ∷ ts) = Apart last t × Spaced (some t) ts

  -- The times at which a callback of the timer sent commands.
  unfoldable pub noted : Event D → Option (Published D) → (Offboard D → List ℕ) → List ℕ
  noted e none rest = []
  noted (timer now later) (some (log, s)) rest = if has_command log then now ∷ rest s else rest s
  noted (odom msg) (some (log, s)) rest = rest s
  noted (local_position msg) (some (log, s)) rest = rest s
  noted (status a b) (some (log, s)) rest = rest s
  noted (waypoint msg now) (some (log, s)) rest = rest s

  unfoldable pub command_times : List (Event D) → Offboard D → List ℕ
  command_times [] s = []
  command_times (e ∷ es) s = noted e (handle numerics settings e s) (command_times es)

  -- Nothing was sent.
  abbrev Unsent : Offboard D → Option (Published D) → Type 0
  Unsent s none = Unit
  Unsent s (some (log, s')) = (has_command log ≡ false) × (last_sent s' ≡ last_sent s)

  -- If commands were sent, then at a time that is far enough from the last ones.
  abbrev Since : ℕ → Option ℕ → Published D → Type 0
  Since now last (log, s') =
      ((has_command log ≡ false) × (last_sent s' ≡ last))
      ⊎ ((has_command log ≡ true) × Apart last now × (last_sent s' ≡ some now))

  abbrev Timed : ℕ → Offboard D → Option (Published D) → Type 0
  Timed now s none = Unit
  Timed now s (some p) = Since now (last_sent s) p

  has_command-append :
      (xs ys : List (Message D)) → has_command xs ≡ false → has_command (xs ++ ys) ≡ has_command ys
  has_command-append [] ys quiet = refl
  has_command-append (heartbeat ∷ xs) ys quiet = has_command-append xs ys quiet
  has_command-append (setpoint w ∷ xs) ys quiet = has_command-append xs ys quiet
  has_command-append (command c ∷ xs) ys quiet = cc

  before-Timed :
      (now : ℕ) (s : Offboard D) (first : List (Message D)) (p : Published D)
      → has_command first ≡ false
      → Since now (last_sent s) p
      → Since now (last_sent s) (heartbeat ∷ (first ++ p.0), p.1)
  before-Timed now s first (last, s') quiet since = rw (has_command-append first last quiet) since

  takeoff-Unsent : (s : Offboard D) → Unsent s (publish_takeoff_setpoint numerics settings s)
  unfolding publish_takeoff_setpoint begin_takeoff
  takeoff-Unsent s = ground arith

  hold-Unsent :
      (s : Offboard D) → Unsent s (hold numerics settings (is_takeoff_complete numerics settings s))
  unfolding hold is_takeoff_complete publish_hover_setpoint
  hold-Unsent s = ground (arith, takeoff-Unsent s)

  setpoint-Unsent :
      (fresh : Option (TrajectorySetpoint D)) (s : Offboard D)
      → Unsent s (publish_setpoint numerics settings fresh s)
  unfolding publish_setpoint
  setpoint-Unsent (some w) s = (refl, refl)
  setpoint-Unsent none s = hold-Unsent s

  sent-Timed :
      (now : ℕ) (s : Offboard D) → Since now (last_sent s) (send_commands numerics settings now s)
  unfolding send_commands command_due
  sent-Timed now s = ground arith

  after-Timed :
      (now : ℕ) (s : Offboard D) (r : Option (Published D))
      → Unsent s r
      → Timed now s (after_setpoint numerics settings now r)
  unfolding after_setpoint
  after-Timed now s none quiet = tt
  after-Timed now s (some (first, s1)) quiet =
      before-Timed now s first (send_commands numerics settings now s1) quiet.0 (
        subst (λ l. Since now l (send_commands numerics settings now s1)) quiet.1
          (sent-Timed now s1))

  heartbeat-Timed :
      (o : Option (Pose D (Quaternion D))) (now later : ℕ) (s : Offboard D)
      → Timed now s (after_heartbeat numerics settings o now later s)
  unfolding after_heartbeat
  heartbeat-Timed none now later s = inl (refl, refl)
  heartbeat-Timed (some pose) now later s =
      after-Timed now s _ (setpoint-Unsent (has_fresh_waypoint numerics settings later s) s)

  odom-last :
      (msg : Pose D (Quaternion D)) (s : Offboard D)
      → last_sent (odom_callback numerics settings msg s) ≡ last_sent s
  unfolding odom_callback update_offset
  odom-last msg s = ground arith

  noted-Spaced :
      (now later : ℕ) (s : Offboard D) (r : Option (Published D)) (rest : Offboard D → List ℕ)
      → ((s' : Offboard D) → Spaced (last_sent s') (rest s'))
      → Timed now s r
      → Spaced (last_sent s) (noted (timer now later) r rest)
  unfolding noted
  noted-Spaced now later s none rest spaced timed = tt
  noted-Spaced now later s (some (log, s')) rest spaced (inl (quiet, same)) =
      rw quiet (subst (λ l. Spaced l (rest s')) same (spaced s'))
  noted-Spaced now later s (some (log, s')) rest spaced (inr (sent, apart, last)) =
      rw sent (apart, subst (λ l. Spaced l (rest s')) last (spaced s'))

  -- In every sequence of messages and calls of the timer, the commands are sent at times each of
  -- which is at least the retry period, which is not below a tenth of a second, after the one
  -- before, and the first after the last commands sent before, if there were any.
  pub command_times-Spaced :
      (es : List (Event D)) (s : Offboard D) → Spaced (last_sent s) (command_times es s)
  unfolding command_times handle noted vehicle_local_position_callback vehicle_status_callback
      waypoint_callback timer_callback
  command_times-Spaced [] s = tt
  command_times-Spaced (odom msg ∷ es) s =
      subst (λ l. Spaced l (command_times es (odom_callback numerics settings msg s)))
        (odom-last msg s) (command_times-Spaced es _)
  command_times-Spaced (local_position msg ∷ es) s = command_times-Spaced es _
  command_times-Spaced (status a b ∷ es) s = command_times-Spaced es _
  command_times-Spaced (waypoint msg now ∷ es) s = command_times-Spaced es _
  command_times-Spaced (timer now later ∷ es) s =
      noted-Spaced now later s _ (command_times es) (command_times-Spaced es)
        (heartbeat-Timed s.current_odom now later s)
