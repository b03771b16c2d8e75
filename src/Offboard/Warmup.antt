-- ===== src/Offboard/Warmup.antt =====
-- The warm-up of OffboardControl (nav3d_px4_bridge/src/offboard_control.cpp): setpoints before commands.
use nav2_3d.Prelude.{
  ℕ, suc, ◌+◌, ◌≤◌, ◌≡◌, is_some, refl, sym, subst, inl, inr, true, ltb, Bool-cases, Option, none,
  some, List, [], ◌∷◌, ◌++◌, arith,
}
use nav2_3d.Controller.{Pose}
use nav2_3d.Offboard.{
  Quaternion, Numerics, Settings, TrajectorySetpoint, Offboard, odom_callback, update_offset,
  vehicle_local_position_callback, vehicle_status_callback, waypoint_callback,
}
use nav2_3d.Offboard.Timer.{
  Message, heartbeat, setpoint, command, Published, begin_takeoff, publish_takeoff_setpoint,
  is_takeoff_complete, publish_hover_setpoint, hold, has_fresh_waypoint, publish_setpoint,
  required_setpoints, command_due, send_commands, after_setpoint, after_heartbeat, timer_callback,
}
use nav2_3d.Offboard.History.{
  Event, odom, local_position, status, waypoint, timer, published_before, continue_with, handle,
  run,
}

-- Every command comes after at least `r` setpoints, `n` of which came before the log.
abbrev pub Warmed : {D : Type 0} → ℕ → ℕ → List (Message D) → Type 0
Warmed r n [] = Unit
Warmed r n (heartbeat ∷ log) = Warmed r n log
Warmed r n (setpoint w ∷ log) = Warmed r (suc n) log
Warmed r n (command c ∷ log) = (r ≤ n) × Warmed r n log

abbrev pub setpoints : {D : Type 0} → List (Message D) → ℕ
setpoints [] = 0
setpoints (heartbeat ∷ log) = setpoints log
setpoints (setpoint w ∷ log) = suc (setpoints log)
setpoints (command c ∷ log) = setpoints log

-- The node, with `n` setpoints published, at least as many as it counted; it can hold a position
-- once a takeoff is begun.
pub record Ready {D : Type 0} (s : Offboard D) (n : ℕ) : Type 0 where
  pub counted : s.offboard_setpoint_counter ≤ n
  pub started : is_some s.takeoff_start_enu ≡ is_some s.takeoff_target_altitude
  pub held : is_some s.takeoff_target_altitude ≡ true → is_some s.last_valid_setpoint_enu ≡ true

-- A callback returns, and what it publishes is warmed.
abbrev pub RunsWarm : {D : Type 0} → ℕ → ℕ → Option (Published D) → Type 0
RunsWarm r n none = ⊥
RunsWarm r n (some (log, s)) = Warmed r n log × Ready s (n + setpoints log)

abbrev IsSetpoint : {D : Type 0} → List (Message D) → Type 0
IsSetpoint (setpoint w ∷ []) = Unit
IsSetpoint _ = ⊥

abbrev OneSetpoint : {D : Type 0} → ℕ → Option (Published D) → Type 0
OneSetpoint n none = ⊥
OneSetpoint n (some (log, s)) = IsSetpoint log × Ready s n

Warmed-append :
    {D : Type 0} (r n : ℕ) (xs ys : List (Message D))
    → Warmed r n xs
    → Warmed r (n + setpoints xs) ys
    → Warmed r n (xs ++ ys)
Warmed-append {D} r n [] ys hx hy = subst (λ m. Warmed r m ys) (omega arith) hy
Warmed-append r n (heartbeat ∷ xs) ys hx hy = Warmed-append r n xs ys hx hy
Warmed-append r n (setpoint w ∷ xs) ys hx hy =
    Warmed-append r (suc n) xs ys hx (subst (λ m. Warmed r m ys) (omega arith) hy)
Warmed-append r n (command c ∷ xs) ys hx hy = (hx.0, Warmed-append r n xs ys hx.1 hy)

setpoints-append :
    {D : Type 0} (n : ℕ) (xs ys : List (Message D))
    → n + setpoints xs + setpoints ys ≡ n + setpoints (xs ++ ys)
setpoints-append n [] ys = omega arith
setpoints-append n (heartbeat ∷ xs) ys = setpoints-append n xs ys
setpoints-append n (setpoint w ∷ xs) ys = omega (arith, setpoints-append n xs ys)
setpoints-append n (command c ∷ xs) ys = setpoints-append n xs ys

module _ {D : Type 0} (numerics : Numerics D) (settings : Settings D) where
  takeoff-OneSetpoint :
      (s : Offboard D) (n : ℕ)
      → is_some s.current_odom ≡ true
      → Ready s n
      → OneSetpoint n (publish_takeoff_setpoint numerics settings s)
  unfolding publish_takeoff_setpoint begin_takeoff
  takeoff-OneSetpoint s n located ready = ground arith

  hold-OneSetpoint :
      (s : Offboard D) (n : ℕ)
      → is_some s.current_odom ≡ true
      → Ready s n
      → OneSetpoint n (hold numerics settings (is_takeoff_complete numerics settings s))
  unfolding hold is_takeoff_complete publish_hover_setpoint
  hold-OneSetpoint s n located ready = ground (arith, takeoff-OneSetpoint s n located ready)

  setpoint-OneSetpoint :
      (fresh : Option (TrajectorySetpoint D)) (s : Offboard D) (n : ℕ)
      → is_some s.current_odom ≡ true
      → Ready s n
      → OneSetpoint n (publish_setpoint numerics settings fresh s)
  unfolding publish_setpoint
  setpoint-OneSetpoint (some w) s n located ready = (tt, ready)
  setpoint-OneSetpoint none s n located ready = hold-OneSetpoint s n located ready

  abbrev required : ℕ
  required = required_setpoints numerics settings

  -- After the setpoint of a callback, with those before it.
  sent-Warm :
      (now : ℕ) (s : Offboard D) (n : ℕ)
      → Ready s n
      → Warmed required (suc n) (send_commands numerics settings now s).0
        × Ready
            (send_commands numerics settings now s).1
            (suc n + setpoints (send_commands numerics settings now s).0)
  unfolding send_commands
  sent-Warm now s n ready = elim (Bool-cases (ltb s.offboard_setpoint_counter required)) [
    | inl early ↦ rw early (
      tt,
      record { counted = omega (arith, ready.counted); started = ready.started; held = ready.held },
    )
    | inr warm ↦ elim (Bool-cases (command_due numerics settings now s)) [
      | inl due ↦
          let enough : required ≤ suc n = ground (arith, ready.counted) in
          rw (warm, due)
            (
              (enough, (enough, tt)),
              record {
                counted = omega (arith, ready.counted);
                started = ready.started;
                held = ready.held;
              },
            )
      | inr not_due ↦
          rw (warm, not_due)
            (
              tt,
              record {
                counted = omega (arith, ready.counted);
                started = ready.started;
                held = ready.held;
              },
            )
    ]
  ]

  after-RunsWarm :
      (now : ℕ) (n : ℕ) (r : Option (Published D))
      → OneSetpoint n r
      → RunsWarm required n (after_setpoint numerics settings now r)
  unfolding after_setpoint
  after-RunsWarm now n none one = elim one [ ]
  after-RunsWarm now n (some ([], s)) one = elim one.0 [ ]
  after-RunsWarm now n (some (heartbeat ∷ _, s)) one = elim one.0 [ ]
  after-RunsWarm now n (some (command _ ∷ _, s)) one = elim one.0 [ ]
  after-RunsWarm now n (some (setpoint w ∷ (_ ∷ _), s)) one = elim one.0 [ ]
  after-RunsWarm now n (some (setpoint w ∷ [], s)) one =
      let sent = sent-Warm now s n one.1 in (sent.0, subst (Ready _) (omega arith) sent.1)

  heartbeat-RunsWarm :
      (o : Option (Pose D (Quaternion D))) (now later : ℕ) (s : Offboard D) (n : ℕ)
      → is_some o ≡ is_some s.current_odom
      → Ready s n
      → RunsWarm required n (after_heartbeat numerics settings o now later s)
  unfolding after_heartbeat
  heartbeat-RunsWarm none now later s n same ready =
      (tt, subst (λ m. Ready s m) (omega arith) ready)
  heartbeat-RunsWarm (some pose) now later s n same ready =
      after-RunsWarm now n _
        (setpoint-OneSetpoint (has_fresh_waypoint numerics settings later s) s n (sym same) ready)

  quiet-RunsWarm : (s : Offboard D) (n : ℕ) → Ready s n → RunsWarm required n (some ([], s))
  quiet-RunsWarm s n ready = (tt, subst (Ready s) (omega arith) ready)

  handle-RunsWarm :
      (e : Event D) (s : Offboard D) (n : ℕ)
      → Ready s n
      → RunsWarm required n (handle numerics settings e s)
  unfolding handle timer_callback odom_callback update_offset vehicle_local_position_callback
      vehicle_status_callback waypoint_callback
  handle-RunsWarm (odom msg) s n ready = quiet-RunsWarm _ n (ground arith)
  handle-RunsWarm (local_position msg) s n ready = quiet-RunsWarm _ n (ground arith)
  handle-RunsWarm (status a b) s n ready = quiet-RunsWarm _ n (ground arith)
  handle-RunsWarm (waypoint msg now) s n ready = quiet-RunsWarm _ n (ground arith)
  handle-RunsWarm (timer now later) s n ready =
      heartbeat-RunsWarm s.current_odom now later s n refl ready

  before-RunsWarm :
      (n : ℕ) (first : List (Message D)) (r : Option (Published D))
      → Warmed required n first
      → RunsWarm required (n + setpoints first) r
      → RunsWarm required n (published_before first r)
  unfolding published_before
  before-RunsWarm n first none warm never = never
  before-RunsWarm n first (some (last, s)) warm later = (
    Warmed-append required n first last warm later.0,
    subst (λ m. Ready s m) (setpoints-append n first last) later.1,
  )

  continue-RunsWarm :
      (n : ℕ) (r : Option (Published D)) (rest : Offboard D → Option (Published D))
      → ((s : Offboard D) (m : ℕ) → Ready s m → RunsWarm required m (rest s))
      → RunsWarm required n r
      → RunsWarm required n (continue_with r rest)
  unfolding continue_with
  continue-RunsWarm n none rest runs never = never
  continue-RunsWarm n (some (log, s)) rest runs first =
      before-RunsWarm n log (rest s) first.0 (runs s (n + setpoints log) first.1)

  -- From a state that counts no more setpoints than were published, that knows the start and the
  -- altitude of a takeoff both or neither, and has a setpoint to hold if it knows them: in every
  -- sequence of odometry, position, status and waypoint messages and of calls of the timer, no
  -- callback throws, and every command to engage the offboard mode or to arm is published after at
  -- least as many setpoints as the warm-up requires, the ones published before included.
  pub run-Warm :
      (es : List (Event D)) (s : Offboard D) (n : ℕ)
      → Ready s n
      → RunsWarm required n (run numerics settings es s)
  unfolding run
  run-Warm [] s n ready = quiet-RunsWarm s n ready
  run-Warm (e ∷ es) s n ready = continue-RunsWarm n _ _ (run-Warm es) (handle-RunsWarm e s n ready)
