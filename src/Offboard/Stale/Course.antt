-- ===== src/Offboard/Stale/Course.antt =====
-- A takeoff that is not marked complete, from a waypoint to the time at which it is stale
-- (nav3d_px4_bridge/src/offboard_control.cpp).
use nav2_3d.Prelude.{
  ℕ, ◌≡◌, is_some, refl, sym, ap, subst, true, false, Option, none, some, List, [], ◌∷◌, All, inl,
  inr, Option-cases, if_rule, ltb, arith,
}
use nav2_3d.Controller.{Pose}
use nav2_3d.Offboard.{
  Quaternion, Numerics, Settings, TrajectoryPoint, EnuSetpoint, TrajectorySetpoint, Offboard,
  waypoint_callback, odom_callback, update_offset, vehicle_local_position_callback,
  vehicle_status_callback,
}
use nav2_3d.Offboard.Timer.{
  send_commands, required_setpoints, command_due, Message, Published, is_at_altitude,
  has_fresh_waypoint, publish_setpoint, after_setpoint, after_heartbeat, timer_callback,
}
use nav2_3d.Offboard.History.{
  Event, odom, local_position, status, waypoint, timer, published_before, continue_with, handle,
  run,
}
use nav2_3d.Offboard.Stale.{Commands, at_start, stale-Sends, heartbeat-Commands}

module _ {D : Type 0} (numerics : Numerics D) (settings : Settings D) (start : EnuSetpoint D)
    (altitude : D) where
  open numerics use {doubles, seconds}

  module _ (t : ℕ) where
    -- A takeoff has begun and is not marked complete, and the last waypoint came at `t`.
    abbrev Climbing : Offboard D → Type 0
    Climbing s =
        (s.takeoff_start_enu ≡ some start)
        × (s.takeoff_target_altitude ≡ some altitude)
        × (s.takeoff_completed ≡ false)
        × (is_some s.current_waypoint_ned ≡ true)
        × (s.last_waypoint_time ≡ t)

    -- An event other than a waypoint, and if the timer's then while the waypoint is fresh.
    abbrev pub Fresh : Event D → Type 0
    Fresh (odom msg) = Unit
    Fresh (local_position msg) = Unit
    Fresh (status nav_state arming_state) = Unit
    Fresh (waypoint msg now) = ⊥
    Fresh (timer now later) = doubles.lt (seconds t later) settings.waypoint_timeout_s ≡ true

    -- Nothing was thrown, and the state has the property.
    abbrev pub Leaves : (Offboard D → Type 0) → Option (Published D) → Type 0
    Leaves P none = ⊥
    Leaves P (some (log, s)) = P s

    odom-Climbing :
        (msg : Pose D (Quaternion D)) (s : Offboard D)
        → Climbing s
        → Climbing (odom_callback numerics settings msg s)
    unfolding odom_callback update_offset
    odom-Climbing msg s c = elim (Option-cases s.current_local_pos) [
      | inl none_yet ↦ rw none_yet c
      | inr (p, there) ↦ rw there c
    ]

    send_commands-Climbing :
        (now : ℕ) (s : Offboard D) → Climbing s → Climbing (send_commands numerics settings now s).1
    unfolding send_commands
    send_commands-Climbing now s c =
        if_rule (λ (p : Published D). Climbing p.1)
          (ltb s.offboard_setpoint_counter (required_setpoints numerics settings)) (λ _. c)
          (λ _.
            if_rule (λ (p : Published D). Climbing p.1) (command_due numerics settings now s)
              (λ _. c) (λ _. c))

    waypoint_fresh :
        (s : Offboard D) (later : ℕ) (w : TrajectorySetpoint D)
        → s.current_waypoint_ned ≡ some w
        → s.last_waypoint_time ≡ t
        → doubles.lt (seconds t later) settings.waypoint_timeout_s ≡ true
        → has_fresh_waypoint numerics settings later s ≡ some w
    unfolding has_fresh_waypoint
    waypoint_fresh s later w there since fresh = rw (there, since, fresh) refl

    timer-Climbing :
        (o : Option (Pose D (Quaternion D))) (now later : ℕ) (s : Offboard D)
        → doubles.lt (seconds t later) settings.waypoint_timeout_s ≡ true
        → Climbing s
        → Leaves Climbing (after_heartbeat numerics settings o now later s)
    unfolding after_heartbeat after_setpoint publish_setpoint
    timer-Climbing none now later s fresh c = c
    timer-Climbing (some pose) now later s fresh c =
        let (begun, aimed, incomplete, waiting, since) = c in
        elim (Option-cases s.current_waypoint_ned) [
          | inl missing ↦ absurd (ground (arith, waiting))
          | inr (w, there) ↦
              subst
                (λ v.
                  Leaves Climbing
                    (after_setpoint numerics settings now (publish_setpoint numerics settings v s)))
                (sym (waypoint_fresh s later w there since fresh)) (send_commands-Climbing now s c)
        ]

    handle-Climbing :
        (e : Event D) (s : Offboard D)
        → Fresh e
        → Climbing s
        → Leaves Climbing (handle numerics settings e s)
    unfolding handle vehicle_local_position_callback vehicle_status_callback timer_callback
    handle-Climbing (odom msg) s fresh c = odom-Climbing msg s c
    handle-Climbing (local_position msg) s fresh c = c
    handle-Climbing (status nav_state arming_state) s fresh c = c
    handle-Climbing (waypoint msg now) s never c = absurd never
    handle-Climbing (timer now later) s fresh c = timer-Climbing s.current_odom now later s fresh c

    Leaves-imply :
        (P Q : Offboard D → Type 0) (r : Option (Published D))
        → Leaves P r
        → ((s : Offboard D) → P s → Q s)
        → Leaves Q r
    Leaves-imply P Q none never imply = absurd never
    Leaves-imply P Q (some (log, s)) p imply = imply s p

    Leaves-before :
        (P : Offboard D → Type 0) (first : List (Message D)) (r : Option (Published D))
        → Leaves P r
        → Leaves P (published_before first r)
    unfolding published_before
    Leaves-before P first none never = never
    Leaves-before P first (some (log, s)) p = p

    Leaves-continue :
        (P Q : Offboard D → Type 0) (r : Option (Published D))
        (rest : Offboard D → Option (Published D))
        → Leaves P r
        → ((s : Offboard D) → P s → Leaves Q (rest s))
        → Leaves Q (continue_with r rest)
    unfolding continue_with published_before
    Leaves-continue P Q none rest never later = absurd never
    Leaves-continue P Q (some (first, s)) rest p later = Leaves-before Q first (rest s) (later s p)

    run-Climbing :
        (es : List (Event D)) (s : Offboard D)
        → All Fresh es
        → Climbing s
        → Leaves Climbing (run numerics settings es s)
    unfolding run
    run-Climbing [] s fresh c = c
    run-Climbing (e ∷ es) s fresh c =
        Leaves-continue Climbing Climbing _ (run numerics settings es)
          (handle-Climbing e s fresh.0 c) (λ s' c'. run-Climbing es s' fresh.1 c')

    -- The next message of the odometry and call of the timer publish the setpoint above the start.
    abbrev pub PublishesStart : Pose D (Quaternion D) → ℕ → ℕ → Offboard D → Type 0
    PublishesStart pose now later s =
        let s' = odom_callback numerics settings pose s in
        Commands (at_start numerics settings start altitude s')
          (timer_callback numerics settings now later s')

    odom-located :
        (pose : Pose D (Quaternion D)) (s : Offboard D)
        → (odom_callback numerics settings pose s).current_odom ≡ some pose
    unfolding odom_callback update_offset
    odom-located pose s = elim (Option-cases s.current_local_pos) [
      | inl none_yet ↦ rw none_yet refl
      | inr (p, there) ↦ rw there refl
    ]

    waypoint_stale :
        (s : Offboard D) (later : ℕ)
        → s.last_waypoint_time ≡ t
        → doubles.lt (seconds t later) settings.waypoint_timeout_s ≡ false
        → has_fresh_waypoint numerics settings later s ≡ none
    unfolding has_fresh_waypoint
    waypoint_stale s later since stale = elim (Option-cases s.current_waypoint_ned) [
      | inl missing ↦ rw missing refl
      | inr (w, there) ↦ rw (there, since, stale) refl
    ]

    waypoint-Climbing :
        (msg : TrajectoryPoint D) (s : Offboard D)
        → s.takeoff_start_enu ≡ some start
        → s.takeoff_target_altitude ≡ some altitude
        → s.takeoff_completed ≡ false
        → Climbing (waypoint_callback numerics settings msg t s)
    unfolding waypoint_callback
    waypoint-Climbing msg s begun aimed incomplete = (begun, aimed, incomplete, refl, refl)

    module _ (pose : Pose D (Quaternion D)) (now later : ℕ) where
      Climbing-PublishesStart :
          (s : Offboard D)
          → is_at_altitude numerics settings pose altitude ≡ false
          → doubles.lt (seconds t later) settings.waypoint_timeout_s ≡ false
          → Climbing s
          → PublishesStart pose now later s
      unfolding timer_callback
      Climbing-PublishesStart s away stale c =
          let s' : Offboard D = odom_callback numerics settings pose s in
          let (begun, aimed, incomplete, waiting, since) = odom-Climbing pose s c in
          heartbeat-Commands numerics settings start altitude s'.current_odom now later s'
            (ap is_some (odom-located pose s)) (waypoint_stale s' later since stale)
            (stale-Sends numerics settings start altitude s' pose (odom-located pose s) begun aimed
              incomplete away)

      -- A takeoff has begun and is not marked complete when a waypoint comes. After any messages
      -- but waypoints, and calls of the timer while the waypoint is fresh, whatever altitude the
      -- vehicle passes meanwhile, no callback has thrown; and if the next message of the odometry
      -- has the vehicle away from the altitude of the takeoff, and the waypoint is then not fresh
      -- any more, the next call of the timer publishes the setpoint above the start of the
      -- takeoff.
      pub timer_callback-returns_to_start :
          (msg : TrajectoryPoint D) (es : List (Event D)) (s : Offboard D)
          → s.takeoff_start_enu ≡ some start
          → s.takeoff_target_altitude ≡ some altitude
          → s.takeoff_completed ≡ false
          → All Fresh es
          → is_at_altitude numerics settings pose altitude ≡ false
          → doubles.lt (seconds t later) settings.waypoint_timeout_s ≡ false
          → Leaves (PublishesStart pose now later) (run numerics settings (waypoint msg t ∷ es) s)
      unfolding run handle
      timer_callback-returns_to_start msg es s begun aimed incomplete fresh away stale =
          let s1 : Offboard D = waypoint_callback numerics settings msg t s in
          let c : Climbing s1 = waypoint-Climbing msg s begun aimed incomplete in
          Leaves-before (PublishesStart pose now later) [] (run numerics settings es s1) (
            Leaves-imply Climbing (PublishesStart pose now later) (run numerics settings es s1)
              (run-Climbing es s1 fresh c) (λ s' c'. Climbing-PublishesStart s' away stale c'))
