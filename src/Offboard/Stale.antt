-- ===== src/Offboard/Stale.antt =====
-- What OffboardControl publishes once a waypoint is stale
-- (nav3d_px4_bridge/src/offboard_control.cpp).
pub mod Course
use nav2_3d.Prelude.{
  ℕ, ◌≡◌, is_some, refl, sym, ap, subst, true, false, Option, none, some, List, [], ◌∷◌, All, inl,
  inr, Option-cases, if_rule, ltb, arith,
}
use nav2_3d.Controller.{Pose}
use nav2_3d.Offboard.{
  Quaternion, Numerics, Settings, TrajectoryPoint, EnuSetpoint, TrajectorySetpoint, Offboard,
  offset_position, waypoint_callback, odom_callback, update_offset, vehicle_local_position_callback,
  vehicle_status_callback,
}
use nav2_3d.Offboard.Timer.{
  send_commands, required_setpoints, command_due, Message, heartbeat, setpoint, command, Published,
  still_setpoint, begin_takeoff, takeoff_pose, publish_takeoff_setpoint, is_at_altitude,
  is_takeoff_complete, hold, has_fresh_waypoint, publish_setpoint, after_setpoint, after_heartbeat,
  timer_callback,
}
use nav2_3d.Offboard.History.{
  Event, odom, local_position, status, waypoint, timer, published_before, continue_with, handle,
  run,
}

-- A method publishes one setpoint, which is the given one.
abbrev pub Sends : {D : Type 0} → TrajectorySetpoint D → Option (Published D) → Type 0
Sends w none = ⊥
Sends w (some (setpoint v ∷ [], s)) = v ≡ w
Sends w (some (_, s)) = ⊥

-- The callback of the timer publishes the heartbeat and then the given setpoint.
abbrev pub Commands : {D : Type 0} → TrajectorySetpoint D → Option (Published D) → Type 0
Commands w none = ⊥
Commands w (some (heartbeat ∷ setpoint v ∷ log, s)) = v ≡ w
Commands w (some (_, s)) = ⊥

module _ {D : Type 0} (numerics : Numerics D) (settings : Settings D) where
  open numerics use {doubles, seconds}

  after-Commands :
      (now : ℕ) (w : TrajectorySetpoint D) (r : Option (Published D))
      → Sends w r
      → Commands w (after_setpoint numerics settings now r)
  unfolding after_setpoint
  after-Commands now w none never = never
  after-Commands now w (some (setpoint v ∷ [], s)) same = same
  after-Commands now w (some ([], s)) never = elim never [ ]
  after-Commands now w (some (heartbeat ∷ _, s)) never = elim never [ ]
  after-Commands now w (some (command _ ∷ _, s)) never = elim never [ ]
  after-Commands now w (some (setpoint v ∷ _ ∷ _, s)) never = elim never [ ]

  module _ (start : EnuSetpoint D) (altitude : D) where
    abbrev pub at_start : Offboard D → TrajectorySetpoint D
    at_start = still_setpoint numerics settings (takeoff_pose numerics settings start altitude)

    -- The setpoint depends on the offset only.
    takeoff-Sends :
        (s : Offboard D) (pose : Pose D (Quaternion D))
        → s.current_odom ≡ some pose
        → s.takeoff_start_enu ≡ some start
        → s.takeoff_target_altitude ≡ some altitude
        → Sends (at_start s) (publish_takeoff_setpoint numerics settings s)
    unfolding publish_takeoff_setpoint begin_takeoff still_setpoint offset_position
    takeoff-Sends s pose located begun aimed = ground arith

    -- With no fresh waypoint, away from the altitude of a takeoff that is not complete.
    pub stale-Sends :
        (s : Offboard D) (pose : Pose D (Quaternion D))
        → s.current_odom ≡ some pose
        → s.takeoff_start_enu ≡ some start
        → s.takeoff_target_altitude ≡ some altitude
        → s.takeoff_completed ≡ false
        → is_at_altitude numerics settings pose altitude ≡ false
        → Sends (at_start s) (publish_setpoint numerics settings none s)
    unfolding publish_setpoint hold is_takeoff_complete
    stale-Sends s pose located begun aimed incomplete away =
        ground (arith, takeoff-Sends s pose located begun aimed)

    pub heartbeat-Commands :
        (o : Option (Pose D (Quaternion D))) (now later : ℕ) (s : Offboard D)
        → is_some o ≡ true
        → has_fresh_waypoint numerics settings later s ≡ none
        → Sends (at_start s) (publish_setpoint numerics settings none s)
        → Commands (at_start s) (after_heartbeat numerics settings o now later s)
    unfolding after_heartbeat
    heartbeat-Commands none now later s located stale sends = cc
    heartbeat-Commands (some pose) now later s located stale sends =
        after-Commands now _ _ (
          subst (λ w. Sends (at_start s) (publish_setpoint numerics settings w s)) (sym stale)
            sends)
