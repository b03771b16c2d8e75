-- ===== src/Offboard/History.antt =====
-- Histories of OffboardControl (nav3d_px4_bridge/src/offboard_control.cpp): the callbacks of its
-- subscriptions and of its timer in any order, which one executor thread runs one after another.
use nav2_3d.Prelude.{ℕ, Option, none, some, List, [], ◌∷◌, ◌++◌}
use nav2_3d.Controller.{Vector, Pose}
use nav2_3d.Offboard.{
  Quaternion, Numerics, Settings, TrajectoryPoint, Offboard, odom_callback,
  vehicle_local_position_callback, vehicle_status_callback, waypoint_callback,
}
use nav2_3d.Offboard.Timer.{Message, Published, timer_callback}

pub data Event (D : Type 0) : Type 0 where
  odom : Pose D (Quaternion D) → Event D
  local_position : Vector D → Event D
  status : ℕ → ℕ → Event D
  waypoint : TrajectoryPoint D → ℕ → Event D
  timer : ℕ → ℕ → Event D

-- What was published first, before what follows.
unfoldable pub published_before :
    {D : Type 0} → List (Message D) → Option (Published D) → Option (Published D)
published_before first none = none
published_before first (some (last, s)) = some (first ++ last, s)

-- What follows one event; `rest` are the events to come.
unfoldable pub continue_with :
    {D : Type 0} → Option (Published D) → (Offboard D → Option (Published D)) → Option (Published D)
unfolding published_before
continue_with none rest = none
continue_with (some (first, s)) rest = published_before first (rest s)

module _ {D : Type 0} (numerics : Numerics D) (settings : Settings D) where
  unfoldable pub handle : Event D → Offboard D → Option (Published D)
  handle (odom msg) s = some ([], odom_callback numerics settings msg s)
  handle (local_position msg) s = some ([], vehicle_local_position_callback numerics settings msg s)
  handle (status nav_state arming_state) s =
      some ([], vehicle_status_callback numerics settings nav_state arming_state s)
  handle (waypoint msg now) s = some ([], waypoint_callback numerics settings msg now s)
  handle (timer now later) s = timer_callback numerics settings now later s

  -- All that is published, in order; `none` where a callback throws.
  unfoldable pub run : List (Event D) → Offboard D → Option (Published D)
  unfolding continue_with handle
  run [] s = some ([], s)
  run (e ∷ es) s = continue_with (handle e s) (run es)
