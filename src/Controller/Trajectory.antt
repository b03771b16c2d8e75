-- ===== src/Controller/Trajectory.antt =====
-- The trajectory of ControllerServer (nav3d_controller/src/controller_server.cpp): generateTimedTrajectory,
-- getCurrentCommand and isGoalReached. `now` is a reading of the clock and `pose` what getCurrentPose gives.
use nav2_3d.Prelude.{
  ℕ, zero, suc, ◌+◌, Bool, true, false, ltb, leb, if◌then◌else◌, Option, none, some, List, [], ◌∷◌,
  length, get_elem?,
}
use nav2_3d.Prelude.Double.{max_of}
use nav2_3d.Controller.{
  Reals, Vector, Pose, Twist, Settings, Controller, TrajectoryPoint, Frames, reset_filter,
  update_filter, get_filtered_setpoint,
}

module _ {D Q : Type 0} (reals : Reals D) (frames : Frames D Q) (settings : Settings D) where
  open reals use {doubles, abs, sqrt, shortest_angular_distance, hundredth, thousandth, millionth}
  open doubles use {add, sub, mul, div, lt, le}
  open settings use {
    xyz_goal_tolerance, yaw_goal_tolerance, slowdown_distance, controller_frequency,
  }

  -- The length of the difference of two positions.
  unfoldable pub distance_between : Vector D → Vector D → D
  distance_between p q =
      let dx = sub q.x p.x in
      let dy = sub q.y p.y in
      let dz = sub q.z p.z in sqrt (add (add (mul dx dx) (mul dy dy)) (mul dz dz))

  -- The loop from index 1, where `accumulated` seconds lead to the pose before.
  unfoldable pub timed : D → ℕ → D → Pose D Q → List (Pose D Q) → List (ℕ × Pose D Q)
  unfolding distance_between
  timed v start accumulated p [] = []
  timed v start accumulated p (q ∷ qs) =
      let dt = max_of doubles (div (distance_between p.position q.position) v) hundredth in
      let next = add accumulated dt in
      (start + frames.from_seconds next, q) ∷ timed v start next q qs

  -- None is the exception InvalidPath, which the first line throws and nothing before it changes.
  unfoldable pub generate_timed_trajectory :
      ℕ → Option (Pose D Q) → List (Pose D Q) → Controller D Q → Option (Controller D Q)
  unfolding timed
  generate_timed_trajectory now pose [] c = none
  generate_timed_trajectory now pose (p ∷ ps) c =
      let start = now + frames.from_seconds reals.tenth in
      let v = max_of doubles thousandth c.speed_limit in
      let c' : Controller D Q = record c {
        current_path = (start, p) ∷ timed v start doubles.zero p ps;
        current_waypoint_index = 0;
        path_start_time = start;
      } in
      some (elim pose [
        | some current ↦ reset_filter reals frames settings current c'
        | none ↦ reset_filter reals frames settings p c'
      ])

  -- The time of the entry at an index, where there is one.
  abbrev pub time_at : List (ℕ × Pose D Q) → ℕ → Option ℕ
  time_at [] i = none
  time_at ((t, p) ∷ rest) zero = some t
  time_at (e ∷ rest) (suc i) = time_at rest i

  -- The `while` loop over `current_waypoint_index_`; none is fuel run out.
  unfoldable pub find_segment : ℕ → ℕ → List (ℕ × Pose D Q) → ℕ → Option ℕ
  find_segment zero now path i = none
  find_segment (suc fuel) now path i = elim (time_at path (suc i)) [
    | none ↦ some i
    | some t ↦ elim (ltb t now) [ true ↦ find_segment fuel now path (suc i) | false ↦ some i ]
  ]

  unfoldable pub clamp : D → D → D → D
  clamp v low high = if lt v low then low else if lt high v then high else v

  -- The pose on the segment from `a` to `b`, and the time that the segment takes.
  unfoldable pub interpolate : ℕ → ℕ × Pose D Q → ℕ × Pose D Q → Pose D Q
  unfolding clamp
  interpolate now (ta, a) (tb, b) =
      let segment_dt = frames.seconds_between ta tb in
      let alpha : D =
        clamp (div (frames.seconds_between ta now) (max_of doubles millionth segment_dt))
          doubles.zero doubles.one in
      let p = a.position in
      let q = b.position in
      record {
        position = record {
          x = add p.x (mul alpha (sub q.x p.x));
          y = add p.y (mul alpha (sub q.y p.y));
          z = add p.z (mul alpha (sub q.z p.z));
        };
        orientation = frames.slerp a.orientation b.orientation alpha;
      }

  abbrev pub still : Twist D
  still = record {
    linear = record { x = doubles.zero; y = doubles.zero; z = doubles.zero };
    angular_z = doubles.zero;
  }

  -- The velocity on the segment, scaled down within `slowdown_distance_` of the goal.
  unfoldable pub target_velocity : D → ℕ × Pose D Q → ℕ × Pose D Q → Twist D
  unfolding clamp
  target_velocity dist_to_goal (ta, a) (tb, b) =
      let segment = max_of doubles millionth (frames.seconds_between ta tb) in
      let p = a.position in
      let q = b.position in
      let dyaw =
        shortest_angular_distance (frames.get_yaw a.orientation) (frames.get_yaw b.orientation) in
      let dslow = max_of doubles thousandth slowdown_distance in
      let scale = clamp (div dist_to_goal dslow) doubles.zero doubles.one in
      if le dist_to_goal xyz_goal_tolerance then still else record {
        linear = record {
          x = mul (div (sub q.x p.x) segment) scale;
          y = mul (div (sub q.y p.y) segment) scale;
          z = mul (div (sub q.z p.z) segment) scale;
        };
        angular_z = mul (div dyaw segment) scale;
      }

  abbrev pub stopped : Bool → TrajectoryPoint D Q → TrajectoryPoint D Q
  stopped stop out = if stop then record out { velocity = still } else out

  -- What a command is: none, a setpoint, or an access past the end of `current_path_`.
  pub data PathCommand : Type 0 where
    nothing out_of_range : PathCommand
    setpoint : TrajectoryPoint D Q → PathCommand

  -- `1.0 / std::max(1e-3, controller_frequency_)`.
  abbrev control_period : D
  control_period = div doubles.one (max_of doubles thousandth controller_frequency)

  -- Before the first time.
  unfoldable pub before_start : ℕ → Option (Pose D Q) → Controller D Q → Controller D Q
  before_start now none c = c
  before_start now (some current) c = reset_filter reals frames settings current c

  -- After the last time.
  unfoldable pub after_end : ℕ → Pose D Q → Controller D Q → PathCommand × Controller D Q
  unfolding distance_between
  after_end now goal c =
      let c' = update_filter reals frames settings goal still control_period c in
      let dist = distance_between goal.position c'.ref_state.pos in
      (
        setpoint (
            stopped (lt dist xyz_goal_tolerance)
              (get_filtered_setpoint reals frames settings now c')),
        c',
      )

  -- On the segment that starts at the index.
  unfoldable pub on_segment : ℕ → Pose D Q → ℕ → Controller D Q → PathCommand × Controller D Q
  unfolding distance_between interpolate target_velocity
  on_segment now goal i c = elim (get_elem? c.current_path i) [
    | none ↦ (out_of_range, c)
    | some a ↦ elim (get_elem? c.current_path (suc i)) [
      | none ↦ (out_of_range, c)
      | some b ↦
          let target_pose = interpolate now a b in
          let dist_to_goal = distance_between target_pose.position goal.position in
          let target_vel = target_velocity dist_to_goal a b in
          let c' : Controller D Q =
            update_filter reals frames settings target_pose target_vel control_period
              (record c { current_waypoint_index = i }) in
          (
            setpoint (
                stopped (le dist_to_goal xyz_goal_tolerance)
                  (get_filtered_setpoint reals frames settings now c')),
            c',
          )
    ]
  ]

  -- `back()` of a path that starts with the entry.
  unfoldable pub last_entry : ℕ × Pose D Q → List (ℕ × Pose D Q) → ℕ × Pose D Q
  last_entry e [] = e
  last_entry e (e' ∷ rest) = last_entry e' rest

  -- The function body, with `current_path_`.
  unfoldable pub command_on :
      ℕ
      → Option (Pose D Q)
      → List (ℕ × Pose D Q)
      → Controller D Q
      → Option (PathCommand × Controller D Q)
  unfolding before_start after_end on_segment find_segment last_entry
  command_on now pose [] c = some (nothing, c)
  command_on now pose (front ∷ rest) c =
      let last = last_entry front rest in
      let path : List (ℕ × Pose D Q) = front ∷ rest in
      if leb now front.0
      then (let c' = before_start now pose c in
          some (setpoint (get_filtered_setpoint reals frames settings now c'), c'))
      else (if leb last.0 now
          then some (after_end now last.1 c)
          else elim (find_segment (length path) now path c.current_waypoint_index) [
            | none ↦ none
            | some i ↦ some (on_segment now last.1 i c)
          ])

  unfoldable pub get_current_command :
      ℕ → Option (Pose D Q) → Controller D Q → Option (PathCommand × Controller D Q)
  unfolding command_on
  get_current_command now pose c = command_on now pose c.current_path c

  unfoldable pub is_goal_reached : Option (Pose D Q) → Controller D Q → Bool
  unfolding distance_between last_entry
  is_goal_reached pose c = elim c.current_path [
    | [] ↦ false
    | front ∷ rest ↦ elim pose [
      | none ↦ false
      | some current ↦
          let goal = (last_entry front rest).1 in
          if lt xyz_goal_tolerance (distance_between goal.position current.position)
          then false
          else (let dyaw =
                shortest_angular_distance (frames.get_yaw current.orientation)
                  (frames.get_yaw goal.orientation) in
              le (abs dyaw) yaw_goal_tolerance)
    ]
  ]
