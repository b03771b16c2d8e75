-- ===== src/Controller/Limits.antt =====
-- The limits that the reference filter keeps (nav3d_controller/src/controller_server.cpp).
use nav2_3d.Prelude.{
  ℕ, suc, ◌≤◌, Bool, true, false, not, ◌||◌, if_rule, ◌≡◌, inl, inr, Option, none, some, List, [],
  ◌∷◌, length, leb, get_elem?, Option-cases,
}
use nav2_3d.Prelude.Double.{max_of}
use nav2_3d.Controller.{
  Reals, Vector, Pose, Twist, Reference, Settings, Controller, Frames, saturate, axis_acc, axis_vel,
  yaw_acc_of, yaw_vel_limit, filtered, update_filter, reset_filter, get_filtered_setpoint,
}
use nav2_3d.Controller.Segment.{Started, Follows, get_current_command-Follows}
use nav2_3d.Controller.Trajectory.{
  PathCommand, nothing, out_of_range, setpoint, stopped, still, before_start, after_end, on_segment,
  find_segment, last_entry, command_on, get_current_command,
}

-- What the limits need of the numbers: a sign copied onto a limit that is not negative, and zero, do not
-- exceed it, and the yaw limit that is lowered is not negative and not above the full one.
pub record AreLimits {D : Type 0} (reals : Reals D) (settings : Settings D) : Type 0 where
  pub copysign_within :
      (l v : D)
      → reals.doubles.le reals.doubles.zero l ≡ true
      → reals.doubles.lt l (reals.abs (reals.copysign l v)) ≡ false
  pub zero_within :
      (l : D)
      → reals.doubles.le reals.doubles.zero l ≡ true
      → reals.doubles.lt l (reals.abs reals.doubles.zero) ≡ false
  pub acc_limit : reals.doubles.le reals.doubles.zero settings.ref_acc_max ≡ true
  pub vel_limit : reals.doubles.le reals.doubles.zero settings.ref_vel_max ≡ true
  pub yaw_acc_limit : reals.doubles.le reals.doubles.zero settings.ref_yaw_acc_max ≡ true
  pub yaw_limit : reals.doubles.le reals.doubles.zero settings.ref_yaw_vel_max ≡ true
  pub lowered_limit :
      (e : D)
      → reals.doubles.lt e reals.two_tenths ≡ true
      → let l =
          reals.doubles.mul settings.ref_yaw_vel_max
            (max_of reals.doubles reals.tenth (reals.doubles.div e reals.two_tenths)) in
        (reals.doubles.le reals.doubles.zero l ≡ true)
        × ((v : D)
            → reals.doubles.lt l v ≡ false
            → reals.doubles.lt settings.ref_yaw_vel_max v ≡ false)

module _ {D Q : Type 0} (reals : Reals D) (frames : Frames D Q) (settings : Settings D)
    (laws : AreLimits reals settings) where
  open reals use {doubles, abs}
  open settings use {ref_acc_max, ref_vel_max, ref_yaw_acc_max, ref_yaw_vel_max}

  abbrev pub Below : D → D → Type 0
  Below l v = doubles.lt l (abs v) ≡ false

  abbrev pub AllBelow : D → Vector D → Type 0
  AllBelow l v = Below l v.x × Below l v.y × Below l v.z

  -- The reference keeps the limits.
  abbrev pub Limited : Reference D → Type 0
  Limited r =
      AllBelow ref_acc_max r.acc
      × AllBelow ref_vel_max r.vel
      × Below ref_yaw_acc_max r.yaw_acc
      × Below ref_yaw_vel_max r.yaw_vel

  -- A setpoint keeps them.
  abbrev pub Commands : PathCommand reals frames settings → Type 0
  Commands nothing = Unit
  Commands out_of_range = Unit
  Commands (setpoint out) =
      AllBelow ref_acc_max out.acceleration
      × AllBelow ref_vel_max out.velocity.linear
      × Below ref_yaw_vel_max out.velocity.angular_z

  saturate-Below :
      (l v : D) → doubles.le doubles.zero l ≡ true → Below l (saturate reals frames settings l v)
  unfolding saturate
  saturate-Below l v positive =
      if_rule (Below l) (doubles.lt l (abs v)) (λ _. laws.copysign_within l v positive)
        (λ below. below)

  yaw_vel-Below :
      (e v : D)
      → Below ref_yaw_vel_max
          (saturate reals frames settings (yaw_vel_limit reals frames settings e) v)
  unfolding yaw_vel_limit
  yaw_vel-Below e v =
      if_rule (λ l. Below ref_yaw_vel_max (saturate reals frames settings l v))
        (doubles.lt (abs e) reals.two_tenths)
        (λ small.
          let (positive, lower) = laws.lowered_limit (abs e) small in
          lower _ (saturate-Below _ v positive))
        (λ _. saturate-Below ref_yaw_vel_max v laws.yaw_limit)

  axis_acc-Below :
      (dt target_pos target_vel pos vel acc : D)
      → Below ref_acc_max (axis_acc reals frames settings dt target_pos target_vel pos vel acc)
  unfolding axis_acc
  axis_acc-Below dt target_pos target_vel pos vel acc = saturate-Below ref_acc_max _ laws.acc_limit

  axis_vel-Below : (dt vel acc : D) → Below ref_vel_max (axis_vel reals frames settings dt vel acc)
  unfolding axis_vel
  axis_vel-Below dt vel acc = saturate-Below ref_vel_max _ laws.vel_limit

  yaw_acc_of-Below :
      (dt e v : D) (r : Reference D)
      → Below ref_yaw_acc_max (yaw_acc_of reals frames settings dt e v r)
  unfolding yaw_acc_of
  yaw_acc_of-Below dt e v r = saturate-Below ref_yaw_acc_max _ laws.yaw_acc_limit

  filtered-Limited :
      (pose : Pose D Q) (twist : Twist D) (dt : D) (r : Reference D)
      → Limited (filtered reals frames settings pose twist dt r)
  unfolding filtered
  filtered-Limited pose twist dt r = (
    (axis_acc-Below _ _ _ _ _ _, axis_acc-Below _ _ _ _ _ _, axis_acc-Below _ _ _ _ _ _),
    (axis_vel-Below _ _ _, axis_vel-Below _ _ _, axis_vel-Below _ _ _),
    yaw_acc_of-Below _ _ _ r,
    yaw_vel-Below _ _,
  )

  update_filter-Limited :
      (pose : Pose D Q) (twist : Twist D) (dt : D) (c : Controller D Q)
      → Limited c.ref_state
      → Limited (update_filter reals frames settings pose twist dt c).ref_state
  unfolding update_filter
  update_filter-Limited pose twist dt c limited =
      if_rule (λ (c' : Controller D Q). Limited c'.ref_state)
        (doubles.le dt doubles.zero || not c.filter_initialized) (λ _. limited)
        (λ _. filtered-Limited pose twist dt c.ref_state)

  none-AllBelow :
      (l : D)
      → doubles.le doubles.zero l ≡ true
      → AllBelow l (record { x = doubles.zero; y = doubles.zero; z = doubles.zero })
  none-AllBelow l positive =
      (laws.zero_within l positive, laws.zero_within l positive, laws.zero_within l positive)

  pub reset_filter-Limited :
      (pose : Pose D Q) (c : Controller D Q)
      → Limited (reset_filter reals frames settings pose c).ref_state
  unfolding reset_filter
  reset_filter-Limited pose c = (
    none-AllBelow ref_acc_max laws.acc_limit,
    none-AllBelow ref_vel_max laws.vel_limit,
    laws.zero_within ref_yaw_acc_max laws.yaw_acc_limit,
    laws.zero_within ref_yaw_vel_max laws.yaw_limit,
  )

  setpoint-Commands :
      (stop : Bool) (now : ℕ) (c : Controller D Q)
      → Limited c.ref_state
      → Commands (
          setpoint (
            stopped reals frames settings stop (get_filtered_setpoint reals frames settings now c)))
  unfolding get_filtered_setpoint
  setpoint-Commands false now c (acc, vel, yaw_acc, yaw_vel) = (acc, vel, yaw_vel)
  setpoint-Commands true now c (acc, vel, yaw_acc, yaw_vel) = (
    acc,
    none-AllBelow ref_vel_max laws.vel_limit,
    laws.zero_within ref_yaw_vel_max laws.yaw_limit,
  )

  -- The command and the state after it keep the limits.
  abbrev pub Keeps : Option (PathCommand reals frames settings × Controller D Q) → Type 0
  Keeps none = Unit
  Keeps (some (command, c)) = Commands command × Limited c.ref_state

  before_start-Limited :
      (now : ℕ) (pose : Option (Pose D Q)) (c : Controller D Q)
      → Limited c.ref_state
      → Limited (before_start reals frames settings now pose c).ref_state
  unfolding before_start
  before_start-Limited now none c limited = limited
  before_start-Limited now (some current) c limited = reset_filter-Limited current c

  after_end-Keeps :
      (now : ℕ) (goal : Pose D Q) (c : Controller D Q)
      → Limited c.ref_state
      → Keeps (some (after_end reals frames settings now goal c))
  unfolding after_end
  after_end-Keeps now goal c limited =
      let kept = update_filter-Limited goal (still reals frames settings) _ c limited in
      (setpoint-Commands _ now _ kept, kept)

  on_segment-Keeps :
      (now : ℕ) (goal : Pose D Q) (i : ℕ) (c : Controller D Q)
      → Limited c.ref_state
      → Keeps (some (on_segment reals frames settings now goal i c))
  unfolding on_segment
  on_segment-Keeps now goal i c limited = elim (Option-cases (get_elem? c.current_path i)) [
    | inl past ↦ rw (past, on_segment) (tt, limited)
    | inr (a, here) ↦ elim (Option-cases (get_elem? c.current_path (suc i))) [
      | inl past ↦ rw (here, past, on_segment) (tt, limited)
      | inr (b, next) ↦
          let kept =
            update_filter-Limited _ _ _ (record c { current_waypoint_index = i }) limited in
          rw (here, next, on_segment) (setpoint-Commands _ now _ kept, kept)
    ]
  ]

  command_on-Keeps :
      (now : ℕ) (pose : Option (Pose D Q)) (path : List (ℕ × Pose D Q)) (c : Controller D Q)
      → Limited c.ref_state
      → Keeps (command_on reals frames settings now pose path c)
  unfolding command_on
  command_on-Keeps now pose [] c limited = (tt, limited)
  command_on-Keeps now pose (front ∷ rest) c limited =
      let kept = before_start-Limited now pose c limited in
      if_rule Keeps (leb now front.0) (λ _. (setpoint-Commands false now _ kept, kept))
        (λ _.
          if_rule Keeps (leb (last_entry reals frames settings front rest).0 now)
            (λ _. after_end-Keeps now (last_entry reals frames settings front rest).1 c limited)
            (λ _.
              elim (Option-cases (
                find_segment reals frames settings (length (front ∷ rest)) now (front ∷ rest)
                  c.current_waypoint_index)) [
                    | inl more ↦ rw (more) tt
                    | inr (i, ends) ↦ rw (ends) (
                        on_segment-Keeps now (last_entry reals frames settings front rest).1 i c
                          limited)
                  ]))

  -- Where the index of the path is 0 or its entry has passed, the clock does not go back, and the
  -- reference is within the limits: getCurrentCommand reads no entry past the end of the path,
  -- finds the same of the index afterwards, and keeps each axis of the acceleration and of the
  -- velocity, the yaw velocity and the yaw acceleration within their limits, both in the reference
  -- and in the setpoint that it gives. The limits are not negative, a sign copied onto such a
  -- limit and zero do not exceed it, and the yaw limit that is lowered near the target is not
  -- negative and not above the full one.
  pub get_current_command-Keeps :
      (before now : ℕ) (pose : Option (Pose D Q)) (c : Controller D Q)
      → Started reals frames settings before c
      → before ≤ now
      → Limited c.ref_state
      → let r = get_current_command reals frames settings now pose c in
        Follows reals frames settings now r × Keeps r
  unfolding get_current_command
  get_current_command-Keeps before now pose c started le limited = (
    get_current_command-Follows reals frames settings before now pose c started le,
    command_on-Keeps now pose c.current_path c limited,
  )
