-- ===== src/Navigation/ThroughPoses/Statuses.antt =====
-- The statuses of the waypoints, from the start of a goal to its result
-- (nav3d_bt_navigator/src/navigators/navigate_through_poses.cpp).
use nav2_3d.Prelude.{
  ℕ, suc, ◌≡◌, refl, ap, ◌∙◌, Bool, true, false, not, Eq, if_rule, Option, none, some, List, [],
  ◌∷◌, map, length,
}
use nav2_3d.ActionServer.{Handles}
use nav2_3d.Navigation.Engine.{BtStatus, EndsIn}
use nav2_3d.Navigation.Session.{Session, Setup, Robot}
use nav2_3d.Navigation.ToPose.{set_internal_error}
use nav2_3d.Navigation.ThroughPoses.{
  Progress, pending, completed, failed, WaypointStatus, Waypoints, tf_error, enumerate,
  integrate_waypoint_status, settle_status, settle_statuses, prepend, after_transform,
  transform_all, begin, after_transforms, initialize_goal_poses, goal_completed,
}

-- The blackboard keeps what is set, and copies the goals, since it takes them by a const reference.
pub record IsBlackboard {ℓ} {H G : Type 0} {W : Type ℓ} (waypoints : Waypoints H G W) : Type ℓ where
  pub copies : (goals : List G) (w : W) → (waypoints.set_goals goals w).0 ≡ goals
  pub goals_set :
      (goals : List G) (w : W) → waypoints.get_goals (waypoints.set_goals goals w).1 ≡ goals
  pub goals_kept :
      (statuses : List (WaypointStatus G)) (w : W)
      → waypoints.get_goals (waypoints.set_statuses statuses w) ≡ waypoints.get_goals w
  pub statuses_set :
      (statuses : List (WaypointStatus G)) (w : W)
      → waypoints.get_statuses (waypoints.set_statuses statuses w) ≡ some statuses

-- Goals in their order from an index on, all with one status.
pub all_in : {G : Type 0} → Progress → ℕ → List G → List (WaypointStatus G)
all_in progress i [] = []
all_in progress i (goal ∷ goals) =
    record { waypoint_status = progress; waypoint_index = i; waypoint_pose = goal }
    ∷ all_in progress (suc i) goals

enumerate-all_in :
    {G : Type 0} (i : ℕ) (goals : List G) → enumerate i goals ≡ all_in pending i goals
unfolding enumerate all_in
enumerate-all_in i [] = refl
enumerate-all_in i (goal ∷ goals) =
    ap (λ l. record { waypoint_status = pending; waypoint_index = i; waypoint_pose = goal } ∷ l)
      (enumerate-all_in (suc i) goals)

settle-all_in :
    {G : Type 0} (result : Progress) (i : ℕ) (goals : List G)
    → map (settle_status result) (all_in pending i goals) ≡ all_in result i goals
unfolding settle_status all_in
settle-all_in result i [] = refl
settle-all_in result i (goal ∷ goals) =
    ap (λ l. record { waypoint_status = result; waypoint_index = i; waypoint_pose = goal } ∷ l)
      (settle-all_in result (suc i) goals)

module _ {ℓ} {H N F G P : Type 0} {W : Type ℓ} ⦃eh : Eq H⦄ ⦃ef : Eq F⦄ (handles : Handles H W)
    (robot : Robot H F G P W) (setup : Setup N F P) (waypoints : Waypoints H G W)
    (blackboard : IsBlackboard waypoints) where
  open waypoints use {poses, get_goals, get_statuses}

  -- The transforms give a pose for each, or none.
  AsMany : List G → Option (List G) × W → Type 0
  AsMany goals (none, w) = Unit
  AsMany goals (some transformed, w) = length transformed ≡ length goals

  prepend-AsMany :
      (pose goal : G) (goals : List G) (r : Option (List G) × W)
      → AsMany goals r
      → AsMany (goal ∷ goals) (prepend handles robot setup waypoints pose r)
  unfolding prepend AsMany
  prepend-AsMany pose goal goals (none, w) many = tt
  prepend-AsMany pose goal goals (some rest, w) many = ap suc many

  after-AsMany :
      (goal : G) (goals : List G) (r : Option G × W) (rest : W → Option (List G) × W)
      → ((w : W) → AsMany goals (rest w))
      → AsMany (goal ∷ goals) (after_transform handles robot setup waypoints r rest)
  unfolding after_transform AsMany
  after-AsMany goal goals (none, w) rest many = tt
  after-AsMany goal goals (some pose, w) rest many =
      prepend-AsMany pose goal goals (rest w) (many w)

  transform_all-AsMany :
      (goals : List G) (w : W) → AsMany goals (transform_all handles robot setup waypoints goals w)
  unfolding transform_all AsMany
  transform_all-AsMany [] w = refl
  transform_all-AsMany (goal ∷ goals) w =
      after-AsMany goal goals (waypoints.transform_pose goal w)
        (transform_all handles robot setup waypoints goals) (transform_all-AsMany goals)

  -- The statuses in the result, were the run to end at once.
  abbrev reported : ℕ → BtStatus → Session H N F W → Option (List (WaypointStatus G))
  reported code end s = (goal_completed handles robot setup waypoints code end s).1

  -- With success the blackboard has a goal for each pose and their statuses, and the end of the run
  -- decides what becomes of them.
  abbrev pub Begun : H → Bool × Session H N F W → Type 0
  Begun h (true, s) =
      (goals : List G) × (length goals ≡ length (poses h))
      × (get_goals s.world ≡ goals)
      × (get_statuses s.world ≡ some (all_in pending 0 goals))
      × ((code : ℕ) → reported code BtStatus.succeeded s ≡ some (all_in completed 0 goals))
      × ((code : ℕ) → reported code BtStatus.failed s ≡ some (all_in failed 0 goals))
      × ((code : ℕ) → reported code BtStatus.canceled s ≡ some (all_in failed 0 goals))
  Begun h (false, s) = s.internal_error_code ≡ tf_error

  statuses_begun :
      (goals : List G) (w : W)
      → get_statuses (begin handles robot setup waypoints goals w) ≡ some (all_in pending 0 goals)
  unfolding begin
  statuses_begun goals w =
      blackboard.statuses_set _ _
      ∙ ap (λ l. some (enumerate 0 l)) (blackboard.copies goals (waypoints.note_start w))
      ∙ ap some (enumerate-all_in 0 goals)

  goals_begun :
      (goals : List G) (w : W) → get_goals (begin handles robot setup waypoints goals w) ≡ goals
  unfolding begin
  goals_begun goals w =
      blackboard.goals_kept _ _ ∙ blackboard.goals_set goals (waypoints.note_start w)

  settled :
      (end : BtStatus) (goals : List G) (w : W)
      → settle_statuses
          (integrate_waypoint_status end)
          (get_statuses (begin handles robot setup waypoints goals w))
        ≡ some (all_in (integrate_waypoint_status end) 0 goals)
  unfolding settle_statuses
  settled end goals w =
      ap (settle_statuses (integrate_waypoint_status end)) (statuses_begun goals w)
      ∙ ap some (settle-all_in (integrate_waypoint_status end) 0 goals)

  after-Begun :
      (h : H) (s : Session H N F W) (r : Option (List G) × W)
      → AsMany (poses h) r
      → Begun h (after_transforms handles robot setup waypoints s r)
  unfolding after_transforms AsMany goal_completed set_internal_error integrate_waypoint_status
  after-Begun h s (none, w) many = refl
  after-Begun h s (some goals, w) many = (
    goals,
    many,
    goals_begun goals w,
    statuses_begun goals w,
    λ code. settled BtStatus.succeeded goals w,
    λ code. settled BtStatus.failed goals w,
    λ code. settled BtStatus.canceled goals w,
  )

  -- For a blackboard that keeps what is set and copies the goals: initializeGoalPoses dereferences
  -- no null goal where there is one; if it returns false the internal error is TF_ERROR, and if it
  -- returns true the blackboard has one goal for each pose of the request, and a pending status
  -- for each of these goals, numbered in order, which goalCompleted, called on this blackboard,
  -- reports all as completed where the run succeeded and all as failed where it failed or was
  -- canceled.
  pub initialize_goal_poses-Begun :
      (h : H) (s : Session H N F W)
      → EndsIn (Begun h) (initialize_goal_poses handles robot setup waypoints (some h) s)
  unfolding initialize_goal_poses set_internal_error
  initialize_goal_poses-Begun h s =
      let (available, w) = robot.get_current_pose s.world in
      if_rule (EndsIn (Begun h)) (not available) (λ _. refl)
        (λ _. after-Begun h s _ (transform_all-AsMany (poses h) w))
