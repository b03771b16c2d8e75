-- ===== src/Planner.antt =====
-- PlannerServer (nav3d_planner/src/planner_server.cpp): the planners that it loads and the two requests
-- that it serves. Messages and the planning time are left out.
pub mod Loading
pub mod Settling
mod Examples
use nav2_3d.Prelude.{
  ℕ, Bool, true, false, not, ◌&&◌, ◌||◌, Eq, if◌then◌else◌, ◌⊎◌, inl, inr, Option, none, some, List,
  [], ◌∷◌,
}
use nav2_3d.ActionServer.{
  Handles, Server, get_current_goal, is_cancel_requested, is_preempt_requested, accept_pending_goal,
  terminate_all, terminate_current, succeeded_current,
}

-- The exceptions of nav3d_core/include/nav3d_core/planner_exceptions.hpp that computePlan tells apart, and any other.
pub data Exception : Type 0 where
  invalid_planner planner_tf_error start_outside_map_bounds goal_outside_map_bounds : Exception
  start_occupied goal_occupied planner_timed_out no_valid_path_could_be_found other : Exception

-- The codes of ComputePathToPose.action, in the `catch` clauses.
abbrev pub error_code : Exception → ℕ
error_code invalid_planner = 201
error_code planner_tf_error = 202
error_code start_outside_map_bounds = 203
error_code goal_outside_map_bounds = 204
error_code start_occupied = 205
error_code goal_occupied = 206
error_code planner_timed_out = 207
error_code no_valid_path_could_be_found = 208
error_code other = 200

-- The fields of a goal.
pub record Request (I P : Type 0) : Type 0 where
  pub use_start : Bool
  pub start : P
  pub goal : P
  pub planner_id : I

-- The action server and the world.
pub record State {ℓ} (H : Type 0) (W : Type ℓ) : Type ℓ where
  pub server : Server H
  pub world : W

-- A part of the `try` block gives a value, throws, or ends the callback, the goal being cancelled.
pub data Attempt {ℓ} (H : Type 0) (W : Type ℓ) (A : Type 0) : Type ℓ where
  gives : A → State H W → Attempt H W A
  throws : Exception → State H W → Attempt H W A
  cancels : State H W → Attempt H W A

-- What computePlan does: it returns with no result of its own, it reports a code and a path, or it
-- dereferences a null pointer.
pub data Planned {ℓ} (H : Type 0) (W : Type ℓ) (R : Type 0) : Type ℓ where
  leaves : State H W → Planned H W R
  reports : ℕ → Option R → State H W → Planned H W R
  crashes : Planned H W R

-- What isPathValid makes of a path: the checker, where the planner is one, may throw.
pub data Verdict : Type 0 where
  valid invalid throws_out : Verdict

-- The transforms, the publisher and the planners `L`. While they work, other threads act on the server.
pub record Planning {ℓ} (H I P F R L : Type 0) (W : Type ℓ) : Type ℓ where
  pub request : H → Request I P
  pub frame_id : P → F
  pub empty_frame : F
  pub global_frame : F
  pub empty_id : I
  pub get_current_pose : State H W → Option P × State H W
  pub transform_pose : P → State H W → Option P × State H W
  -- The exception or the path.
  pub create_plan : L → P → P → State H W → (Exception ⊎ R) × State H W
  pub has_no_poses : R → Bool
  pub publish : R → W → W
  -- createSharedInstance and configure, none where they throw.
  pub create : I → Option L
  -- isPathValid of a planner that is a PathValidityChecker.
  pub checker : L → Option (R → Verdict)

-- The members `planner_ids_` and `planners_`.
pub record Planners (I L : Type 0) : Type 0 where
  pub planner_ids : List I
  pub planners : List (I × L)

module _ {ℓ} {H I P F R L : Type 0} {W : Type ℓ} ⦃eh : Eq H⦄ ⦃ei : Eq I⦄ ⦃ef : Eq F⦄
    (handles : Handles H W) (planning : Planning H I P F R L W) where
  open planning use {
    request, frame_id, empty_frame, global_frame, empty_id, get_current_pose, transform_pose,
    create_plan, has_no_poses, publish, create, checker,
  }

  -- `planners_.find`, and `planners_.emplace`, which keeps an entry that is there.
  unfoldable pub find : I → List (I × L) → Option L
  find i [] = none
  find i ((j, l) ∷ rest) = if ei.beq j i then some l else find i rest

  unfoldable pub emplace : I → L → List (I × L) → List (I × L)
  unfolding find
  emplace i l ps = elim (find i ps) [ none ↦ (i, l) ∷ ps | some old ↦ ps ]

  -- The loop over `planner_ids_` in `on_configure`; false where it returns FAILURE.
  unfoldable pub load : List I → List (I × L) → Bool × List (I × L)
  unfolding emplace
  load [] ps = (true, ps)
  load (i ∷ is) ps = elim (create i) [ none ↦ (false, ps) | some l ↦ load is (emplace i l ps) ]

  -- The part of `on_configure` that loads the planners named by the parameter.
  unfoldable pub configure : List I → Bool × Planners I L
  unfolding load
  configure [] = (false, record { planner_ids = []; planners = [] })
  configure (i ∷ is) =
      let (success, ps) = load (i ∷ is) [] in
      (success, record { planner_ids = i ∷ is; planners = ps })

  -- `planner_id.empty() ? planner_ids_.front() : planner_id`. `front()` has no value on an empty vector,
  -- with which `on_configure` fails.
  unfoldable pub effective_id : Planners I L → I → I
  effective_id m i = elim m.planner_ids [
    | [] ↦ i
    | front ∷ _ ↦ if ei.beq i empty_id then front else i
  ]

  -- `getPlannerOrThrow`: none where InvalidPlanner is thrown.
  unfoldable pub get_planner_or_throw : Planners I L → I → Option L
  unfolding find effective_id
  get_planner_or_throw m i = find (effective_id m i) m.planners

  pub and_then : {A B : Type 0} → Attempt H W A → (A → State H W → Attempt H W B) → Attempt H W B
  and_then (gives a s) next = next a s
  and_then (throws e s) next = throws e s
  and_then (cancels s) next = cancels s

  -- `if (cancel_checker())`.
  unfoldable pub check_cancel : State H W → Attempt H W Unit
  check_cancel s =
      if is_cancel_requested handles s.server s.world
      then (let (server, w) = terminate_all handles s.server s.world in
          cancels (record { server = server; world = w }))
      else gives tt s

  unfoldable pub start_of : Request I P → State H W → Attempt H W P
  start_of r s =
      if r.use_start
      then gives r.start s
      else (let (pose, s') = get_current_pose s in
          elim pose [ none ↦ throws planner_tf_error s' | some p ↦ gives p s' ])

  unfoldable pub in_global_frame : P → State H W → Attempt H W P
  in_global_frame p s =
      if not (ef.beq (frame_id p) empty_frame) && not (ef.beq (frame_id p) global_frame)
      then (let (pose, s') = transform_pose p s in
          elim pose [ none ↦ throws planner_tf_error s' | some q ↦ gives q s' ])
      else gives p s

  pub find_planner : Planners I L → I → State H W → Attempt H W L
  unfolding get_planner_or_throw
  find_planner m i s = elim (get_planner_or_throw m i) [
    | none ↦ throws invalid_planner s
    | some l ↦ gives l s
  ]

  pub not_empty : R → State H W → Attempt H W R
  not_empty path s =
      if has_no_poses path then throws no_valid_path_could_be_found s else gives path s

  pub make : L → P → P → State H W → Attempt H W R
  make l start goal s =
      let (made, s') = create_plan l start goal s in
      elim made [ inl e ↦ throws e s' | inr path ↦ gives path s' ]

  -- The `try` block, up to the result.
  unfoldable pub plan : Planners I L → Request I P → State H W → Attempt H W R
  unfolding and_then check_cancel start_of in_global_frame find_planner make not_empty
  plan m r s = and_then (check_cancel s) (λ _ s1. and_then (start_of r s1) (λ start s2.
      and_then (in_global_frame start s2) (λ start' s3.
        and_then (in_global_frame r.goal s3) (λ goal s4. and_then (check_cancel s4) (λ _ s5.
          and_then (find_planner m r.planner_id s5) (λ l s6.
            and_then (make l start' goal s6)
              (λ path s7. and_then (check_cancel s7) (λ _ s8. not_empty path s8))))))))

  -- The result, and the `catch` clauses.
  unfoldable pub finish : Attempt H W R → Planned H W R
  finish (gives path s) =
      let (server, w) = succeeded_current handles s.server (publish path s.world) in
      reports 0 (some path) (record { server = server; world = w })
  finish (throws e s) =
      let (server, w) = terminate_current handles s.server s.world in
      reports (error_code e) none (record { server = server; world = w })
  finish (cancels s) = leaves s

  -- `getPreemptedGoalIfRequested`.
  unfoldable pub preempted_goal : Option H → State H W → Option H × State H W
  preempted_goal goal s =
      if is_preempt_requested s.server
      then (let (next, server, w) = accept_pending_goal handles s.server s.world in
          (next, record { server = server; world = w }))
      else (goal, s)

  -- What follows, where `goal->goal` is read first.
  unfoldable pub plan_for : Planners I L → Option H → State H W → Planned H W R
  unfolding plan finish
  plan_for m none s = crashes
  plan_for m (some h) s = finish (plan m (request h) s)

  unfoldable pub compute_plan : Planners I L → State H W → Planned H W R
  unfolding preempted_goal plan_for
  compute_plan m s =
      let goal : Option H = get_current_goal handles s.server s.world in
      if not s.server.server_active
      then leaves s
      else (if is_cancel_requested handles s.server s.world
          then (let (server, w) = terminate_all handles s.server s.world in
              leaves (record { server = server; world = w }))
          else (let (goal', s') = preempted_goal goal s in plan_for m goal' s'))

  pub accepts : Verdict → Bool
  accepts valid = true
  accepts _ = false

  -- `isPathValid`: the member `is_valid` of the response.
  unfoldable pub is_path_valid : Planners I L → I → R → Bool
  unfolding effective_id get_planner_or_throw accepts
  is_path_valid m path_validity_planner_id path =
      if has_no_poses path
      then false
      else elim (get_planner_or_throw m (effective_id m path_validity_planner_id)) [
        | none ↦ false
        | some l ↦ elim (checker l) [ none ↦ true | some check ↦ accepts (check path) ]
      ]
