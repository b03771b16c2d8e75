-- ===== src/Planner/Settling.antt =====
-- What PlannerServer::computePlan leaves of a goal (nav3d_planner/src/planner_server.cpp).
use nav2_3d.Prelude.{
  ◌≤◌, true, false, not, ◌&&◌, Eq, if_rule, Option-cases, ◌≡◌, refl, inl, inr, ◌⊎◌, Option, none,
  some, arith,
}
use nav2_3d.ActionServer.{Handles, active, is_cancel_requested, is_preempt_requested}
use nav2_3d.ActionServer.Orphans.{AreHandles}
use nav2_3d.ActionServer.Slots.{
  IsOver, terminate_current-IsOver, terminate_all-IsOver, succeeded_current-IsOver,
  accept_pending_goal-some, get_current_goal-some, is_preempt_requested_lem,
}
use nav2_3d.Planner.{
  Exception, error_code, Request, State, Attempt, gives, throws, cancels, Planned, leaves, reports,
  crashes, Planning, Planners, and_then, check_cancel, start_of, in_global_frame, find_planner,
  make, not_empty, get_planner_or_throw, plan, finish, preempted_goal, plan_for, compute_plan,
}

module _ {ℓ} {H I P F R L : Type 0} {W : Type ℓ} ⦃eh : Eq H⦄ ⦃ei : Eq I⦄ ⦃ef : Eq F⦄
    (handles : Handles H W) (planning : Planning H I P F R L W) where
  -- The goal that the server holds is over; a path that is reported has poses, and its code is 0; every
  -- other report has a code of the planner's.
  abbrev pub Settles : Planned H W R → Type 0
  Settles (leaves s) = IsOver handles s.server s.world
  Settles (reports c (some path) s) =
      (c ≡ 0) × (planning.has_no_poses path ≡ false) × IsOver handles s.server s.world
  Settles (reports c none s) = (200 ≤ c) × (c ≤ 208) × IsOver handles s.server s.world
  Settles crashes = ⊥

  -- A value satisfies `Q`, and where the goal is cancelled it is over.
  abbrev Sound : {A : Type 0} → (A → Type 0) → Attempt H W A → Type 0
  Sound Q (gives a s) = Q a
  Sound Q (throws e s) = Unit
  Sound Q (cancels s) = IsOver handles s.server s.world

  abbrev AnyValue : {A : Type 0} → A → Type 0
  AnyValue a = Unit

  and_then-Sound :
      {A B : Type 0} (Q : B → Type 0) (a : Attempt H W A) (next : A → State H W → Attempt H W B)
      → Sound AnyValue a
      → ((x : A) (s : State H W) → Sound Q (next x s))
      → Sound Q (and_then handles planning a next)
  unfolding and_then
  and_then-Sound Q (gives a s) next sound more = more a s
  and_then-Sound Q (throws e s) next sound more = tt
  and_then-Sound Q (cancels s) next sound more = sound

  attempt_pose :
      (pose : Option P) (s : State H W)
      → Sound AnyValue (elim pose as (λ _. Attempt H W P) [
        | none ↦ throws Exception.planner_tf_error s
        | some p ↦ gives p s
      ])
  attempt_pose none s = tt
  attempt_pose (some p) s = tt

  made :
      (r : Exception ⊎ R) (s : State H W)
      → Sound AnyValue
          (elim r as (λ _. Attempt H W R) [ inl e ↦ throws e s | inr path ↦ gives path s ])
  made (inl e) s = tt
  made (inr path) s = tt

  start_of-Sound :
      (r : Request I P) (s : State H W) → Sound AnyValue (start_of handles planning r s)
  unfolding start_of
  start_of-Sound r s =
      let (pose, s') = planning.get_current_pose s in
      if_rule (Sound AnyValue) r.use_start (λ _. tt) (λ _. attempt_pose pose s')

  in_global_frame-Sound :
      (p : P) (s : State H W) → Sound AnyValue (in_global_frame handles planning p s)
  unfolding in_global_frame
  in_global_frame-Sound p s =
      let (pose, s') = planning.transform_pose p s in
      if_rule (Sound AnyValue)
        (not (ef.beq (planning.frame_id p) planning.empty_frame)
          && not (ef.beq (planning.frame_id p) planning.global_frame))
        (λ _. attempt_pose pose s') (λ _. tt)

  find_planner-Sound :
      (m : Planners I L) (i : I) (s : State H W)
      → Sound AnyValue (find_planner handles planning m i s)
  unfolding find_planner
  find_planner-Sound m i s = elim (Option-cases (get_planner_or_throw handles planning m i)) [
    | inl nothing ↦ rw (nothing, find_planner) tt
    | inr (l, there) ↦ rw (there, find_planner) tt
  ]

  make-Sound :
      (l : L) (start goal : P) (s : State H W)
      → Sound AnyValue (make handles planning l start goal s)
  unfolding make
  make-Sound l start goal s =
      made (planning.create_plan l start goal s).0 (planning.create_plan l start goal s).1

  abbrev HasPoses : R → Type 0
  HasPoses path = planning.has_no_poses path ≡ false

  not_empty-Sound : (path : R) (s : State H W) → Sound HasPoses (not_empty handles planning path s)
  unfolding not_empty
  not_empty-Sound path s =
      if_rule (Sound HasPoses) (planning.has_no_poses path) (λ _. tt) (λ poses. poses)

  error_code-range : (e : Exception) → (200 ≤ error_code e) × (error_code e ≤ 208)
  error_code-range e = ground arith

  module _ (laws : AreHandles handles) where
    check_cancel-Sound : (s : State H W) → Sound AnyValue (check_cancel handles planning s)
    unfolding check_cancel
    check_cancel-Sound s =
        if_rule (Sound AnyValue) (is_cancel_requested handles s.server s.world)
          (λ _. terminate_all-IsOver handles laws s.server s.world) (λ _. tt)

    plan-Sound :
        (m : Planners I L) (r : Request I P) (s : State H W)
        → Sound HasPoses (plan handles planning m r s)
    unfolding plan
    plan-Sound m r s = and_then-Sound HasPoses _ _ (check_cancel-Sound s) (λ _ s1.
        and_then-Sound HasPoses _ _ (start_of-Sound r s1) (λ start s2.
          and_then-Sound HasPoses _ _ (in_global_frame-Sound start s2) (λ start' s3.
            and_then-Sound HasPoses _ _ (in_global_frame-Sound r.goal s3) (λ goal s4.
              and_then-Sound HasPoses _ _ (check_cancel-Sound s4) (λ _ s5.
                and_then-Sound HasPoses _ _ (find_planner-Sound m r.planner_id s5) (λ l s6.
                  and_then-Sound HasPoses _ _ (make-Sound l start' goal s6) (λ path s7.
                    and_then-Sound HasPoses _ _ (check_cancel-Sound s7)
                      (λ _ s8. not_empty-Sound path s8))))))))

    finish-Settles : (a : Attempt H W R) → Sound HasPoses a → Settles (finish handles planning a)
    unfolding finish
    finish-Settles (gives path s) poses =
        (refl, poses, succeeded_current-IsOver handles s.server (planning.publish path s.world))
    finish-Settles (throws e s) sound =
        let (low, high) = error_code-range e in
        (low, high, terminate_current-IsOver handles s.server s.world)
    finish-Settles (cancels s) over = over

    plan_for-Settles :
        (m : Planners I L) (goal : Option H) (s : State H W)
        → ((h : H) × (goal ≡ some h))
        → Settles (plan_for handles planning m goal s)
    unfolding plan_for
    plan_for-Settles m goal s (h, given) =
        rw (given, plan_for)
          (finish-Settles (plan handles planning m (planning.request h) s)
            (plan-Sound m (planning.request h) s))

    -- Where the handles obey their laws, with an active server and an active goal, and where a
    -- preemption is requested only by an active pending goal, computePlan dereferences no null
    -- pointer, whatever the transforms and the planner do: afterwards the goal that the server
    -- holds is no longer active; a path is reported with the code 0 and has poses; and any other
    -- report has a code from 200 to 208.
    pub compute_plan-Settles :
        (m : Planners I L) (s : State H W)
        → s.server.server_active ≡ true
        → active handles s.server.current_handle s.world ≡ true
        → (s.server.preempt_requested ≡ true
            → active handles s.server.pending_handle s.world ≡ true)
        → Settles (compute_plan handles planning m s)
    unfolding compute_plan preempted_goal
    compute_plan-Settles m s up live sound =
        if_rule Settles (not s.server.server_active) (λ off. absurd (ground arith))
          (λ _.
            if_rule Settles (is_cancel_requested handles s.server s.world)
              (λ _. terminate_all-IsOver handles laws s.server s.world)
              (λ _.
                if_rule
                  (λ (r : Option H × State H W). Settles (plan_for handles planning m r.0 r.1))
                  (is_preempt_requested s.server)
                  (λ on.
                    plan_for-Settles m _ _
                      (accept_pending_goal-some handles s.server s.world
                        (sound (is_preempt_requested_lem s.server on))).0)
                  (λ _.
                    plan_for-Settles m _ s (get_current_goal-some handles s.server s.world live))))
