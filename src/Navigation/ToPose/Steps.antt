-- ===== src/Navigation/ToPose/Steps.antt =====
-- What NavigateToPoseNavigator (nav3d_bt_navigator/src/navigators/navigate_to_pose.cpp) leaves as it is,
-- and where it ends without a null pointer.
use nav2_3d.Prelude.{
  Bool, true, false, not, ◌&&◌, Eq, if◌then◌else◌, if_rule, some, ◌≡◌, refl, inl, inr, Bool-cases,
  ap, Option-cases, ◌∙◌,
}
use nav2_3d.ActionServer.{Handles, Server, active, publish_feedback}
use nav2_3d.ActionServer.Slots.{accept_pending_goal-some, terminate_pending_goal-preempt}
use nav2_3d.Navigation.Engine.{Run, ends, crashes, out_of_fuel, EndsIn, EndsIn-imply}
use nav2_3d.Navigation.Muxer.{Muxer}
use nav2_3d.Navigation.Session.{Session, Setup, Robot}
use nav2_3d.Navigation.ToPose.{
  set_internal_error, load_behavior_tree, initialize_goal_pose, goal_received, terminate_pending,
  accept_pending, same_tree, after_initialize, on_preempt, send_feedback,
}

module _ {ℓ} {H N F G P : Type 0} {W : Type ℓ} ⦃eh : Eq H⦄ ⦃ef : Eq F⦄ (handles : Handles H W)
    (robot : Robot H F G P W) (setup : Setup N F P) where
  open robot use {behavior_tree, get_current_pose, transform_goal_pose, create_tree}

  -- The second session has the server and the muxer of the first.
  abbrev pub Same : Session H N F W → Session H N F W → Type 0
  Same s s' = (s'.muxer ≡ s.muxer) × (s'.server ≡ s.server)

  load_behavior_tree-Same :
      (f : F) (s : Session H N F W) → Same s (load_behavior_tree handles robot setup f s).1
  unfolding load_behavior_tree set_internal_error
  load_behavior_tree-Same f s =
      let filename : F =
        if ef.beq f robot.empty_filename then setup.default_bt_xml_filename else f in
      if_rule (λ (r : Bool × Session H N F W). Same s r.1)
        (not setup.always_reload_bt_xml && ef.beq s.current_bt_xml_filename filename)
        (λ _. (refl, refl))
        (λ _.
          if_rule (λ (r : Bool × Session H N F W). Same s r.1) (create_tree filename s.world).0
            (λ _. (refl, refl)) (λ _. (refl, refl)))

  pub initialize_goal_pose-Same :
      (h : H) (s : Session H N F W)
      → EndsIn
          (λ (r : Bool × Session H N F W). Same s r.1)
          (initialize_goal_pose handles robot setup (some h) s)
  unfolding initialize_goal_pose set_internal_error
  initialize_goal_pose-Same h s =
      let (available, w) = get_current_pose s.world in
      elim (Bool-cases available) [
        | inr off ↦ rw (off, initialize_goal_pose) (refl, refl)
        | inl on ↦ elim (Option-cases (transform_goal_pose h w).0) [
          | inl nowhere ↦ rw (on, nowhere, initialize_goal_pose) (refl, refl)
          | inr (pose, found) ↦ rw (on, found, initialize_goal_pose) (refl, refl)
        ]
      ]

  pub goal_received-Same :
      (h : H) (s : Session H N F W)
      → EndsIn
          (λ (r : Bool × Session H N F W). Same s r.1)
          (goal_received handles robot setup (some h) s)
  unfolding goal_received set_internal_error
  goal_received-Same h s =
      let (loaded, s') = load_behavior_tree handles robot setup (behavior_tree h) s in
      let same = load_behavior_tree-Same (behavior_tree h) s in
      elim (Bool-cases loaded) [
        | inr off ↦ rw (off, goal_received) same
        | inl on ↦
            rw (on, goal_received)
              (EndsIn-imply (initialize_goal_pose handles robot setup (some h) s')
                (λ r (muxer, server). (muxer ∙ same.0, server ∙ same.1))
                (initialize_goal_pose-Same h s'))
      ]

  -- What depends on the server and the muxer alone outlives the feedback.
  pub send_feedback-Same :
      (s : Session H N F W) (Q : Session H N F W → Type 0)
      → ((w : W) → Q (record s { world = w }))
      → Q (send_feedback handles robot setup s)
  unfolding send_feedback
  send_feedback-Same s Q any =
      if_rule Q (not (get_current_pose s.world).0) (λ _. any (get_current_pose s.world).1)
        (λ _. any (publish_feedback handles s.server (get_current_pose s.world).1))

  -- A preemption has been asked for and its goal is still active.
  abbrev pub Sound : Session H N F W → Type 0
  Sound s =
      s.server.preempt_requested ≡ true → active handles s.server.pending_handle s.world ≡ true

  terminate_pending_lem :
      (s : Session H N F W)
      → Sound s
      → let s' = terminate_pending handles robot setup s in
        (s'.muxer ≡ s.muxer) × (s'.server.preempt_requested ≡ false)
  unfolding terminate_pending
  terminate_pending_lem s sound =
      (refl, terminate_pending_goal-preempt handles s.server s.world sound)

  -- No preemption is asked for, and the muxer is `m`.
  abbrev pub Served : Muxer N → Session H N F W → Type 0
  Served m s = (s.muxer ≡ m) × (s.server.preempt_requested ≡ false)

  after_initialize-Served :
      (m : Muxer N) (r : Run (Bool × Session H N F W))
      → EndsIn (λ (r : Bool × Session H N F W). Served m r.1) r
      → EndsIn (Served m) (after_initialize handles robot setup r)
  unfolding after_initialize
  after_initialize-Served m (ends (initialized, s)) (named, served) =
      if_rule (Served m) (not initialized)
        (λ _.
          let (same, off) = terminate_pending_lem s (λ asked. absurd (cc)) in (same ∙ named, off))
        (λ _. (named, served))
  after_initialize-Served m crashes never = absurd never
  after_initialize-Served m out_of_fuel never = absurd never

  pub on_preempt_lem :
      (h : H) (s : Session H N F W)
      → active handles s.server.pending_handle s.world ≡ true
      → EndsIn (Served s.muxer) (on_preempt handles robot setup (some h) s)
  unfolding on_preempt after_initialize accept_pending
  on_preempt_lem h s live = elim (Bool-cases (same_tree handles robot setup h s)) [
    | inr other ↦ rw (other, on_preempt) (terminate_pending_lem s (λ _. live))
    | inl same ↦
        let (goal, s') = accept_pending handles robot setup s in
        let ((h', taken), off) = accept_pending_goal-some handles s.server s.world live in
        rw (same, on_preempt, taken)
          (after_initialize-Served s.muxer (initialize_goal_pose handles robot setup (some h') s') (
            EndsIn-imply (initialize_goal_pose handles robot setup (some h') s')
              (λ r (muxer, server).
                (muxer, ap (λ (x : Server H). x.preempt_requested) server ∙ off))
              (initialize_goal_pose-Same h' s')))
  ]
