-- ===== src/Navigation/BtServer/Preempt.antt =====
-- Goals that preempt the one that BtActionServer carries out, at the edges: on the tick that ends the
-- tree, and where the robot's pose is not available (bt_action_server_impl.hpp of
-- nav3d_behavior_tree/include/nav3d_behavior_tree, and onPreempt of
-- nav3d_bt_navigator/src/navigators/navigate_to_pose.cpp).
use nav2_3d.Prelude.{
  ℕ, suc, Bool, true, false, not, Eq, if_rule, Option, none, some, ◌≡◌, ◌≢◌, refl, ap, sym, subst,
  beq_ne,
}
use nav2_3d.BehaviorTree.{returned, success}
use nav2_3d.ActionServer.{Handles, Server, is_preempt_requested, get_pending_goal}
use nav2_3d.ActionServer.Slots.{accept_pending_goal-switches, terminate_pending_goal-none}
use nav2_3d.Navigation.Engine.{
  BtStatus, succeeded, Run, ends, crashes, out_of_fuel, normal, EndsIn, EndsIn-imply, run,
}
use nav2_3d.Navigation.Engine.Ending.{run-last}
use nav2_3d.Navigation.Session.{Session, Setup, Robot, Tree}
use nav2_3d.Navigation.ToPose.{
  tf_error, same_tree, accept_pending, terminate_pending, initialize_goal_pose, after_initialize,
  on_preempt, set_internal_error,
}
use nav2_3d.Navigation.ToPose.Steps.{send_feedback-Same, initialize_goal_pose-Same}
use nav2_3d.Navigation.BtServer.{meanwhile, is_canceling, on_loop, after_preempt, callbacks}

module _ {ℓ} {H N F G P : Type 0} {W : Type ℓ} ⦃eh : Eq H⦄ ⦃en : Eq N⦄ ⦃ef : Eq F⦄ (empty : N)
    (handles : Handles H W) (robot : Robot H F G P W) (setup : Setup N F P)
    (tree : Tree H N W) where
  -- The server holds `c` and a goal `p` that is active asks to preempt it.
  abbrev pub Asks : H → H → Server H → W → Type 0
  Asks c p server w =
      (server.current_handle ≡ some c)
      × (server.pending_handle ≡ some p)
      × (server.preempt_requested ≡ true)
      × (handles.is_active p w ≡ true)

  -- The server holds `p` and no other goal, and no preemption is asked for.
  abbrev pub Switched : H → Server H → Type 0
  Switched p server =
      (server.current_handle ≡ some p)
      × (server.pending_handle ≡ none)
      × (server.preempt_requested ≡ false)

  -- A goal asks, with the tree that is loaded, to preempt another goal, both are active, and the
  -- pose of the robot is not available: after onPreempt the other goal has been aborted, the new
  -- goal is the current one, nothing is pending and no preemption is requested, the internal error
  -- is TF_ERROR, and the goal on the blackboard is still the old one: nothing but the abort and
  -- the question for the pose has touched the world.
  pub on_preempt-rejected :
      (c p : H) (s : Session H N F W)
      → Asks c p s.server s.world
      → c ≢ p
      → handles.is_active c s.world ≡ true
      → same_tree handles robot setup p s ≡ true
      → (robot.get_current_pose (handles.abort c s.world)).0 ≡ false
      → on_preempt handles robot setup (some p) s
        ≡ ends (record s {
          server = record (s.server) {
            current_handle = some p;
            pending_handle = none;
            preempt_requested = false;
          };
          world = (robot.get_current_pose (handles.abort c s.world)).1;
          internal_error_code = tf_error;
        })
  unfolding on_preempt accept_pending initialize_goal_pose after_initialize terminate_pending
      set_internal_error
  on_preempt-rejected c p s (held, next, asked, on) other live same lost =
      let switches = accept_pending_goal-switches handles c p s.server s.world held next on in
      rw (same, on_preempt, switches, live, beq_ne c p other, lost)
        (ap
          (λ (r : Server H × W).
            ends (record s { server = r.0; world = r.1; internal_error_code = tf_error }))
          (terminate_pending_goal-none handles _ _ refl))

  -- A preemption that is accepted leaves the new goal in the place of the old one, whether or not its pose
  -- can be had.
  after_initialize-Switched :
      (p : H) (r : Run (Bool × Session H N F W))
      → EndsIn (λ (r' : Bool × Session H N F W). Switched p r'.1.server) r
      → EndsIn
          (λ (s : Session H N F W). Switched p s.server)
          (after_initialize handles robot setup r)
  unfolding after_initialize terminate_pending
  after_initialize-Switched p (ends (initialized, s)) switched =
      if_rule (λ (s' : Session H N F W). Switched p s'.server) (not initialized)
        (λ _. rw (terminate_pending_goal-none handles s.server s.world switched.1) switched)
        (λ _. switched)
  after_initialize-Switched p crashes never = absurd never
  after_initialize-Switched p out_of_fuel never = absurd never

  after_preempt-Switched :
      (p : H) (s : Session H N F W) (r : Run (Session H N F W))
      → EndsIn (λ (s' : Session H N F W). Switched p s'.server) r
      → let r' = after_preempt empty handles robot setup tree s r in
        (r'.0 ≡ normal) × Switched p r'.1.server
  unfolding after_preempt
  after_preempt-Switched p s (ends s') switched = (
    refl,
    send_feedback-Same handles robot setup s' (λ (x : Session H N F W). Switched p x.server)
        (λ w. switched),
  )
  after_preempt-Switched p s crashes never = absurd never
  after_preempt-Switched p s out_of_fuel never = absurd never

  on_preempt-Switched :
      (c p : H) (s : Session H N F W)
      → Asks c p s.server s.world
      → same_tree handles robot setup p s ≡ true
      → EndsIn
          (λ (s' : Session H N F W). Switched p s'.server)
          (on_preempt handles robot setup (some p) s)
  unfolding on_preempt accept_pending
  on_preempt-Switched c p s (held, next, asked, on) same =
      let (goal, taken) = accept_pending handles robot setup s in
      let switches = accept_pending_goal-switches handles c p s.server s.world held next on in
      let start : Switched p taken.server =
        subst (λ (r : Option H × Server H × W). Switched p r.1) (sym switches) (refl, refl, refl) in
      rw (same, on_preempt, ap (λ (r : Option H × Server H × W). r.0) switches)
        (after_initialize-Switched p (initialize_goal_pose handles robot setup (some p) taken) (
          EndsIn-imply (initialize_goal_pose handles robot setup (some p) taken)
            (λ r (muxer, server). subst (Switched p) (sym server) start)
            (initialize_goal_pose-Same handles robot setup p taken)))

  Asks-requested :
      (c p : H) (server : Server H) (w : W) → Asks c p server w → is_preempt_requested server ≡ true
  unfolding is_preempt_requested
  Asks-requested c p server w (held, next, asked, on) = asked

  Asks-pending :
      (c p : H) (server : Server H) (w : W)
      → Asks c p server w
      → get_pending_goal handles server w ≡ some p
  unfolding get_pending_goal
  Asks-pending c p server w (held, next, asked, on) = rw (next, on) refl

  on_loop-Switched :
      (c p : H) (s : Session H N F W)
      → Asks c p s.server s.world
      → same_tree handles robot setup p s ≡ true
      → let r = on_loop empty handles robot setup tree s in (r.0 ≡ normal) × Switched p r.1.server
  unfolding on_loop
  on_loop-Switched c p s asks same =
      rw (Asks-requested c p s.server s.world asks, Asks-pending c p s.server s.world asks, on_loop)
        (after_preempt-Switched p s (on_preempt handles robot setup (some p) s)
          (on_preempt-Switched c p s asks same))

  -- Where a goal that asks for the tree that is loaded arrives during the tick that returns
  -- SUCCESS, the run ends with SUCCEEDED and the server holds the new goal, which no tick has
  -- seen.
  pub run-hands_over :
      (c p : H) (fuel : ℕ) (s : Session H N F W)
      → let t = tree.tick_once s.server s.world in
        tree.ok s.world ≡ true
        → is_canceling empty handles robot setup tree s ≡ false
        → t.0 ≡ returned success
        → Asks c p t.1 t.2
        → same_tree handles robot setup p s ≡ true
        → EndsIn
            (λ (end : BtStatus × Session H N F W). (end.0 ≡ succeeded) × Switched p end.1.server)
            (run (callbacks empty handles robot setup tree) (suc (suc fuel)) s)
  unfolding same_tree meanwhile
  run-hands_over c p fuel s up quiet ended asks same =
      let (o, server, w) = tree.tick_once s.server s.world in
      let s1 : Session H N F W =
        meanwhile empty handles robot setup tree (record s { server = server; world = w }) in
      let (calm, switched) = on_loop-Switched c p s1 asks same in
      rw (run-last (callbacks empty handles robot setup tree) fuel s up quiet ended calm)
        (refl, switched)
