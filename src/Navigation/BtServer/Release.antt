-- ===== src/Navigation/BtServer/Release.antt =====
-- What BtActionServer::executeCallback (nav3d_behavior_tree/include/nav3d_behavior_tree/bt_action_server_impl.hpp)
-- leaves when it has carried out a goal.
use nav2_3d.Prelude.{
  ℕ, ◌+◌, ◌<◌, Bool, true, false, Eq, Bool-cases, some, ◌≡◌, ◌≢◌, refl, ap, sym, subst, ◌∙◌, ◌⊎◌,
  inl, inr, arith,
}
use nav2_3d.BehaviorTree.{NodeStatus, Outcome, returned, thrown}
use nav2_3d.ActionServer.{Handles, Server, active, is_preempt_requested}
use nav2_3d.ActionServer.Orphans.{AreHandles}
use nav2_3d.ActionServer.Slots.{
  get_current_goal-some, get_pending_goal-some, is_preempt_requested_lem,
}
use nav2_3d.Navigation.Muxer.{Muxer, is_navigating}
use nav2_3d.Navigation.Engine.{
  BtStatus, succeeded, failed, canceled, Call, normal, Run, ends, crashes, out_of_fuel, EndsIn,
  EndsIn-imply, is_running, run,
}
use nav2_3d.Navigation.Engine as Engine
use nav2_3d.Navigation.Engine.Ending.{Turn, run-EndsIn}
use nav2_3d.Navigation.Session.{Session, Setup, Robot, Tree}
use nav2_3d.Navigation.ToPose.{goal_received, on_preempt}
use nav2_3d.Navigation.ToPose.Steps.{
  Same, Sound, Served, goal_received-Same, on_preempt_lem, send_feedback-Same,
}
use nav2_3d.Navigation.BtServer.Settled.{Apart, Released, complete-Released, refuse-Released}
use nav2_3d.Navigation.BtServer.{
  meanwhile, Report, after_goal_received, on_goal_received, is_canceling, after_preempt, on_loop,
  callbacks, after_run, after_received, execute_callback,
}

Outcome-cases : (o : Outcome) → (o ≡ thrown) ⊎ ((r : NodeStatus) × (o ≡ returned r))
Outcome-cases thrown = inl refl
Outcome-cases (returned r) = inr (r, refl)

is_running→running : (r : NodeStatus) → is_running r ≡ true → r ≡ NodeStatus.running
is_running→running r runs = ground arith

module _ {ℓ} {H N F G P : Type 0} {W : Type ℓ} ⦃eh : Eq H⦄ ⦃en : Eq N⦄ ⦃ef : Eq F⦄ (empty : N)
    (handles : Handles H W) (robot : Robot H F G P W) (setup : Setup N F P)
    (tree : Tree H N W) where
  after_preempt-Served :
      (s : Session H N F W) (r : Run (Session H N F W))
      → EndsIn (Served handles robot setup s.muxer) r
      → let r' = after_preempt empty handles robot setup tree s r in
        (r'.0 ≢ Engine.Call.crashes) × Served handles robot setup s.muxer r'.1
  unfolding after_preempt
  after_preempt-Served s (ends s') served = (
    (λ crash. cc),
    send_feedback-Same handles robot setup s' (Served handles robot setup s.muxer) (λ w. served),
  )
  after_preempt-Served s crashes never = absurd never
  after_preempt-Served s out_of_fuel never = absurd never

  on_loop_lem :
      (s : Session H N F W)
      → Sound handles robot setup s
      → let r = on_loop empty handles robot setup tree s in
        (r.0 ≢ Engine.Call.crashes) × Served handles robot setup s.muxer r.1
  unfolding on_loop
  on_loop_lem s sound = elim (Bool-cases (is_preempt_requested s.server)) [
    | inr quiet ↦
        rw (quiet, on_loop)
          (after_preempt-Served s (ends s) (refl, is_preempt_requested_lem s.server quiet))
    | inl asked ↦
        let live = sound (is_preempt_requested_lem s.server asked) in
        let (h, pending) = get_pending_goal-some handles s.server s.world live in
        rw (asked, pending, on_loop)
          (after_preempt-Served s (on_preempt handles robot setup (some h) s)
            (on_preempt_lem handles robot setup h s live))
  ]

  module _ (laws : AreHandles handles)
      (calm : (p : P) (x : H) (w : W)
        → handles.is_active x (robot.clear_error_code p w) ≡ true
        → handles.is_active x w ≡ true)
      (nonempty : setup.name ≢ empty)
      (courteous : (w : W) (m : Muxer N)
        → m.current_navigator ≢ setup.name
        → (tree.others w m).current_navigator ≢ setup.name) where
    module _ (turns : Session H N F W → ℕ)
        (sound : (server : Server H) (w : W)
          → server.preempt_requested ≡ false
          → let t = tree.tick_once server w in
            t.1.preempt_requested ≡ true → active handles t.1.pending_handle t.2 ≡ true)
        (fewer : (s : Session H N F W)
          → let c = callbacks empty handles robot setup tree in
            c.ok s ≡ true
            → c.cancel_requested s ≡ false
            → let t = c.tick_once s in
              t.0 ≡ returned NodeStatus.running → turns (c.sleep (c.on_loop t.1).1) < turns s) where
      abbrev Ready : Session H N F W → Type 0
      Ready s = s.server.preempt_requested ≡ false

      -- `onGoalReceived` has accepted the goal or not.
      abbrev Received : Bool × Session H N F W → Type 0
      Received (true, s) = Ready s
      Received (false, s) = Apart empty handles robot setup tree s.muxer

      turn_lem :
          (s : Session H N F W)
          → Ready s
          → tree.ok s.world ≡ true
          → is_canceling empty handles robot setup tree s ≡ false
          → let c = callbacks empty handles robot setup tree in
            let t = c.tick_once s in Turn c Ready (λ s'. Unit) turns s t.0 t.1
      unfolding meanwhile
      turn_lem s served up quiet =
          let (o, server, w) = tree.tick_once s.server s.world in
          let s1 : Session H N F W =
            meanwhile empty handles robot setup tree (record s { server = server; world = w }) in
          elim (Outcome-cases o) [
            | inl out ↦ rw (out) tt
            | inr (r, gave) ↦
                let (safe, (same, off)) = on_loop_lem s1 (sound s.server s.world served) in
                rw (gave) (
                  safe,
                  tt,
                  off,
                  λ runs. fewer s up quiet (gave ∙ ap returned (is_running→running r runs)),
                )
          ]

      runs-Released :
          (fuel : ℕ) (s : Session H N F W)
          → Ready s
          → turns s + 1 < fuel
          → EndsIn
              (λ (end : BtStatus × Session H N F W). Unit)
              (run (callbacks empty handles robot setup tree) fuel s)
      runs-Released fuel s i enough =
          run-EndsIn (callbacks empty handles robot setup tree) Ready (λ s'. Unit) turns
            (λ s' i'. tt) (λ s' i'. tt) turn_lem fuel s i enough

      ended-Released :
          (r : Run (BtStatus × Session H N F W))
          → EndsIn (λ (end : BtStatus × Session H N F W). Unit) r
          → EndsIn
              (λ (r' : Report × Session H N F W). Released empty handles robot setup tree r'.1)
              (after_run empty handles robot setup tree r)
      unfolding after_run
      ended-Released (ends (rc, s)) over =
          complete-Released empty handles robot setup tree laws calm courteous rc s nonempty
      ended-Released crashes never = absurd never
      ended-Released out_of_fuel never = absurd never

      after_goal_received-Received :
          (s : Session H N F W) (r : Run (Bool × Session H N F W))
          → Apart empty handles robot setup tree s.muxer
          → s.server.preempt_requested ≡ false
          → EndsIn (λ (r' : Bool × Session H N F W). Same handles robot setup s r'.1) r
          → EndsIn Received (after_goal_received empty handles robot setup tree r)
      unfolding after_goal_received meanwhile
      after_goal_received-Received s (ends (true, s')) free served (muxer, server) =
          ap (λ (x : Server H). x.preempt_requested) server ∙ served
      after_goal_received-Received s (ends (false, s')) free served (muxer, server) =
          courteous s'.world s'.muxer
            (subst (Apart empty handles robot setup tree) (sym muxer) free)
      after_goal_received-Received s crashes free served never = absurd never
      after_goal_received-Received s out_of_fuel free served never = absurd never

      on_goal_received-Received :
          (h : H) (s : Session H N F W)
          → Apart empty handles robot setup tree s.muxer
          → s.server.preempt_requested ≡ false
          → EndsIn Received (on_goal_received empty handles robot setup tree (some h) s)
      unfolding on_goal_received
      on_goal_received-Received h s free served = elim (Bool-cases (is_navigating empty s.muxer)) [
        | inl taken ↦ rw (taken, on_goal_received) free
        | inr vacant ↦
            rw (vacant, on_goal_received)
              (after_goal_received-Received s (goal_received handles robot setup (some h) s) free
                served (goal_received-Same handles robot setup h s))
      ]

      Received-Released :
          (fuel : ℕ) (r : Run (Bool × Session H N F W))
          → ((s' : Session H N F W) → turns s' + 1 < fuel)
          → EndsIn (λ (r : Bool × Session H N F W). Received r) r
          → EndsIn
              (λ (r : Report × Session H N F W). Released empty handles robot setup tree r.1)
              (after_received empty handles robot setup tree fuel r)
      unfolding after_received after_run
      Received-Released fuel (ends (true, s')) enough i =
          ended-Released _ (runs-Released fuel s' i (enough s'))
      Received-Released fuel (ends (false, s')) enough free =
          refuse-Released empty handles robot setup tree laws calm courteous s' free
      Received-Released fuel crashes enough never = absurd never
      Received-Released fuel out_of_fuel enough never = absurd never

      -- A goal that is taken up while the muxer does not name the navigator ends, whatever the
      -- other navigators make of the muxer in the meantime: executeCallback dereferences no null
      -- pointer, and afterwards the muxer does not name the navigator, no internal error is kept,
      -- and the goal that the server then holds is no longer active, whether the muxer is taken by
      -- another navigator or free, and the tree is loaded or not, succeeds, fails, throws, is
      -- cancelled or is given other goals. The conditions: the name of the navigator is not empty
      -- and the other navigators do not put it into the muxer; the current goal is active and no
      -- preemption is requested at the start; a tick leaves no preemption request whose goal is
      -- not active, if there was no request before it; a measure falls with every round after
      -- which the tree goes on running, and is everywhere below the fuel less one; clearing an
      -- error code activates no handle; and the handles obey their laws (a finished handle is not
      -- active and no call of the server activates one).
      pub execute_callback-Released :
          (fuel : ℕ) (s : Session H N F W)
          → s.muxer.current_navigator ≢ setup.name
          → s.server.preempt_requested ≡ false
          → active handles s.server.current_handle s.world ≡ true
          → ((s' : Session H N F W) → turns s' + 1 < fuel)
          → EndsIn
              (λ (r : Report × Session H N F W). Released empty handles robot setup tree r.1)
              (execute_callback empty handles robot setup tree fuel s)
      unfolding execute_callback
      execute_callback-Released fuel s free served live enough =
          let (h, goal) = get_current_goal-some handles s.server s.world live in
          rw (goal, execute_callback)
            (Received-Released fuel (on_goal_received empty handles robot setup tree (some h) s)
              enough (on_goal_received-Received h s free served))
