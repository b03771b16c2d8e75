-- ===== src/ActionServer/Stopped.antt =====
-- What the server leaves when it stops: the goals that are terminated together.
use nav2_3d.Prelude.{
  All-imply, true, false, Option, none, some, Eq, ◌≡◌, ◌≢◌, inl, inr, refl, subst, arith,
  Bool-cases, List, All,
}
use nav2_3d.ActionServer.{
  Handles, Server, active, terminate, terminate_current, terminate_slot, terminate_all,
}
use nav2_3d.ActionServer.Worker.{stop_all, end_turn}
use nav2_3d.ActionServer.Orphans.{AreHandles, Kept, terminate_ends, inactive-ne}
use nav2_3d.ActionServer.Events.{Event, run, entered}
use nav2_3d.ActionServer.Held.{run-Kept}

module _ {ℓ} {H : Type 0} {W : Type ℓ} ⦃e : Eq H⦄ (handles : Handles H W)
    (laws : AreHandles handles) where
  open handles use {is_active}

  terminate_idle :
      (slot : Option H) (w : W)
      → active handles slot w ≡ false
      → terminate handles slot w ≡ (slot, w)
  unfolding terminate
  terminate_idle none w off = refl
  terminate_idle (some h) w off = ground arith

  terminate_rids :
      (x : H) (slot : Option H) (w : W)
      → is_active x (terminate handles slot w).1 ≡ true
      → (is_active x w ≡ true) × (slot ≢ some x)
  terminate_rids x slot w live = elim (Bool-cases (active handles slot w)) [
    | inl on ↦ terminate_ends handles laws x slot w on live
    | inr off ↦
        let before : is_active x w ≡ true =
          subst (λ (r : Option H × W). is_active x r.1 ≡ true) (terminate_idle slot w off) live in
        (before, inactive-ne handles laws x slot w off before)
  ]

  terminate_all_ends :
      (x : H) (s : Server H) (w : W)
      → Kept handles s w x
      → is_active x (terminate_all handles s w).1 ≡ false
  unfolding terminate_all terminate_current terminate_slot
  terminate_all_ends x s w k = elim (Bool-cases (is_active x (terminate_all handles s w).1)) [
    | inr off ↦ off
    | inl on ↦
        let (slot, w1) = terminate handles s.current_handle w in
        let (live, not_pending) = terminate_rids x s.pending_handle w1 on in
        let (before, not_current) = terminate_rids x s.current_handle w live in
        absurd (elim (k before) [ inl c ↦ not_current c | inr p ↦ not_pending p ])
  ]

  stop_all-ends :
      (x : H) (s : Server H) (w : W)
      → Kept handles s w x
      → is_active x (stop_all handles s w).1 ≡ false
  unfolding stop_all
  stop_all-ends x s w k =
      ground
        (arith, laws.complete_quiet x (terminate_all handles s w).1, terminate_all_ends x s w k)

  end_turn-ends :
      (x : H) (s : Server H) (w : W)
      → s.stop_execution ≡ true
      → Kept handles s w x
      → is_active x (end_turn handles s w).1 ≡ false
  unfolding end_turn
  end_turn-ends x s w stop k = rw (stop, end_turn) (stop_all-ends x s w k)

  -- If the handles obey their laws: at the end of a turn of the worker at which a stop is
  -- requested, after any history that starts where every active goal that entered is held, no goal
  -- that has entered is left active.
  pub stopped_turn-Ended :
      (vs : List (Event handles)) (s : Server H) (w : W) (hs : List H)
      → All (Kept handles s w) hs
      → (run handles vs s w).0.stop_execution ≡ true
      → let r = run handles vs s w in
        All (λ h. is_active h (end_turn handles r.0 r.1).1 ≡ false) (entered handles vs hs)
  stopped_turn-Ended vs s w hs k stop =
      let (s', w') = run handles vs s w in
      All-imply _ _ (λ h. end_turn-ends h s' w' stop) (entered handles vs hs)
        (run-Kept handles laws vs s w hs k)

  -- If the handles obey their laws: when the callback throws, and when deactivate finds its
  -- deadline passed, after any history that starts where every active goal that entered is held,
  -- no goal that has entered is left active.
  pub stop_all-Ended :
      (vs : List (Event handles)) (s : Server H) (w : W) (hs : List H)
      → All (Kept handles s w) hs
      → let r = run handles vs s w in
        All (λ h. is_active h (stop_all handles r.0 r.1).1 ≡ false) (entered handles vs hs)
  stop_all-Ended vs s w hs k =
      let (s', w') = run handles vs s w in
      All-imply _ _ (λ h kept. stop_all-ends h s' w' kept) (entered handles vs hs)
        (run-Kept handles laws vs s w hs k)
