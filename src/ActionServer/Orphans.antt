-- ===== src/ActionServer/Orphans.antt =====
-- The goals that the server holds, operation by operation (nav3d_util's simple_action_server.hpp).
use nav2_3d.Prelude.{
  true, false, not, Option, none, some, Eq, if_rule, ◌≡◌, ◌≢◌, ◌⊎◌, inl, inr, sym, ap, ◌∙◌, arith,
  Bool-cases, Option-cases,
}
use nav2_3d.ActionServer.{
  Handles, Server, active, terminate, abort_current, succeed_slot, feed_back, terminate_current,
  terminate_slot, terminate_all, accept_pending_goal, terminate_pending_goal, succeeded_current,
  publish_feedback,
}
use nav2_3d.ActionServer.Worker.{handle_accepted}

-- What the server relies on of the handles: a handle that reached a final state is not active, and no
-- call activates a handle.
pub record AreHandles {ℓ} {H : Type 0} {W : Type ℓ} (handles : Handles H W) : Type ℓ where
  pub abort_ends : (h : H) (w : W) → handles.is_active h (handles.abort h w) ≡ false
  pub canceled_ends : (h : H) (w : W) → handles.is_active h (handles.canceled h w) ≡ false
  pub succeed_ends : (h : H) (w : W) → handles.is_active h (handles.succeed h w) ≡ false
  pub abort_quiet :
      (h x : H) (w : W)
      → handles.is_active x (handles.abort h w) ≡ true
      → handles.is_active x w ≡ true
  pub canceled_quiet :
      (h x : H) (w : W)
      → handles.is_active x (handles.canceled h w) ≡ true
      → handles.is_active x w ≡ true
  pub succeed_quiet :
      (h x : H) (w : W)
      → handles.is_active x (handles.succeed h w) ≡ true
      → handles.is_active x w ≡ true
  pub send_quiet :
      (h x : H) (w : W)
      → handles.is_active x (handles.publish_feedback h w) ≡ true
      → handles.is_active x w ≡ true
  pub complete_quiet :
      (x : H) (w : W)
      → handles.is_active x (handles.complete w) ≡ true
      → handles.is_active x w ≡ true

-- The server holds the handle as the current or the pending one.
abbrev pub Holds : {H : Type 0} → Server H → H → Type 0
Holds s h = (s.current_handle ≡ some h) ⊎ (s.pending_handle ≡ some h)

-- A handle that is active is held.
abbrev pub Kept {ℓ} : {H : Type 0} {W : Type ℓ} → Handles H W → Server H → W → H → Type 0
Kept handles s w h = handles.is_active h w ≡ true → Holds s h

module _ {ℓ} {H : Type 0} {W : Type ℓ} ⦃e : Eq H⦄ (handles : Handles H W)
    (laws : AreHandles handles) where
  open handles use {is_active}
  open laws use {
    abort_ends, canceled_ends, succeed_ends, abort_quiet, canceled_quiet, succeed_quiet, send_quiet,
    complete_quiet,
  }

  -- What is active after `terminate` was active before, and is no longer in a slot only if it was
  -- not there before.
  pub terminate_keeps :
      (x : H) (slot : Option H) (w : W)
      → let r = terminate handles slot w in
        is_active x r.1 ≡ true → (is_active x w ≡ true) × (slot ≡ some x → r.0 ≡ some x)
  unfolding terminate
  terminate_keeps x none w live = (live, λ c. c)
  terminate_keeps x (some h) w live =
      ground (arith, canceled_ends h w, abort_ends h w, canceled_quiet h x w, abort_quiet h x w)

  pub terminate_current-Kept :
      (x : H) (s : Server H) (w : W)
      → Kept handles s w x
      → let r = terminate_current handles s w in Kept handles r.0 r.1 x
  unfolding terminate_current
  terminate_current-Kept x s w k live =
      let (before, slot) = terminate_keeps x s.current_handle w live in
      elim (k before) [ inl c ↦ inl (slot c) | inr p ↦ inr p ]

  terminate_slot-Kept :
      (x : H) (s : Server H) (w : W)
      → Kept handles s w x
      → let r = terminate_slot handles s w in Kept handles r.0 r.1 x
  unfolding terminate_slot
  terminate_slot-Kept x s w k live =
      let (before, slot) = terminate_keeps x s.pending_handle w live in
      elim (k before) [ inl c ↦ inl c | inr p ↦ inr (slot p) ]

  pub terminate_all-Kept :
      (x : H) (s : Server H) (w : W)
      → Kept handles s w x
      → let r = terminate_all handles s w in Kept handles r.0 r.1 x
  unfolding terminate_all
  terminate_all-Kept x s w k =
      let (s1, w1) = terminate_current handles s w in
      terminate_slot-Kept x s1 w1 (terminate_current-Kept x s w k)

  abort_current_keeps :
      (x : H) (slot : Option H) (pending : H) (w : W)
      → let w' = abort_current handles slot pending w in
        is_active x w' ≡ true → (is_active x w ≡ true) × (slot ≡ some x → x ≡ pending)
  unfolding abort_current
  abort_current_keeps x none pending w live = (live, λ c. cc)
  abort_current_keeps x (some h) pending w live =
      ground (arith, abort_ends h w, abort_quiet h x w, e.beq_iff h pending)

  pub accept_pending_goal-Kept :
      (x : H) (s : Server H) (w : W)
      → Kept handles s w x
      → let r = accept_pending_goal handles s w in Kept handles r.1 r.2 x
  unfolding accept_pending_goal
  accept_pending_goal-Kept x s w k = elim (Option-cases s.pending_handle) [
    | inl empty ↦ rw (empty, accept_pending_goal) k
    | inr (pending, held) ↦ elim (Bool-cases (is_active pending w)) [
      | inr over ↦ rw (held, accept_pending_goal) (rw (over, accept_pending_goal) k)
      | inl on ↦
          rw (held, accept_pending_goal)
            (rw (on, accept_pending_goal)
              λ live.
                let (before, slot) = abort_current_keeps x s.current_handle pending w live in
                elim (k before) [
                  | inl c ↦ inl (ap some (sym (slot c)))
                  | inr p ↦ inl (sym held ∙ p)
                ])
    ]
  ]

  pub terminate_pending_goal-Kept :
      (x : H) (s : Server H) (w : W)
      → Kept handles s w x
      → let r = terminate_pending_goal handles s w in Kept handles r.0 r.1 x
  unfolding terminate_pending_goal
  terminate_pending_goal-Kept x s w k =
      if_rule (λ (r : Server H × W). Kept handles r.0 r.1 x)
        (not (active handles s.pending_handle w)) (λ _. k) (λ _. terminate_slot-Kept x s w k)

  succeed_keeps :
      (x : H) (slot : Option H) (w : W)
      → let r = succeed_slot handles slot w in
        is_active x r.1 ≡ true → (is_active x w ≡ true) × (slot ≡ some x → r.0 ≡ some x)
  unfolding succeed_slot
  succeed_keeps x none w live = (live, λ c. c)
  succeed_keeps x (some h) w live = ground (arith, succeed_ends h w, succeed_quiet h x w)

  pub succeeded_current-Kept :
      (x : H) (s : Server H) (w : W)
      → Kept handles s w x
      → let r = succeeded_current handles s w in Kept handles r.0 r.1 x
  unfolding succeeded_current
  succeeded_current-Kept x s w k live =
      let (before, slot) = succeed_keeps x s.current_handle w live in
      elim (k before) [ inl c ↦ inl (slot c) | inr p ↦ inr p ]

  feed_back_quiet :
      (x : H) (slot : Option H) (w : W)
      → is_active x (feed_back handles slot w) ≡ true
      → is_active x w ≡ true
  unfolding feed_back
  feed_back_quiet x none w live = live
  feed_back_quiet x (some h) w live = ground (arith, send_quiet h x w)

  pub publish_feedback-Kept :
      (x : H) (s : Server H) (w : W)
      → Kept handles s w x
      → Kept handles s (publish_feedback handles s w) x
  unfolding publish_feedback
  publish_feedback-Kept x s w k live = k (feed_back_quiet x s.current_handle w live)

  -- An active handle that is terminated is no longer active, and an inactive slot holds no active one.
  pub terminate_ends :
      (x : H) (slot : Option H) (w : W)
      → active handles slot w ≡ true
      → is_active x (terminate handles slot w).1 ≡ true
      → (is_active x w ≡ true) × (slot ≢ some x)
  unfolding terminate
  terminate_ends x none w on live = absurd (ground arith)
  terminate_ends x (some h) w on live = (
    ground (arith, canceled_quiet h x w, abort_quiet h x w),
    λ c. ground (arith, canceled_ends h w, abort_ends h w),
  )

  pub inactive-ne :
      (x : H) (slot : Option H) (w : W)
      → active handles slot w ≡ false
      → is_active x w ≡ true
      → slot ≢ some x
  inactive-ne x none w off live = λ c. cc
  inactive-ne x (some h) w off live = λ c. ground arith

  -- A goal that enters is held, and so is any other that was held before and is still active.
  pub handle_accepted-Kept :
      (x h : H) (s : Server H) (w : W)
      → (x ≡ h) ⊎ Kept handles s w x
      → let r = handle_accepted handles h s w in Kept handles r.0 r.1 x
  unfolding handle_accepted terminate_slot
  handle_accepted-Kept x h s w k live = ground (
    arith,
    terminate_ends x s.pending_handle w,
    inactive-ne x s.pending_handle w,
    inactive-ne x s.current_handle w,
    k,
  )
