-- ===== src/ActionServer/Slots.antt =====
-- What the methods of nav3d_util's simple_action_server.hpp leave in the slots of the two goals.
use nav2_3d.Prelude.{
  Bool, Bool-cases, if◌then◌else◌, not, ◌&&◌, Option-cases, true, false, Eq, ◌≡◌, refl, inl, inr,
  Option, none, some, arith,
}
use nav2_3d.ActionServer.{
  Handles, Server, active, terminate, terminate_current, terminate_slot, terminate_pending_goal,
  terminate_all, succeed_slot, succeeded_current, accept_pending_goal, abort_current,
  get_current_goal, get_pending_goal, is_preempt_requested,
}
use nav2_3d.ActionServer.Orphans.{AreHandles, terminate_keeps}

pub is_preempt_requested_lem :
    {H : Type 0} (s : Server H) {b : Bool} → is_preempt_requested s ≡ b → s.preempt_requested ≡ b
unfolding is_preempt_requested
is_preempt_requested_lem s eq = eq

module _ {ℓ} {H : Type 0} {W : Type ℓ} (handles : Handles H W) where
  -- The current goal is over.
  abbrev pub IsOver : Server H → W → Type 0
  IsOver s w = active handles s.current_handle w ≡ false

  pub accept_pending_goal-some :
      ⦃e : Eq H⦄ (s : Server H) (w : W)
      → active handles s.pending_handle w ≡ true
      → let r = accept_pending_goal handles s w in
        ((h : H) × (r.0 ≡ some h)) × (r.1.preempt_requested ≡ false)
  unfolding accept_pending_goal
  accept_pending_goal-some s w live = elim (Option-cases s.pending_handle) [
    | inl nothing ↦ absurd (cc)
    | inr (h, held) ↦
        let on : handles.is_active h w ≡ true = ground (arith, held, live) in
        rw (held, on, accept_pending_goal) ((h, refl), refl)
  ]

  pub get_current_goal-some :
      (s : Server H) (w : W)
      → active handles s.current_handle w ≡ true
      → (h : H) × (get_current_goal handles s w ≡ some h)
  unfolding get_current_goal
  get_current_goal-some s w live = elim (Option-cases s.current_handle) [
    | inl nothing ↦ absurd (cc)
    | inr (h, held) ↦ (h, ground (arith, held, live))
  ]

  pub get_pending_goal-some :
      (s : Server H) (w : W)
      → active handles s.pending_handle w ≡ true
      → (h : H) × (get_pending_goal handles s w ≡ some h)
  unfolding get_pending_goal
  get_pending_goal-some s w live = elim (Option-cases s.pending_handle) [
    | inl nothing ↦ absurd (cc)
    | inr (h, held) ↦ (h, ground (arith, held, live))
  ]

  -- The pending goal takes the place of the current one, which is aborted where it is another.
  pub accept_pending_goal-switches :
      ⦃e : Eq H⦄ (c p : H) (s : Server H) (w : W)
      → s.current_handle ≡ some c
      → s.pending_handle ≡ some p
      → handles.is_active p w ≡ true
      → accept_pending_goal handles s w ≡ (
        some p,
        record s { current_handle = some p; pending_handle = none; preempt_requested = false },
        if handles.is_active c w && not (e.beq c p) then handles.abort c w else w,
      )
  unfolding accept_pending_goal abort_current
  accept_pending_goal-switches c p s w held next live =
      rw (next, live, held, accept_pending_goal) refl

  pub terminate_pending_goal-none :
      (s : Server H) (w : W) → s.pending_handle ≡ none → terminate_pending_goal handles s w ≡ (s, w)
  unfolding terminate_pending_goal
  terminate_pending_goal-none s w nothing = rw (nothing, terminate_pending_goal) refl

  pub terminate_pending_goal-preempt :
      (s : Server H) (w : W)
      → (s.preempt_requested ≡ true → active handles s.pending_handle w ≡ true)
      → (terminate_pending_goal handles s w).0.preempt_requested ≡ false
  unfolding terminate_pending_goal
  terminate_pending_goal-preempt s w sound = elim (Bool-cases (active handles s.pending_handle w)) [
    | inl live ↦ rw (live, terminate_pending_goal) refl
    | inr off ↦ rw (off, terminate_pending_goal) (ground (arith, sound))
  ]

  terminate_over :
      (slot : Option H) (w : W) → let r = terminate handles slot w in active handles r.0 r.1 ≡ false
  unfolding terminate
  terminate_over none w = refl
  terminate_over (some h) w = elim (Bool-cases (handles.is_active h w)) [
    | inr off ↦ rw (off, terminate) off
    | inl on ↦ elim (Bool-cases (handles.is_canceling h w)) [
      | inl asked ↦ rw (on, asked, terminate) refl
      | inr quiet ↦ rw (on, quiet, terminate) refl
    ]
  ]

  pub terminate_current-IsOver :
      (s : Server H) (w : W) → let r = terminate_current handles s w in IsOver r.0 r.1
  unfolding terminate_current
  terminate_current-IsOver s w = terminate_over s.current_handle w

  succeed_over :
      (slot : Option H) (w : W)
      → let r = succeed_slot handles slot w in active handles r.0 r.1 ≡ false
  unfolding succeed_slot
  succeed_over none w = refl
  succeed_over (some h) w = elim (Bool-cases (handles.is_active h w)) [
    | inr off ↦ rw (off, succeed_slot) off
    | inl on ↦ rw (on, succeed_slot) refl
  ]

  pub succeeded_current-IsOver :
      (s : Server H) (w : W) → let r = succeeded_current handles s w in IsOver r.0 r.1
  unfolding succeeded_current
  succeeded_current-IsOver s w = succeed_over s.current_handle w

  -- What is over stays over in a world that activates nothing.
  pub stays_over :
      (slot : Option H) (w w' : W)
      → ((x : H) → handles.is_active x w' ≡ true → handles.is_active x w ≡ true)
      → active handles slot w ≡ false
      → active handles slot w' ≡ false
  stays_over none w w' quiet over = refl
  stays_over (some h) w w' quiet over = ground (arith, quiet h)

  pub terminate_all-IsOver :
      ⦃e : Eq H⦄ (laws : AreHandles handles) (s : Server H) (w : W)
      → let r = terminate_all handles s w in IsOver r.0 r.1
  unfolding terminate_all terminate_current terminate_slot
  terminate_all-IsOver laws s w =
      let (slot, w1) = terminate handles s.current_handle w in
      stays_over slot w1 (terminate handles s.pending_handle w1).1
        (λ x on. (terminate_keeps handles laws x s.pending_handle w1 on).0)
        (terminate_over s.current_handle w)
