-- ===== src/Navigation/BtServer/Settled.antt =====
-- The end of a goal in BtActionServer::executeCallback
-- (nav3d_behavior_tree/include/nav3d_behavior_tree/bt_action_server_impl.hpp).
use nav2_3d.Prelude.{
  true, Eq, beq_self, List, [], ◌∷◌, ◌≡◌, ◌≢◌, Bool-cases, inl, inr, refl, sym, subst,
}
use nav2_3d.ActionServer.{Handles}
use nav2_3d.ActionServer.Orphans.{AreHandles}
use nav2_3d.ActionServer.Slots.{
  IsOver, stays_over, terminate_current-IsOver, terminate_all-IsOver, succeeded_current-IsOver,
}
use nav2_3d.Navigation.Muxer.{Muxer, stop_navigating}
use nav2_3d.Navigation.Engine.{BtStatus, succeeded, failed, canceled}
use nav2_3d.Navigation.Session.{Session, Setup, Robot, Tree}
use nav2_3d.Navigation.BtServer.{
  meanwhile, clear_codes, clean_error_codes, on_completion, settle, refuse, complete,
}

module _ {ℓ} {H N F G P : Type 0} {W : Type ℓ} ⦃eh : Eq H⦄ ⦃en : Eq N⦄ ⦃ef : Eq F⦄ (empty : N)
    (handles : Handles H W) (robot : Robot H F G P W) (setup : Setup N F P)
    (tree : Tree H N W) where
  -- The muxer names another navigator or none.
  abbrev pub Apart : Muxer N → Type 0
  Apart m = m.current_navigator ≢ setup.name

  -- The muxer does not name the navigator, no internal error is kept, and the goal that the server holds is over.
  abbrev pub Released : Session H N F W → Type 0
  Released s = Apart s.muxer × (s.internal_error_code ≡ 0) × IsOver handles s.server s.world

  settle-IsOver :
      AreHandles handles
      → (rc : BtStatus) (s : Session H N F W)
      → let s' = settle empty handles robot setup tree rc s in IsOver handles s'.server s'.world
  unfolding settle
  settle-IsOver laws succeeded s = succeeded_current-IsOver handles s.server s.world
  settle-IsOver laws failed s = terminate_current-IsOver handles s.server s.world
  settle-IsOver laws canceled s = terminate_all-IsOver handles laws s.server s.world

  module _ (laws : AreHandles handles)
      (calm : (p : P) (x : H) (w : W)
        → handles.is_active x (robot.clear_error_code p w) ≡ true
        → handles.is_active x w ≡ true)
      (courteous : (w : W) (m : Muxer N) → Apart m → Apart (tree.others w m)) where
    clear_codes-active :
        (ps : List P) (x : H) (w : W)
        → handles.is_active x (clear_codes empty handles robot setup tree ps w) ≡ true
        → handles.is_active x w ≡ true
    unfolding clear_codes
    clear_codes-active [] x w live = live
    clear_codes-active (p ∷ ps) x w live =
        calm p x w (clear_codes-active ps x (robot.clear_error_code p w) live)

    pub clean_error_codes-Released :
        (s : Session H N F W)
        → Apart s.muxer
        → IsOver handles s.server s.world
        → Released (
            meanwhile empty handles robot setup tree
              (clean_error_codes empty handles robot setup tree s))
    unfolding clean_error_codes meanwhile
    clean_error_codes-Released s free over = (
      courteous _ s.muxer free,
      refl,
      stays_over handles s.server.current_handle s.world _
          (λ x. clear_codes-active setup.error_code_name_prefixes x s.world) over,
    )

    settle-muxer :
        (rc : BtStatus) (s : Session H N F W)
        → (settle empty handles robot setup tree rc s).muxer ≡ s.muxer
    unfolding settle
    settle-muxer succeeded s = refl
    settle-muxer failed s = refl
    settle-muxer canceled s = refl

    freed : (m : Muxer N) → setup.name ≢ empty → Apart (stop_navigating empty setup.name m)
    unfolding stop_navigating
    freed m nonempty = elim (Bool-cases (en.beq m.current_navigator setup.name)) [
      | inl mine ↦ rw mine (λ e. nonempty (sym e))
      | inr other ↦ rw other (λ e. absurd (cc (other, beq_self setup.name, e)))
    ]

    pub complete-Released :
        (rc : BtStatus) (s : Session H N F W)
        → setup.name ≢ empty
        → Released (complete empty handles robot setup tree rc s).1
    unfolding complete on_completion
    complete-Released rc s nonempty =
        let done =
          on_completion empty handles robot setup tree
            (record s { world = tree.halt_tree s.world }) in
        clean_error_codes-Released (settle empty handles robot setup tree rc done)
          (subst Apart (sym (settle-muxer rc done)) (freed s.muxer nonempty))
          (settle-IsOver laws rc done)

    pub refuse-Released :
        (s : Session H N F W) → Apart s.muxer → Released (refuse empty handles robot setup tree s).1
    unfolding refuse
    refuse-Released s free =
        clean_error_codes-Released (settle empty handles robot setup tree failed s)
          (subst Apart (sym (settle-muxer failed s)) free) (settle-IsOver laws failed s)
