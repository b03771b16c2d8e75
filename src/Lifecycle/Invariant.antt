-- ===== src/Lifecycle/Invariant.antt =====
-- What holds of the manager between two callbacks.
pub mod Commands
pub mod Timers
use nav2_3d.Prelude.{
  ℕ, ◌≡◌, ◌≢◌, refl, sym, ap, subst, ◌∙◌, ◌⊎◌, inl, inr, Bool, true, false, not, ◌&&◌, List, [],
  ◌∷◌, reverse, Eq, contains, erase, if◌then◌else◌, All, Covers, Bool-cases, arith, beq_self,
}
use nav2_3d.Prelude.Int.{ℤ, is_positive}
use nav2_3d.Lifecycle.Services.{
  Transition, configure, cleanup, activate, deactivate, unconfigured_shutdown, State, unconfigured,
  inactive, active, finalized, unknown, in_transition, Result, returns, throws, null_dereference,
  Nodes, result_cases, is_returned, is_thrown, is_null,
}
use nav2_3d.Lifecycle.Manager.{Manager, Done, change_loop, order, change_state_for_all_nodes}
use nav2_3d.Lifecycle.Operations.{
  Command, startup_command, pause_command, resume_command, reset_command, shutdown_command,
  other as other_command, startup, resume, pause, reset, shutdown, manager_callback, then_with,
  done, now_active, now_inactive, on_activated, on_configured, on_cleaned, on_deactivated,
  after_cleanup, after_deactivation, after_shutdown, shutdown_all_nodes, destroy_clients,
  on_rcl_preshutdown, init, create_clients,
}
use nav2_3d.Lifecycle.Bonds.{
  on_broken, after_hard_reset, bond_loop, census, stop_respawn, after_census, note_start, Census,
  counted, interrupted, null_client, size, check_bond_connections, check_bond_respawn_connection,
}
use nav2_3d.Lifecycle.Changes.{
  Frame, names_of_Frame, timeout_of_Frame, loop-Frame, loop-keeps_bonds, loop-bonded,
}

pub record Inv {Name : Type 0} ⦃e : Eq Name⦄ (m : Manager Name) : Type 0 where
  -- The bond timer runs only in an active system that uses bonds.
  pub timer_active :
      m.bond_timer ≡ true → (m.system_active ≡ true) × (is_positive m.bond_timeout ≡ true)
  -- An active system that uses bonds has a bond with every managed node.
  pub bonded :
      m.system_active ≡ true → is_positive m.bond_timeout ≡ true → Covers m.node_names m.bonds

-- The system is inactive and its timer is off.
abbrev pub Idle : {Name : Type 0} → Manager Name → Type 0
Idle m = (m.system_active ≡ false) × (m.bond_timer ≡ false)

pub Idle-Inv : {Name : Type 0} ⦃e : Eq Name⦄ (m : Manager Name) → Idle m → Inv m
Idle-Inv m h = record { timer_active = λ t. cc; bonded = λ a _. cc }

pub Frame-Idle : {Name : Type 0} (m m' : Manager Name) → Frame m m' → Idle m → Idle m'
Frame-Idle m m' f h = subst Idle (sym f) h

pub Frame-Inv :
    {Name : Type 0} ⦃e : Eq Name⦄ (m m' : Manager Name)
    → Frame m m'
    → (Covers m.node_names m.bonds → Covers m.node_names m'.bonds)
    → Inv m
    → Inv m'
Frame-Inv m m' f grown h =
    subst Inv (sym f)
      (record { timer_active = h.timer_active; bonded = λ a t. grown (h.bonded a t) })

-- What holds of the manager after a call and after what follows it.
pub then_rule {ℓ κ} :
    {Name : Type 0} {W : Type ℓ} (P : Manager Name → Type κ) (d : Done Name W)
    (k : Bool → Manager Name → W → Done Name W)
    → P d.manager
    → ((b : Bool) → d.result ≡ returns b → P (k b d.manager d.world).manager)
    → P (then_with d k).manager
then_rule P d k early on = elim (result_cases d.result) [
  | is_returned b r ↦ rw r (on b r)
  | is_thrown r ↦ rw r early
  | is_null r ↦ rw r early
]

module _ {ℓ} {Name : Type 0} {W : Type ℓ} ⦃e : Eq Name⦄ (nodes : Nodes Name W) where
  pub Covers-keeps :
      (xs ns : List Name) (t : Transition) (hard : Bool) (m : Manager Name) (w : W)
      → t ≢ deactivate
      → Covers xs m.bonds
      → Covers xs (change_loop nodes ns t hard m w).manager.bonds
  Covers-keeps [] ns t hard m w up h = tt
  Covers-keeps (x ∷ xs) ns t hard m w up h =
      (loop-keeps_bonds nodes ns t hard m w x up h.0, Covers-keeps xs ns t hard m w up h.1)

  pub pass-Frame :
      (t : Transition) (hard : Bool) (m : Manager Name) (w : W)
      → Frame m (change_state_for_all_nodes nodes t hard m w).manager
  unfolding change_state_for_all_nodes
  pass-Frame t hard m w = loop-Frame nodes (order t m.node_names) t hard m w

  -- A pass that does not deactivate keeps the invariant, any pass keeps an idle manager idle.
  pub pass-Inv :
      (t : Transition) (hard : Bool) (m : Manager Name) (w : W)
      → t ≢ deactivate
      → Inv m
      → Inv (change_state_for_all_nodes nodes t hard m w).manager
  unfolding change_state_for_all_nodes
  pass-Inv t hard m w up h =
      Frame-Inv m _ (loop-Frame nodes _ t hard m w)
        (Covers-keeps m.node_names (order t m.node_names) t hard m w up) h

  pub pass-Idle :
      (t : Transition) (hard : Bool) (m : Manager Name) (w : W)
      → Idle m
      → Idle (change_state_for_all_nodes nodes t hard m w).manager
  pass-Idle t hard m w h = Frame-Idle m _ (pass-Frame t hard m w) h
