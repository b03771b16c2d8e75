-- ===== src/Lifecycle/Operations.antt =====
-- The handlers of LifecycleManager's commands (nav3d_lifecycle_manager/src/lifecycle_manager.cpp).
use nav2_3d.Prelude.{Bool, true, false, [], Eq, if◌then◌else◌}
use nav2_3d.Prelude.Int.{is_positive}
use nav2_3d.Lifecycle.Services.{
  configure, cleanup, activate, deactivate, unconfigured_shutdown, returns, throws,
  null_dereference, Nodes,
}
use nav2_3d.Lifecycle.Manager.{Manager, Done, change_state_for_all_nodes}

-- The commands of ManageLifecycleNodes, `other` for those that the switch does not name.
pub data Command : Type 0 where
  startup_command pause_command resume_command reset_command shutdown_command other : Command

module _ {Name : Type 0} where
  unfoldable pub create_bond_timer : Manager Name → Manager Name
  create_bond_timer m = if is_positive m.bond_timeout then record m { bond_timer = true } else m

  unfoldable pub destroy_bond_timer : Manager Name → Manager Name
  destroy_bond_timer m = record m { bond_timer = false }

  unfoldable pub create_clients : Manager Name → Manager Name
  create_clients m = record m { clients = m.node_names }

  unfoldable pub destroy_clients : Manager Name → Manager Name
  destroy_clients m = record m { clients = [] }

  unfoldable pub on_rcl_preshutdown : Manager Name → Manager Name
  unfolding destroy_bond_timer
  on_rcl_preshutdown m = record (destroy_bond_timer m) { node_names = []; clients = []; bonds = [] }

module _ {ℓ} {Name : Type 0} {W : Type ℓ} where
  -- Goes on with the Boolean that a call returns; an exception or a crash ends the handler.
  abbrev pub then_with : Done Name W → (Bool → Manager Name → W → Done Name W) → Done Name W
  then_with d k = elim d.result [
    | throws ↦ d
    | null_dereference ↦ d
    | returns b ↦ k b d.manager d.world
  ]

  abbrev pub done : Bool → Manager Name → W → Done Name W
  done b m w = record { result = returns b; manager = m; world = w }

module _ {ℓ} {Name : Type 0} {W : Type ℓ} where
  -- A hard reset goes on to its end and returns true whatever the passes return.
  unfoldable pub on_cleaned : Bool → Bool → Manager Name → W → Done Name W
  on_cleaned hard_reset cleaned m w = if cleaned then done true m w else done hard_reset m w

  unfoldable pub after_shutdown : Bool → Manager Name → W → Done Name W
  unfolding destroy_clients
  after_shutdown _ m w = done true (destroy_clients m) w

-- The code of `startup` and `resume` where all nodes are active.
unfoldable pub now_active : {Name : Type 0} → Manager Name → Manager Name
unfolding create_bond_timer
now_active m = create_bond_timer (record m { system_active = true })

unfoldable pub on_activated {ℓ} :
    {Name : Type 0} {W : Type ℓ} → Bool → Manager Name → W → Done Name W
unfolding now_active
on_activated activated m w = if activated then done true (now_active m) w else done false m w

-- The first lines of `shutdown`, `reset` and `pause`.
unfoldable pub now_inactive : {Name : Type 0} → Manager Name → Manager Name
unfolding destroy_bond_timer
now_inactive m = destroy_bond_timer (record m { system_active = false })

module _ {ℓ} {Name : Type 0} {W : Type ℓ} ⦃e : Eq Name⦄ (nodes : Nodes Name W) where
  unfoldable pub on_configured : Bool → Manager Name → W → Done Name W
  unfolding on_activated
  on_configured configured m w =
      if configured
      then then_with (change_state_for_all_nodes nodes activate false m w) on_activated
      else done false m w

  unfoldable pub startup : Manager Name → W → Done Name W
  unfolding on_configured
  startup m w = then_with (change_state_for_all_nodes nodes configure false m w) on_configured

  unfoldable pub resume : Manager Name → W → Done Name W
  unfolding on_activated
  resume m w = then_with (change_state_for_all_nodes nodes activate false m w) on_activated

  unfoldable pub pause : Manager Name → W → Done Name W
  unfolding now_inactive
  pause m w = then_with (change_state_for_all_nodes nodes deactivate false (now_inactive m) w) done

  unfoldable pub on_deactivated : Bool → Bool → Manager Name → W → Done Name W
  unfolding on_cleaned
  on_deactivated hard_reset deactivated m w =
      if deactivated
      then then_with (change_state_for_all_nodes nodes cleanup hard_reset m w)
          (on_cleaned hard_reset)
      else done hard_reset m w

  unfoldable pub reset : Bool → Manager Name → W → Done Name W
  unfolding now_inactive on_deactivated
  reset hard_reset m w =
      then_with (change_state_for_all_nodes nodes deactivate hard_reset (now_inactive m) w)
        (on_deactivated hard_reset)

  -- `shutdownAllNodes` ignores the results of the three passes.
  unfoldable pub after_cleanup : Bool → Manager Name → W → Done Name W
  after_cleanup _ m w = change_state_for_all_nodes nodes unconfigured_shutdown false m w

  unfoldable pub after_deactivation : Bool → Manager Name → W → Done Name W
  unfolding after_cleanup
  after_deactivation _ m w =
      then_with (change_state_for_all_nodes nodes cleanup false m w) after_cleanup

  unfoldable pub shutdown_all_nodes : Manager Name → W → Done Name W
  unfolding after_deactivation
  shutdown_all_nodes m w =
      then_with (change_state_for_all_nodes nodes deactivate false m w) after_deactivation

  unfoldable pub shutdown : Manager Name → W → Done Name W
  unfolding now_inactive shutdown_all_nodes after_shutdown
  shutdown m w = then_with (shutdown_all_nodes (now_inactive m) w) after_shutdown

  -- The result is `response->success`, false where the switch leaves it.
  unfoldable pub manager_callback : Command → Manager Name → W → Done Name W
  unfolding startup resume pause reset shutdown
  manager_callback startup_command m w = startup m w
  manager_callback reset_command m w = reset false m w
  manager_callback shutdown_command m w = shutdown m w
  manager_callback pause_command m w = pause m w
  manager_callback resume_command m w = resume m w
  manager_callback other m w = done false m w

  -- The two callbacks of `init_timer_`.
  unfoldable pub init : Bool → Manager Name → W → Done Name W
  unfolding startup create_clients
  init autostart m w =
      if autostart then startup (create_clients m) w else done true (create_clients m) w
