-- ===== src/Lifecycle/Manager.antt =====
-- The state of LifecycleManager and the changes of the managed nodes' states
-- (nav3d_lifecycle_manager/src/lifecycle_manager.cpp).
use nav2_3d.Prelude.{
  ℕ, Bool, true, false, not, ◌&&◌, List, [], ◌∷◌, reverse, Eq, contains, erase, if◌then◌else◌,
}
use nav2_3d.Prelude.Int.{ℤ, is_positive}
use nav2_3d.Lifecycle.Services.{
  Transition, configure, cleanup, activate, deactivate, unconfigured_shutdown, State, unconfigured,
  inactive, active, finalized, unknown, in_transition, Result, returns, throws, null_dereference,
  Nodes, change_state, get_state,
}

-- The members that the handlers read and write. `clients` are the names whose entry of `node_map_` is
-- not null, `bonds` the keys of `bond_map_`; a timer is armed or not. Times are in nanoseconds but
-- `bond_timeout`, in milliseconds.
pub record Manager (Name : Type 0) : Type 0 where
  pub node_names : List Name
  pub clients : List Name
  pub bonds : List Name
  pub system_active : Bool
  pub bond_timer : Bool
  pub bond_respawn_timer : Bool
  pub bond_timeout : ℤ
  pub attempt_respawn_reconnection : Bool
  pub bond_respawn_start_time : ℕ
  pub bond_respawn_max_duration : ℕ

-- What a handler leaves behind.
pub record Done {ℓ} (Name : Type 0) (W : Type ℓ) : Type ℓ where
  pub result : Result Bool
  pub manager : Manager Name
  pub world : W

-- `transition_state_map_`.
abbrev pub transition_state : Transition → State
transition_state configure = inactive
transition_state cleanup = unconfigured
transition_state activate = active
transition_state deactivate = inactive
transition_state unconfigured_shutdown = finalized

abbrev pub state_eq : State → State → Bool
state_eq unknown unknown = true
state_eq unconfigured unconfigured = true
state_eq inactive inactive = true
state_eq active active = true
state_eq finalized finalized = true
state_eq in_transition in_transition = true
state_eq _ _ = false

-- The order of the nodes: as given when bringing up, reversed when taking down.
abbrev pub order : {Name : Type 0} → Transition → List Name → List Name
order configure names = names
order activate names = names
order _ names = reverse names

module _ {ℓ} {Name : Type 0} {W : Type ℓ} ⦃e : Eq Name⦄ (nodes : Nodes Name W) where
  open nodes use {form_bond}

  unfoldable pub create_bond_connection : Name → Manager Name → W → Done Name W
  create_bond_connection n m w =
      if not (contains m.bonds n) && is_positive m.bond_timeout
      then (let (formed, w') = form_bond n w in
          record {
            result = returns formed;
            manager = record m { bonds = n ∷ m.bonds };
            world = w';
          })
      else record { result = returns true; manager = m; world = w }

  -- The end of `changeStateForNode`, when the node has reached the state.
  after_change : Name → Transition → Manager Name → W → Done Name W
  unfolding create_bond_connection
  after_change n activate m w = create_bond_connection n m w
  after_change n deactivate m w = record {
    result = returns true;
    manager = record m { bonds = erase n m.bonds };
    world = w;
  }
  after_change n _ m w = record { result = returns true; manager = m; world = w }

  -- The test of the state reached.
  check_state : Name → Transition → Manager Name → W → Done Name W
  unfolding after_change
  check_state n t m w =
      let (s, w') = get_state nodes n w in
      elim s [
        | throws ↦ record { result = throws; manager = m; world = w' }
        | null_dereference ↦ record { result = null_dereference; manager = m; world = w' }
        | returns s ↦
            if state_eq s (transition_state t)
            then after_change n t m w'
            else record { result = returns false; manager = m; world = w' }
      ]

  unfoldable pub change_state_for_node : Name → Transition → Manager Name → W → Done Name W
  unfolding check_state
  change_state_for_node n t m w =
      if contains m.clients n
      then (let (r, w') = change_state nodes false n t w in
          elim r [
            | throws ↦ record { result = throws; manager = m; world = w' }
            | null_dereference ↦ record { result = null_dereference; manager = m; world = w' }
            | returns changed ↦
                if changed
                then check_state n t m w'
                else record { result = returns false; manager = m; world = w' }
          ])
      else record { result = null_dereference; manager = m; world = w }

  -- The loops of `changeStateForAllNodes`. An exception is caught and ends the loop.
  unfoldable pub change_loop : List Name → Transition → Bool → Manager Name → W → Done Name W
  change_loop [] t hard m w = record { result = returns true; manager = m; world = w }
  change_loop (n ∷ ns) t hard m w =
      let d = change_state_for_node n t m w in
      elim d.result [
        | throws ↦ record d { result = returns false }
        | null_dereference ↦ d
        | returns changed ↦ elim (not changed && not hard) [
          | true ↦ record d { result = returns false }
          | false ↦ change_loop ns t hard d.manager d.world
        ]
      ]

  unfoldable pub change_state_for_all_nodes : Transition → Bool → Manager Name → W → Done Name W
  unfolding change_loop
  change_state_for_all_nodes t hard m w = change_loop (order t m.node_names) t hard m w
