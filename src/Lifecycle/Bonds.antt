-- ===== src/Lifecycle/Bonds.antt =====
-- The timers that watch the bonds (nav3d_lifecycle_manager/src/lifecycle_manager.cpp). `result` is that
-- of the last command which the callback runs, true where it runs none.
use nav2_3d.Prelude.{
  is_empty, ℕ, ◌+◌, Bool, true, false, not, ◌||◌, List, [], ◌∷◌, Eq, contains, if◌then◌else◌, ◌==◌,
  leb,
}
use nav2_3d.Lifecycle.Services.{returns, throws, null_dereference, Nodes, get_state}
use nav2_3d.Lifecycle.Manager.{Manager, Done}
use nav2_3d.Lifecycle.Operations.{then_with, done, reset, startup}

-- What the loop over the servers' states in `checkBondRespawnConnection` finds.
pub data Census : Type 0 where
  counted : ℕ → Census
  interrupted : Census
  null_client : Census

unfoldable pub after_hard_reset {ℓ} :
    {Name : Type 0} {W : Type ℓ} → Bool → Manager Name → W → Done Name W
after_hard_reset b m w =
    let cleared = record m { bonds = [] } in
    done b
      (if cleared.attempt_respawn_reconnection
        then record cleared { bond_respawn_timer = true }
        else cleared)
      w

-- `bond_respawn_start_time_ = Time(0); bond_respawn_timer_.reset();`
unfoldable pub stop_respawn : {Name : Type 0} → Manager Name → Manager Name
stop_respawn m = record m { bond_respawn_start_time = 0; bond_respawn_timer = false }

abbrev pub size : {Name : Type 0} → List Name → ℕ
size [] = 0
size (n ∷ ns) = size ns + 1

module _ {ℓ} {Name : Type 0} {W : Type ℓ} ⦃e : Eq Name⦄ (nodes : Nodes Name W) where
  open nodes use {is_broken, ok, now}

  -- A broken bond was found.
  unfoldable pub on_broken : Manager Name → W → Done Name W
  unfolding after_hard_reset
  on_broken m w = then_with (reset nodes true m w) after_hard_reset

  -- The loop. A name with no bond dereferences the null entry that `bond_map_[node_name]` makes.
  unfoldable pub bond_loop : List Name → Manager Name → W → Done Name W
  unfolding on_broken
  bond_loop [] m w = done true m w
  bond_loop (n ∷ ns) m w = elim (ok w) [
    | false ↦ done true m w
    | true ↦ elim (contains m.bonds n) [
      | false ↦ record { result = null_dereference; manager = m; world = w }
      | true ↦ elim (is_broken n w) [ true ↦ on_broken m w | false ↦ bond_loop ns m w ]
    ]
  ]

  unfoldable pub check_bond_connections : Manager Name → W → Done Name W
  unfolding bond_loop
  check_bond_connections m w =
      if not m.system_active || not (ok w) || is_empty m.bonds
      then done true m w
      else bond_loop m.node_names m w

  -- The loop that counts the servers which answer.
  unfoldable pub census : List Name → Manager Name → ℕ → W → Census × W
  census [] m live_servers w = (counted live_servers, w)
  census (n ∷ ns) m live_servers w = elim (ok w) [
    | false ↦ (interrupted, w)
    | true ↦ elim (contains m.clients n) [
      | false ↦ (null_client, w)
      | true ↦
          let (s, w') = get_state nodes n w in
          elim s [
            | returns _ ↦ census ns m (live_servers + 1) w'
            | throws ↦ (counted live_servers, w')
            | null_dereference ↦ (null_client, w')
          ]
    ]
  ]

  -- The code after the loop.
  unfoldable pub after_census : Manager Name → Census → W → Done Name W
  unfolding stop_respawn
  after_census m interrupted w = done true m w
  after_census m null_client w = record { result = null_dereference; manager = m; world = w }
  after_census m (counted live_servers) w =
      if live_servers == size m.node_names
      then startup nodes (stop_respawn m) w
      else (let (t, w') = now w in
          if leb (m.bond_respawn_start_time + m.bond_respawn_max_duration) t
          then done true (stop_respawn m) w'
          else done true m w')

  -- The first use of the timer notes the time.
  unfoldable pub note_start : Manager Name → W → Manager Name × W
  note_start m w =
      if m.bond_respawn_start_time == 0
      then (let (t, w') = now w in (record m { bond_respawn_start_time = t }, w'))
      else (m, w)

  unfoldable pub check_bond_respawn_connection : Manager Name → W → Done Name W
  unfolding note_start stop_respawn census after_census
  check_bond_respawn_connection m w =
      let (m1, w1) = note_start m w in
      if m1.system_active || not (ok w1) || is_empty m1.node_names
      then done true (stop_respawn m1) w1
      else (let (c, w2) = census m1.node_names m1 0 w1 in after_census m1 c w2)
