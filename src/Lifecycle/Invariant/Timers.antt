-- ===== src/Lifecycle/Invariant/Timers.antt =====
-- The manager's timers, and sequences of its callbacks, against the invariant.
use nav2_3d.Prelude.{
  is_empty, inl, inr, Bool, true, not, List, [], ◌∷◌, Eq, contains, if_rule, ◌||◌, ◌==◌, leb, ◌+◌,
  Bool-cases, arith,
}
use nav2_3d.Lifecycle.Services.{Nodes}
use nav2_3d.Lifecycle.Manager.{Manager, Done}
use nav2_3d.Lifecycle.Operations.{Command, reset, manager_callback, on_rcl_preshutdown}
use nav2_3d.Lifecycle.Bonds.{
  on_broken, after_hard_reset, bond_loop, stop_respawn, after_census, note_start, Census, counted,
  interrupted, null_client, size, check_bond_connections, check_bond_respawn_connection,
}
use nav2_3d.Lifecycle.Invariant.{Inv, Idle, Idle-Inv, then_rule}
use nav2_3d.Lifecycle.Invariant.Commands.{manager_callback-Inv, startup-Inv, reset-Idle}

-- What may run on the manager's threads: a command, a timer's callback, or the preshutdown callback.
pub data Callback : Type 0 where
  command : Command → Callback
  bond_timer_fires bond_respawn_timer_fires preshutdown : Callback

after_hard_reset-Idle {ℓ} :
    {Name : Type 0} {W : Type ℓ} (b : Bool) (m : Manager Name) (w : W)
    → Idle m
    → Idle (after_hard_reset b m w).manager
unfolding after_hard_reset
after_hard_reset-Idle b m w h = ground arith

module _ {ℓ} {Name : Type 0} {W : Type ℓ} ⦃e : Eq Name⦄ (nodes : Nodes Name W) where
  unfoldable pub step : Callback → Manager Name → W → Manager Name × W
  step (command c) m w = let d = manager_callback nodes c m w in (d.manager, d.world)
  step bond_timer_fires m w = let d = check_bond_connections nodes m w in (d.manager, d.world)
  step bond_respawn_timer_fires m w =
      let d = check_bond_respawn_connection nodes m w in (d.manager, d.world)
  step preshutdown m w = (on_rcl_preshutdown m, w)

  -- The callbacks run one at a time; between two of them the world may become any other.
  unfoldable pub run : List (Callback × (W → W)) → Manager Name → W → Manager Name × W
  unfolding step
  run [] m w = (m, w)
  run ((c, meanwhile) ∷ cs) m w = let (m', w') = step c m w in run cs m' (meanwhile w')

  on_broken-Inv : (m : Manager Name) (w : W) → Inv (on_broken nodes m w).manager
  unfolding on_broken
  on_broken-Inv m w =
      let d = reset nodes true m w in
      let rested = reset-Idle nodes true m w in
      Idle-Inv _ (
        then_rule Idle d after_hard_reset rested
          λ b r. after_hard_reset-Idle b d.manager d.world rested)

  bond_loop-Inv :
      (ns : List Name) (m : Manager Name) (w : W) → Inv m → Inv (bond_loop nodes ns m w).manager
  unfolding bond_loop
  bond_loop-Inv [] m w h = h
  bond_loop-Inv (n ∷ ns) m w h = elim (Bool-cases (nodes.ok w)) [
    | inr off ↦ rw (off, bond_loop) h
    | inl on ↦ elim (Bool-cases (contains m.bonds n)) [
      | inr missing ↦ rw (on, bond_loop) (rw (missing, bond_loop) h)
      | inl held ↦ elim (Bool-cases (nodes.is_broken n w)) [
        | inl broken ↦
            rw (on, bond_loop) (rw (held, bond_loop) (rw (broken, bond_loop) (on_broken-Inv m w)))
        | inr alive ↦
            rw (on, bond_loop)
              (rw (held, bond_loop) (rw (alive, bond_loop) (bond_loop-Inv ns m w h)))
      ]
    ]
  ]

  check_bond_connections-Inv :
      (m : Manager Name) (w : W) → Inv m → Inv (check_bond_connections nodes m w).manager
  unfolding check_bond_connections
  check_bond_connections-Inv m w h =
      if_rule (λ (d : Done Name W). Inv d.manager)
        (not m.system_active || not (nodes.ok w) || is_empty m.bonds) (λ _. h)
        (λ _. bond_loop-Inv m.node_names m w h)

  note_start-Inv : (m : Manager Name) (w : W) → Inv m → Inv (note_start nodes m w).0
  unfolding note_start
  note_start-Inv m w h = ground arith

  after_census-Inv :
      (m : Manager Name) (c : Census) (w : W) → Inv m → Inv (after_census nodes m c w).manager
  unfolding after_census
  after_census-Inv m interrupted w h = h
  after_census-Inv m null_client w h = h
  after_census-Inv m (counted live) w h =
      let stopped : Inv (stop_respawn m) = record {
        timer_active = h.timer_active;
        bonded = h.bonded;
      } in
      if_rule (λ (d : Done Name W). Inv d.manager) (live == size m.node_names)
        (λ _. startup-Inv nodes (stop_respawn m) w stopped)
        λ _.
          if_rule (λ (d : Done Name W). Inv d.manager)
            (leb (m.bond_respawn_start_time + m.bond_respawn_max_duration) (nodes.now w).0)
            (λ _. stopped) (λ _. h)

  check_bond_respawn_connection-Inv :
      (m : Manager Name) (w : W) → Inv m → Inv (check_bond_respawn_connection nodes m w).manager
  unfolding check_bond_respawn_connection
  check_bond_respawn_connection-Inv m w h =
      let (m1, w1) = note_start nodes m w in
      let h1 = note_start-Inv m w h in
      if_rule (λ (d : Done Name W). Inv d.manager)
        (m1.system_active || not (nodes.ok w1) || is_empty m1.node_names)
        (λ _. record { timer_active = h1.timer_active; bonded = h1.bonded })
        (λ _. after_census-Inv m1 _ _ h1)

  on_rcl_preshutdown-Inv : (m : Manager Name) → Inv (on_rcl_preshutdown m)
  unfolding on_rcl_preshutdown
  on_rcl_preshutdown-Inv m = record { timer_active = λ t. cc; bonded = λ _ _. tt }

  step-Inv : (c : Callback) (m : Manager Name) (w : W) → Inv m → Inv (step c m w).0
  unfolding step
  step-Inv (command c) m w h = manager_callback-Inv nodes c m w h
  step-Inv bond_timer_fires m w h = check_bond_connections-Inv m w h
  step-Inv bond_respawn_timer_fires m w h = check_bond_respawn_connection-Inv m w h
  step-Inv preshutdown m w h = on_rcl_preshutdown-Inv m

  -- Whatever commands, timer callbacks and preshutdown callbacks run, in any order and with any
  -- changes of the world between them, and whatever the nodes answer: the bond timer is on only
  -- while the system is active and uses bonds, and while it is active and uses bonds it has a bond
  -- with every managed node, if this held at first.
  pub run-Inv :
      (cs : List (Callback × (W → W))) (m : Manager Name) (w : W) → Inv m → Inv (run cs m w).0
  unfolding run
  run-Inv [] m w h = h
  run-Inv ((c, meanwhile) ∷ cs) m w h = run-Inv cs _ _ (step-Inv c m w h)
