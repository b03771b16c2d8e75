-- ===== src/Lifecycle/Clients/Bonds.antt =====
-- A bond that breaks, and the timer that finds it, while every managed node has a client.
use nav2_3d.Prelude.{
  is_empty, ◌≡◌, inl, inr, true, not, ◌||◌, List, [], ◌∷◌, Eq, if_rule, Covers, Bool-cases,
}
use nav2_3d.Lifecycle.Services.{Nodes}
use nav2_3d.Lifecycle.Manager.{Manager}
use nav2_3d.Lifecycle.Operations.{done, reset}
use nav2_3d.Lifecycle.Bonds.{check_bond_connections, on_broken, bond_loop, after_hard_reset}
use nav2_3d.Lifecycle.Invariant.{Inv}
use nav2_3d.Lifecycle.Clients.{HasClients, Answers, IsSafe, then-IsSafe}
use nav2_3d.Lifecycle.Clients.Commands.{reset-IsSafe}

module _ {ℓ} {Name : Type 0} {W : Type ℓ} ⦃e : Eq Name⦄ (nodes : Nodes Name W) where
  on_broken-IsSafe : (m : Manager Name) (w : W) → HasClients m → IsSafe (on_broken nodes m w)
  unfolding on_broken after_hard_reset
  on_broken-IsSafe m w h =
      let safe = reset-IsSafe nodes true m w h in
      then-IsSafe _ after_hard_reset safe λ b.
        if_rule (λ (m' : Manager Name). IsSafe (done b m' (reset nodes true m w).world))
          ((reset nodes true m w).manager.attempt_respawn_reconnection) (λ _. (tt, safe.1))
          (λ _. (tt, safe.1))

  bond_loop-IsSafe :
      (ns : List Name) (m : Manager Name) (w : W)
      → HasClients m
      → Covers ns m.bonds
      → IsSafe (bond_loop nodes ns m w)
  unfolding bond_loop
  bond_loop-IsSafe [] m w h held = (tt, h)
  bond_loop-IsSafe (n ∷ ns) m w h held = elim (Bool-cases (nodes.ok w)) [
    | inr off ↦ rw (off, bond_loop) (tt, h)
    | inl on ↦ elim (Bool-cases (nodes.is_broken n w)) [
      | inl broken ↦
          rw (on, bond_loop)
            (rw (held.0, bond_loop) (rw (broken, bond_loop) (on_broken-IsSafe m w h)))
      | inr alive ↦
          rw (on, bond_loop)
            (rw (held.0, bond_loop) (rw (alive, bond_loop) (bond_loop-IsSafe ns m w h held.1)))
    ]
  ]

  -- The callback of the bond timer, where the timer is on, the invariant holds and every managed
  -- node has a client, finds a bond for every node that it asks about and returns, and every
  -- managed node keeps its client.
  pub check_bond_connections-Answers :
      (m : Manager Name) (w : W)
      → Inv m
      → HasClients m
      → m.bond_timer ≡ true
      → let d = check_bond_connections nodes m w in Answers d.result × HasClients d.manager
  unfolding check_bond_connections
  check_bond_connections-Answers m w inv h on =
      let (up, timed) = inv.timer_active on in
      if_rule IsSafe (not m.system_active || not (nodes.ok w) || is_empty m.bonds) (λ _. (tt, h))
        (λ _. bond_loop-IsSafe m.node_names m w h (inv.bonded up timed))
