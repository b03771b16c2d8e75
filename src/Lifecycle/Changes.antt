-- ===== src/Lifecycle/Changes.antt =====
-- What a change of state of one node and a pass over all nodes do to the manager's members.
use nav2_3d.Prelude.{
  ◌≡◌, ◌≢◌, refl, sym, subst, ap, ◌∙◌, inl, inr, Bool, true, false, not, ◌&&◌, List, [], ◌∷◌, Eq,
  contains, All, Covers, Bool-cases, arith, beq_self,
}
use nav2_3d.Prelude.Int.{is_positive}
use nav2_3d.Lifecycle.Services.{
  Transition, activate, deactivate, returns, Nodes, result_cases, is_returned, is_thrown, is_null,
}
use nav2_3d.Lifecycle.Manager.{Manager, Done, change_state_for_node, change_loop}

-- Only the bonds may differ.
abbrev pub Frame : {Name : Type 0} → Manager Name → Manager Name → Type 0
Frame m m' = m' ≡ record m { bonds = m'.bonds }

pub Frame-trans : {Name : Type 0} (a b c : Manager Name) → Frame a b → Frame b c → Frame a c
Frame-trans a b c p q = q ∙ ap {B = Manager _} (λ x. record x { bonds = c.bonds }) p

pub timeout_of_Frame :
    {Name : Type 0} (m m' : Manager Name)
    → Frame m m'
    → is_positive m'.bond_timeout ≡ is_positive m.bond_timeout
timeout_of_Frame {Name} m m' h = ap {A = Manager Name} (λ x. is_positive x.bond_timeout) h

pub names_of_Frame :
    {Name : Type 0} (m m' : Manager Name) → Frame m m' → m'.node_names ≡ m.node_names
names_of_Frame {Name} m m' h = ap {A = Manager Name} (λ x. x.node_names) h

module _ {ℓ} {Name : Type 0} {W : Type ℓ} ⦃e : Eq Name⦄ (nodes : Nodes Name W) where
  pub node-Frame :
      (n : Name) (t : Transition) (m : Manager Name) (w : W)
      → Frame m (change_state_for_node nodes n t m w).manager
  unfolding change_state_for_node
  node-Frame n t m w = ground arith

  -- What every change of a node keeps, a pass keeps.
  pub loop_rule {κ} :
      (P : Manager Name → W → Type κ) (t : Transition)
      → ((n : Name) (m : Manager Name) (w : W)
          → P m w
          → let d = change_state_for_node nodes n t m w in P d.manager d.world)
      → (ns : List Name) (hard : Bool) (m : Manager Name) (w : W) → P m w
      → let d = change_loop nodes ns t hard m w in P d.manager d.world
  unfolding change_loop
  loop_rule P t keep [] hard m w h = h
  loop_rule P t keep (n ∷ ns) hard m w h =
      let d = change_state_for_node nodes n t m w in
      let kept = keep n m w h in
      elim (result_cases d.result) [
        | is_thrown r ↦ rw (r, change_loop) kept
        | is_null r ↦ rw (r, change_loop) kept
        | is_returned changed r ↦ elim (Bool-cases (not changed && not hard)) [
          | inl stop ↦ rw (r, change_loop) (rw (stop, change_loop) kept)
          | inr on ↦
              rw (r, change_loop)
                (rw (on, change_loop) (loop_rule P t keep ns hard d.manager d.world kept))
        ]
      ]

  -- A pass that is not hard and returns true has changed each node, one after the other.
  loop_next :
      (n : Name) (ns : List Name) (t : Transition) (m : Manager Name) (w : W)
      → (change_loop nodes (n ∷ ns) t false m w).result ≡ returns true
      → let d = change_state_for_node nodes n t m w in
        (d.result ≡ returns true)
        × (change_loop nodes (n ∷ ns) t false m w ≡ change_loop nodes ns t false d.manager d.world)
  unfolding change_loop
  loop_next n ns t m w success = ground arith

  module _ {κ μ} (P : Manager Name → W → Type κ) (Q : Name → Manager Name → W → Type μ)
      (t : Transition)
      (P_kept : (n : Name) (m : Manager Name) (w : W)
        → P m w
        → let d = change_state_for_node nodes n t m w in P d.manager d.world)
      (Q_kept : (x n : Name) (m : Manager Name) (w : W)
        → P m w
        → Q x m w
        → let d = change_state_for_node nodes n t m w in
          d.result ≡ returns true → Q x d.manager d.world)
      (Q_gained : (n : Name) (m : Manager Name) (w : W)
        → P m w
        → let d = change_state_for_node nodes n t m w in
          d.result ≡ returns true → Q n d.manager d.world) where
    pub loop_success_keeps :
        (x : Name) (ns : List Name) (m : Manager Name) (w : W)
        → P m w
        → Q x m w
        → let d = change_loop nodes ns t false m w in
          d.result ≡ returns true → Q x d.manager d.world
    unfolding change_loop
    loop_success_keeps x [] m w p q success = q
    loop_success_keeps x (n ∷ ns) m w p q success =
        let (changed, on) = loop_next n ns t m w success in
        rw on (
          loop_success_keeps x ns _ _ (P_kept n m w p) (Q_kept x n m w p q changed)
            (rw on at success))

    pub loop_success-All :
        (ns : List Name) (m : Manager Name) (w : W)
        → P m w
        → let d = change_loop nodes ns t false m w in
          d.result ≡ returns true → All (λ n. Q n d.manager d.world) ns
    loop_success-All [] m w p success = tt
    loop_success-All (n ∷ ns) m w p success =
        let (changed, on) = loop_next n ns t m w success in
        let p' = P_kept n m w p in
        let success' = rw on at success in
        subst (λ (d : Done Name W). All (λ x. Q x d.manager d.world) (n ∷ ns)) (sym on)
          (
            loop_success_keeps n ns _ _ p' (Q_gained n m w p changed) success',
            loop_success-All ns _ _ p' success',
          )

  -- The bonds that there are stay, unless the nodes are deactivated.
  node-keeps_bonds :
      (n : Name) (t : Transition) (m : Manager Name) (w : W) (x : Name)
      → t ≢ deactivate
      → contains m.bonds x ≡ true
      → contains (change_state_for_node nodes n t m w).manager.bonds x ≡ true
  unfolding change_state_for_node contains
  node-keeps_bonds n t m w x other h = ground arith

  node-bonded :
      (n : Name) (m : Manager Name) (w : W)
      → is_positive m.bond_timeout ≡ true
      → (change_state_for_node nodes n activate m w).result ≡ returns true
      → contains (change_state_for_node nodes n activate m w).manager.bonds n ≡ true
  unfolding change_state_for_node contains
  node-bonded n m w timed h = ground (arith, beq_self n)

  -- The bonds a pass finds stay, unless it deactivates.
  pub loop-keeps_bonds :
      (ns : List Name) (t : Transition) (hard : Bool) (m : Manager Name) (w : W) (x : Name)
      → t ≢ deactivate
      → contains m.bonds x ≡ true
      → contains (change_loop nodes ns t hard m w).manager.bonds x ≡ true
  loop-keeps_bonds ns t hard m w x other =
      loop_rule (λ m' _. contains m'.bonds x ≡ true) t
        (λ n m' w' h. node-keeps_bonds n t m' w' x other h) ns hard m w

  pub loop-Frame :
      (ns : List Name) (t : Transition) (hard : Bool) (m : Manager Name) (w : W)
      → Frame m (change_loop nodes ns t hard m w).manager
  loop-Frame ns t hard m w =
      loop_rule (λ m' _. Frame m m') t (λ n m' w' h. Frame-trans m m' _ h (node-Frame n t m' w')) ns
        hard m w refl

  -- A pass that activates all nodes leaves each with a bond, where bonds are used.
  pub loop-bonded :
      (ns : List Name) (m : Manager Name) (w : W)
      → is_positive m.bond_timeout ≡ true
      → (change_loop nodes ns activate false m w).result ≡ returns true
      → Covers ns (change_loop nodes ns activate false m w).manager.bonds
  loop-bonded ns m w timed =
      loop_success-All (λ m' _. is_positive m'.bond_timeout ≡ true)
        (λ n m' _. contains m'.bonds n ≡ true) activate
        (λ n m' w' p. timeout_of_Frame m' _ (node-Frame n activate m' w') ∙ p)
        (λ x n m' w' p q _. node-keeps_bonds n activate m' w' x (λ c. cc) q)
        (λ n m' w' p. node-bonded n m' w' p) ns m w timed
