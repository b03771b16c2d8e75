-- ===== src/Lifecycle/Startup.antt =====
-- What a successful STARTUP or RESUME means for the managed nodes.
use nav2_3d.Prelude.{
  ◌≡◌, ◌≢◌, refl, sym, ap, subst, ◌∙◌, ◌⊎◌, inl, inr, Bool, true, false, List, Eq, All, arith,
  eq_cases,
}
use nav2_3d.Lifecycle.Services.{
  Transition, configure, activate, State, active, returns, Nodes, result_cases, is_returned,
  is_thrown, is_null, response, change_state, get_state,
}
use nav2_3d.Lifecycle.Manager.{
  Manager, Done, create_bond_connection, change_state_for_node, change_state_for_all_nodes,
}
use nav2_3d.Lifecycle.Operations.{
  Command, startup_command, resume_command, manager_callback, then_with, startup, resume,
  on_activated, on_configured,
}
use nav2_3d.Lifecycle.Changes.{names_of_Frame, loop_success-All}
use nav2_3d.Lifecycle.Invariant.{pass-Frame}

-- What the manager relies on of the nodes: a state request reports the state and changes none, and no
-- other call about one node changes another's state, nor does the wait for a bond any node's.
pub record AreNodes {ℓ} {Name : Type 0} {W : Type ℓ} (nodes : Nodes Name W)
    (state_of : Name → W → State) : Type ℓ where
  pub reports :
      (n : Name) (w : W) (s : State)
      → (nodes.request_state n w).0 ≡ response s
      → state_of n (nodes.request_state n w).1 ≡ s
  pub state_frame : (n x : Name) (w : W) → state_of x (nodes.request_state n w).1 ≡ state_of x w
  pub available_frame :
      (n x : Name) (w : W) → state_of x (nodes.get_state_available n w).1 ≡ state_of x w
  pub change_available_frame :
      (n x : Name) (w : W) → state_of x (nodes.change_state_available n w).1 ≡ state_of x w
  pub transition_frame :
      (n x : Name) (t : Transition) (w : W)
      → x ≢ n
      → state_of x (nodes.request_transition n t w).1 ≡ state_of x w
  pub bond_frame : (n x : Name) (w : W) → state_of x (nodes.form_bond n w).1 ≡ state_of x w

then_success {ℓ} :
    {Name : Type 0} {W : Type ℓ} (d : Done Name W) (k : Bool → Manager Name → W → Done Name W)
    {a : Bool}
    → (then_with d k).result ≡ returns a
    → (b : Bool) × (d.result ≡ returns b) × (then_with d k ≡ k b d.manager d.world)
then_success d k h = elim (result_cases d.result) [
  | is_returned b r ↦ (b, r, rw r)
  | is_thrown r ↦ absurd (ground arith)
  | is_null r ↦ absurd (ground arith)
]

module _ {ℓ} {Name : Type 0} {W : Type ℓ} ⦃e : Eq Name⦄ (nodes : Nodes Name W)
    (state_of : Name → W → State) (laws : AreNodes nodes state_of) where
  get_state-frame : (n x : Name) (w : W) → state_of x (get_state nodes n w).1 ≡ state_of x w
  unfolding get_state
  get_state-frame n x w =
      ground
        (arith, laws.state_frame n x (nodes.get_state_available n w).1, laws.available_frame n x w)

  get_state-reports :
      (n : Name) (w : W) (s : State)
      → (get_state nodes n w).0 ≡ returns s
      → state_of n (get_state nodes n w).1 ≡ s
  unfolding get_state
  get_state-reports n w s h = ground (arith, laws.reports n (nodes.get_state_available n w).1 s)

  change_state-frame :
      (n x : Name) (t : Transition) (w : W)
      → x ≢ n
      → state_of x (change_state nodes false n t w).1 ≡ state_of x w
  unfolding change_state
  change_state-frame n x t w ne = ground (
    arith,
    laws.transition_frame n x t (nodes.change_state_available n w).1 ne,
    laws.change_available_frame n x w,
  )

  -- A node whose change is reported as done is in the state asked for.
  node-reached :
      (n : Name) (m : Manager Name) (w : W)
      → let d = change_state_for_node nodes n activate m w in
        d.result ≡ returns true → state_of n d.world ≡ active
  unfolding change_state_for_node create_bond_connection
  node-reached n m w h =
      let w1 = (change_state nodes false n activate w).1 in
      let w2 = (get_state nodes n w1).1 in
      ground (arith, get_state-reports n w1 active, laws.bond_frame n n w2)

  node-frame :
      (x n : Name) (m : Manager Name) (w : W)
      → x ≢ n
      → state_of x (change_state_for_node nodes n activate m w).world ≡ state_of x w
  unfolding change_state_for_node create_bond_connection
  node-frame x n m w ne =
      let w1 = (change_state nodes false n activate w).1 in
      let w2 = (get_state nodes n w1).1 in
      ground (
        arith,
        change_state-frame n x activate w ne,
        get_state-frame n x w1,
        laws.bond_frame n x w2,
      )

  node-keeps :
      (x n : Name) (m : Manager Name) (w : W)
      → state_of x w ≡ active
      → let d = change_state_for_node nodes n activate m w in
        d.result ≡ returns true → state_of x d.world ≡ active
  node-keeps x n m w is h = elim (eq_cases x n) [
    | inl same ↦ rw same (node-reached n m w h)
    | inr differs ↦ node-frame x n m w differs ∙ is
  ]

  activated-All :
      (m : Manager Name) (w : W)
      → let d = change_state_for_all_nodes nodes activate false m w in
        d.result ≡ returns true → All (λ n. state_of n d.world ≡ active) m.node_names
  unfolding change_state_for_all_nodes
  activated-All m w =
      loop_success-All nodes (λ _ _. Unit {0}) (λ n _ w'. state_of n w' ≡ active) activate
        (λ n m' w' p. tt) (λ x n m' w' p is h. node-keeps x n m' w' is h)
        (λ n m' w' p h. node-reached n m' w' h) m.node_names m w tt

  -- What `resume` and the end of `startup` promise of the nodes and the manager they leave.
  abbrev pub IsUp : List Name → Done Name W → Type 0
  IsUp names d = All (λ n. state_of n d.world ≡ active) names × (d.manager.system_active ≡ true)

  on_activated-IsUp :
      (b : Bool) (names : List Name) (m : Manager Name) (w : W)
      → (on_activated b m w).result ≡ returns true
      → (b ≡ true → All (λ n. state_of n w ≡ active) names)
      → IsUp names (on_activated b m w)
  unfolding on_activated
  on_activated-IsUp true names m w h all = (all refl, ground arith)
  on_activated-IsUp false names m w h all = absurd (ground arith)

  resume-IsUp :
      (m : Manager Name) (w : W)
      → (resume nodes m w).result ≡ returns true
      → IsUp m.node_names (resume nodes m w)
  unfolding resume
  resume-IsUp m w h =
      let d = change_state_for_all_nodes nodes activate false m w in
      let (b, r, e) = then_success d on_activated h in
      subst (IsUp m.node_names) (sym e) (
        on_activated-IsUp b m.node_names d.manager d.world (ap (λ x. x.result) (sym e) ∙ h)
          λ t. activated-All m w (r ∙ ap returns t))

  configured-IsUp :
      (b : Bool) (m : Manager Name) (w : W)
      → (on_configured nodes b m w).result ≡ returns true
      → IsUp m.node_names (on_configured nodes b m w)
  unfolding on_configured resume
  configured-IsUp true m w h = resume-IsUp m w h
  configured-IsUp false m w h = absurd (ground arith)

  startup-IsUp :
      (m : Manager Name) (w : W)
      → (startup nodes m w).result ≡ returns true
      → IsUp m.node_names (startup nodes m w)
  unfolding startup
  startup-IsUp m w h =
      let d = change_state_for_all_nodes nodes configure false m w in
      let (b, r, e) = then_success d (on_configured nodes) h in
      let names : d.manager.node_names ≡ m.node_names =
        names_of_Frame m d.manager (pass-Frame nodes configure false m w) in
      subst (IsUp m.node_names) (sym e) (
        subst (λ ns. IsUp ns (on_configured nodes b d.manager d.world)) names
          (configured-IsUp b d.manager d.world (ap (λ x. x.result) (sym e) ∙ h)))

  -- Under named laws of the nodes (a state request reports the state and changes none, and no call
  -- about one node changes the state of another), a STARTUP or RESUME that returns true leaves
  -- every managed node in the state active and the system marked active.
  pub bring_up-IsUp :
      (c : Command) (m : Manager Name) (w : W)
      → (c ≡ startup_command) ⊎ (c ≡ resume_command)
      → let d = manager_callback nodes c m w in
        d.result ≡ returns true
        → All (λ n. state_of n d.world ≡ active) m.node_names × (d.manager.system_active ≡ true)
  unfolding manager_callback
  bring_up-IsUp c m w (inl p) = rw p (startup-IsUp m w)
  bring_up-IsUp c m w (inr p) = rw p (resume-IsUp m w)
