-- ===== src/Lifecycle/Clients/Shutdown.antt =====
-- The commands once SHUTDOWN has destroyed the clients.
use nav2_3d.Prelude.{◌≡◌, ◌≢◌, refl, ap, ◌∙◌, Bool, false, List, [], ◌∷◌, Eq, contains}
use nav2_3d.Lifecycle.Services.{
  Transition, configure, activate, deactivate, null_dereference, Nodes,
}
use nav2_3d.Lifecycle.Manager.{
  Manager, change_state_for_node, change_loop, order, change_state_for_all_nodes,
}
use nav2_3d.Lifecycle.Operations.{
  Command, startup_command, pause_command, resume_command, reset_command, shutdown_command,
  other as other_command, manager_callback, startup, resume, pause, reset, shutdown, now_inactive,
  shutdown_all_nodes,
}
use nav2_3d.Lifecycle.Clients.{order-cons}

module _ {ℓ} {Name : Type 0} {W : Type ℓ} ⦃e : Eq Name⦄ (nodes : Nodes Name W) where
  node-null :
      (n : Name) (t : Transition) (m : Manager Name) (w : W)
      → contains m.clients n ≡ false
      → change_state_for_node nodes n t m w
        ≡ record { result = null_dereference; manager = m; world = w }
  unfolding change_state_for_node
  node-null n t m w h = rw (h, change_state_for_node)

  pass-null :
      (t : Transition) (hard : Bool) (m : Manager Name) (w : W) (n : Name) (ns : List Name)
      → m.node_names ≡ n ∷ ns
      → m.clients ≡ []
      → change_state_for_all_nodes nodes t hard m w
        ≡ record { result = null_dereference; manager = m; world = w }
  unfolding change_state_for_all_nodes change_loop contains
  pass-null t hard m w n ns some_node none =
      let (x, xs, first) = order-cons t n ns in
      let e : contains m.clients x ≡ false = ap (λ cs. contains cs x) none in
      let e' : order t m.node_names ≡ x ∷ xs = ap (order t) some_node ∙ first in
      let broken = node-null x t m w e in rw (e', change_loop) (rw (broken, change_loop) broken)

  -- Once the clients are destroyed, as SHUTDOWN leaves them, every further command that the
  -- manager knows dereferences a null pointer, if there is a managed node.
  pub manager_callback-null :
      (c : Command) (m : Manager Name) (w : W) (n : Name) (ns : List Name)
      → m.node_names ≡ n ∷ ns
      → m.clients ≡ []
      → c ≢ other_command
      → (manager_callback nodes c m w).result ≡ null_dereference
  unfolding manager_callback startup resume pause reset shutdown now_inactive shutdown_all_nodes
  manager_callback-null startup_command m w n ns some_node none known =
      rw (pass-null configure false m w n ns some_node none)
  manager_callback-null resume_command m w n ns some_node none known =
      rw (pass-null activate false m w n ns some_node none)
  manager_callback-null pause_command m w n ns some_node none known =
      rw (pass-null deactivate false (now_inactive m) w n ns some_node none)
  manager_callback-null reset_command m w n ns some_node none known =
      rw (pass-null deactivate false (now_inactive m) w n ns some_node none)
  manager_callback-null shutdown_command m w n ns some_node none known =
      rw (pass-null deactivate false (now_inactive m) w n ns some_node none)
  manager_callback-null other_command m w n ns some_node none known = absurd (known refl)
