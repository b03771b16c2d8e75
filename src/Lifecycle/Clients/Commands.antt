-- ===== src/Lifecycle/Clients/Commands.antt =====
-- The commands, while every managed node has a client.
use nav2_3d.Prelude.{
  ◌≡◌, ◌≢◌, refl, sym, subst, inl, inr, Bool, true, false, not, ◌&&◌, List, [], ◌∷◌, Eq, contains,
  if_rule, Covers, Bool-cases, arith,
}
use nav2_3d.Prelude.Int.{is_positive}
use nav2_3d.Lifecycle.Services.{
  Transition, configure, cleanup, activate, deactivate, unconfigured_shutdown, returns,
  null_dereference, Nodes, result_cases, is_returned, is_thrown, is_null, change_state, get_state,
}
use nav2_3d.Lifecycle.Manager.{
  Manager, change_state_for_node, change_loop, order, change_state_for_all_nodes,
}
use nav2_3d.Lifecycle.Operations.{
  Command, startup_command, pause_command, resume_command, reset_command, shutdown_command,
  other as other_command, manager_callback, done, startup, resume, pause, reset, shutdown,
  on_activated, on_configured, now_inactive, on_deactivated, on_cleaned, shutdown_all_nodes,
  after_deactivation, after_cleanup,
}
use nav2_3d.Lifecycle.Changes.{node-Frame, loop-Frame}
use nav2_3d.Lifecycle.Clients.{
  HasClients, Answers, IsSafe, All-order, clients_of_Frame, Frame-HasClients, then-IsSafe,
  then-shutdown,
}

module _ {ℓ} {Name : Type 0} {W : Type ℓ} ⦃e : Eq Name⦄ (nodes : Nodes Name W) where
  node-not_null :
      (n : Name) (t : Transition) (m : Manager Name) (w : W)
      → contains m.clients n ≡ true
      → (change_state_for_node nodes n t m w).result ≢ null_dereference
  unfolding change_state_for_node change_state get_state
  node-not_null n t m w h = ground arith

  loop-Answers :
      (ns : List Name) (t : Transition) (hard : Bool) (m : Manager Name) (w : W)
      → Covers ns m.clients
      → Answers (change_loop nodes ns t hard m w).result
  unfolding change_loop
  loop-Answers [] t hard m w h = tt
  loop-Answers (n ∷ ns) t hard m w h =
      let d = change_state_for_node nodes n t m w in
      let f = node-Frame nodes n t m w in
      let here = node-not_null n t m w h.0 in
      let rest =
        loop-Answers ns t hard d.manager d.world
          (subst (λ cs. Covers ns cs) (sym (clients_of_Frame m d.manager f)) h.1) in
      elim (result_cases d.result) [
        | is_thrown r ↦ rw (r, change_loop) tt
        | is_null r ↦ absurd (here r)
        | is_returned changed r ↦ elim (Bool-cases (not changed && not hard)) [
          | inl stop ↦ rw (r, change_loop) (rw (stop, change_loop) tt)
          | inr on ↦ rw (r, change_loop) (rw (on, change_loop) rest)
        ]
      ]

  pass-IsSafe :
      (t : Transition) (hard : Bool) (m : Manager Name) (w : W)
      → HasClients m
      → IsSafe (change_state_for_all_nodes nodes t hard m w)
  unfolding change_state_for_all_nodes
  pass-IsSafe t hard m w h = (
    loop-Answers (order t m.node_names) t hard m w (All-order _ t m.node_names h),
    Frame-HasClients m _ (loop-Frame nodes (order t m.node_names) t hard m w) h,
  )

  on_activated-IsSafe :
      (b : Bool) (m : Manager Name) (w : W) → HasClients m → IsSafe (on_activated b m w)
  unfolding on_activated
  on_activated-IsSafe true m w h =
      if_rule (λ (m' : Manager Name). IsSafe (done true m' w)) (is_positive m.bond_timeout)
        (λ _. (tt, h)) (λ _. (tt, h))
  on_activated-IsSafe false m w h = (tt, h)

  resume-IsSafe : (m : Manager Name) (w : W) → HasClients m → IsSafe (resume nodes m w)
  unfolding resume
  resume-IsSafe m w h =
      let safe = pass-IsSafe activate false m w h in
      then-IsSafe _ on_activated safe (λ b. on_activated-IsSafe b _ _ safe.1)

  on_configured-IsSafe :
      (b : Bool) (m : Manager Name) (w : W) → HasClients m → IsSafe (on_configured nodes b m w)
  unfolding on_configured resume
  on_configured-IsSafe true m w h = resume-IsSafe m w h
  on_configured-IsSafe false m w h = (tt, h)

  startup-IsSafe : (m : Manager Name) (w : W) → HasClients m → IsSafe (startup nodes m w)
  unfolding startup
  startup-IsSafe m w h =
      let safe = pass-IsSafe configure false m w h in
      then-IsSafe _ (on_configured nodes) safe (λ b. on_configured-IsSafe b _ _ safe.1)

  pause-IsSafe : (m : Manager Name) (w : W) → HasClients m → IsSafe (pause nodes m w)
  unfolding pause now_inactive
  pause-IsSafe m w h =
      let safe = pass-IsSafe deactivate false (now_inactive m) w h in
      then-IsSafe _ done safe (λ b. (tt, safe.1))

  on_cleaned-IsSafe :
      (hard b : Bool) (m : Manager Name) (w : W) → HasClients m → IsSafe (on_cleaned hard b m w)
  unfolding on_cleaned
  on_cleaned-IsSafe hard true m w h = (tt, h)
  on_cleaned-IsSafe hard false m w h = (tt, h)

  on_deactivated-IsSafe :
      (hard b : Bool) (m : Manager Name) (w : W)
      → HasClients m
      → IsSafe (on_deactivated nodes hard b m w)
  unfolding on_deactivated
  on_deactivated-IsSafe hard true m w h =
      let safe = pass-IsSafe cleanup hard m w h in
      then-IsSafe _ (on_cleaned hard) safe (λ b. on_cleaned-IsSafe hard b _ _ safe.1)
  on_deactivated-IsSafe hard false m w h = (tt, h)

  pub reset-IsSafe :
      (hard : Bool) (m : Manager Name) (w : W) → HasClients m → IsSafe (reset nodes hard m w)
  unfolding reset now_inactive
  reset-IsSafe hard m w h =
      let safe = pass-IsSafe deactivate hard (now_inactive m) w h in
      then-IsSafe _ (on_deactivated nodes hard) safe (λ b. on_deactivated-IsSafe hard b _ _ safe.1)

  after_deactivation-IsSafe :
      (b : Bool) (m : Manager Name) (w : W) → HasClients m → IsSafe (after_deactivation nodes b m w)
  unfolding after_deactivation
  after_deactivation-IsSafe b m w h =
      let safe = pass-IsSafe cleanup false m w h in
      then-IsSafe _ (after_cleanup nodes) safe
        (λ b'. pass-IsSafe unconfigured_shutdown false _ _ safe.1)

  shutdown_all_nodes-IsSafe :
      (m : Manager Name) (w : W) → HasClients m → IsSafe (shutdown_all_nodes nodes m w)
  unfolding shutdown_all_nodes
  shutdown_all_nodes-IsSafe m w h =
      let safe = pass-IsSafe deactivate false m w h in
      then-IsSafe _ (after_deactivation nodes) safe (λ b. after_deactivation-IsSafe b _ _ safe.1)

  shutdown_ends :
      (m : Manager Name) (w : W)
      → HasClients m
      → ((shutdown nodes m w).result ≡ returns true) × ((shutdown nodes m w).manager.clients ≡ [])
  unfolding shutdown now_inactive
  shutdown_ends m w h =
      then-shutdown (shutdown_all_nodes nodes (now_inactive m) w)
        (shutdown_all_nodes-IsSafe (now_inactive m) w h).0

  -- While every managed node has a client, every command returns, whatever the nodes answer: it
  -- neither throws nor dereferences a null pointer. Every command but SHUTDOWN leaves every
  -- managed node with its client.
  pub manager_callback-Answers :
      (c : Command) (m : Manager Name) (w : W)
      → HasClients m
      → let d = manager_callback nodes c m w in
        Answers d.result × (c ≢ shutdown_command → HasClients d.manager)
  unfolding manager_callback
  manager_callback-Answers startup_command m w h =
      let safe = startup-IsSafe m w h in (safe.0, λ _. safe.1)
  manager_callback-Answers resume_command m w h =
      let safe = resume-IsSafe m w h in (safe.0, λ _. safe.1)
  manager_callback-Answers pause_command m w h =
      let safe = pause-IsSafe m w h in (safe.0, λ _. safe.1)
  manager_callback-Answers reset_command m w h =
      let safe = reset-IsSafe false m w h in (safe.0, λ _. safe.1)
  manager_callback-Answers shutdown_command m w h =
      (subst Answers (sym (shutdown_ends m w h).0) tt, λ other. absurd (other refl))
  manager_callback-Answers other_command m w h = (tt, λ _. h)
