-- ===== src/Lifecycle/Invariant/Commands.antt =====
-- The manager's commands against the invariant.
use nav2_3d.Prelude.{
  ◌≡◌, refl, sym, ap, subst, ◌∙◌, ◌⊎◌, inl, inr, Bool, true, false, Eq, Covers, Bool-cases, arith,
}
use nav2_3d.Prelude.Int.{is_positive}
use nav2_3d.Lifecycle.Services.{
  configure, cleanup, activate, deactivate, unconfigured_shutdown, returns, Nodes,
}
use nav2_3d.Lifecycle.Manager.{Manager, change_loop, change_state_for_all_nodes}
use nav2_3d.Lifecycle.Operations.{
  Command, startup_command, pause_command, resume_command, reset_command, shutdown_command,
  other as other_command, startup, resume, pause, reset, shutdown, manager_callback, done,
  now_inactive, on_activated, on_configured, on_cleaned, on_deactivated, after_cleanup,
  after_deactivation, after_shutdown, shutdown_all_nodes,
}
use nav2_3d.Lifecycle.Changes.{names_of_Frame, timeout_of_Frame, loop-Frame, loop-bonded}
use nav2_3d.Lifecycle.Invariant.{Inv, Idle, Idle-Inv, then_rule, pass-Inv, pass-Idle}

module _ {ℓ} {Name : Type 0} {W : Type ℓ} ⦃e : Eq Name⦄ (nodes : Nodes Name W) where
  -- The switch to an active system.
  on_activated-Inv :
      (b : Bool) (m : Manager Name) (w : W)
      → Inv m
      → (b ≡ true → is_positive m.bond_timeout ≡ true → Covers m.node_names m.bonds)
      → Inv (on_activated b m w).manager
  unfolding on_activated
  on_activated-Inv true m w h covered = elim (Bool-cases (is_positive m.bond_timeout)) [
    | inl timed ↦
        rw timed (record { timer_active = λ _. (refl, timed); bonded = λ _ t. covered refl t })
    | inr untimed ↦
        rw untimed (record { timer_active = λ t. (refl, (h.timer_active t).1); bonded = λ _ t. cc })
  ]
  on_activated-Inv false m w h covered = h

  activate-Covers :
      (m : Manager Name) (w : W)
      → let d = change_state_for_all_nodes nodes activate false m w in
        d.result ≡ returns true
        → is_positive d.manager.bond_timeout ≡ true
        → Covers d.manager.node_names d.manager.bonds
  unfolding change_state_for_all_nodes
  activate-Covers m w r timed =
      let d = change_loop nodes m.node_names activate false m w in
      let f = loop-Frame nodes m.node_names activate false m w in
      subst (λ ns. Covers ns d.manager.bonds) (sym (names_of_Frame m d.manager f))
        (loop-bonded nodes m.node_names m w (sym (timeout_of_Frame m d.manager f) ∙ timed) r)

  pub resume-Inv : (m : Manager Name) (w : W) → Inv m → Inv (resume nodes m w).manager
  unfolding resume
  resume-Inv m w h =
      let passed = pass-Inv nodes activate false m w (λ c. cc) h in
      then_rule Inv (change_state_for_all_nodes nodes activate false m w) on_activated passed
        λ b r. on_activated-Inv b _ _ passed λ t. activate-Covers m w (r ∙ ap returns t)

  on_configured-Inv :
      (b : Bool) (m : Manager Name) (w : W) → Inv m → Inv (on_configured nodes b m w).manager
  unfolding on_configured change_state_for_all_nodes resume
  on_configured-Inv true m w h = resume-Inv m w h
  on_configured-Inv false m w h = h

  pub startup-Inv : (m : Manager Name) (w : W) → Inv m → Inv (startup nodes m w).manager
  unfolding startup
  startup-Inv m w h =
      let configured = pass-Inv nodes configure false m w (λ c. cc) h in
      then_rule Inv (change_state_for_all_nodes nodes configure false m w) (on_configured nodes)
        configured λ b r. on_configured-Inv b _ _ configured

  now_inactive-Idle : (m : Manager Name) → Idle (now_inactive m)
  unfolding now_inactive
  now_inactive-Idle m = (refl, refl)

  pause-Idle : (m : Manager Name) (w : W) → Idle (pause nodes m w).manager
  unfolding pause
  pause-Idle m w =
      let passed = pass-Idle nodes deactivate false _ w (now_inactive-Idle m) in
      then_rule Idle (change_state_for_all_nodes nodes deactivate false (now_inactive m) w) done
        passed λ b r. passed

  on_deactivated-Idle :
      (hard b : Bool) (m : Manager Name) (w : W)
      → Idle m
      → Idle (on_deactivated nodes hard b m w).manager
  unfolding on_deactivated
  on_deactivated-Idle hard false m w h = h
  on_deactivated-Idle hard true m w h =
      let cleaned = pass-Idle nodes cleanup hard m w h in
      then_rule Idle (change_state_for_all_nodes nodes cleanup hard m w) (on_cleaned hard) cleaned
        λ b r. ground arith

  pub reset-Idle : (hard : Bool) (m : Manager Name) (w : W) → Idle (reset nodes hard m w).manager
  unfolding reset
  reset-Idle hard m w =
      let passed = pass-Idle nodes deactivate hard _ w (now_inactive-Idle m) in
      then_rule Idle (change_state_for_all_nodes nodes deactivate hard (now_inactive m) w)
        (on_deactivated nodes hard) passed λ b r. on_deactivated-Idle hard b _ _ passed

  after_deactivation-Idle :
      (b : Bool) (m : Manager Name) (w : W) → Idle m → Idle (after_deactivation nodes b m w).manager
  unfolding after_deactivation
  after_deactivation-Idle b m w h =
      let cleaned = pass-Idle nodes cleanup false m w h in
      then_rule Idle (change_state_for_all_nodes nodes cleanup false m w) (after_cleanup nodes)
        cleaned λ b' r. pass-Idle nodes unconfigured_shutdown false _ _ cleaned

  shutdown_all_nodes-Idle :
      (m : Manager Name) (w : W) → Idle m → Idle (shutdown_all_nodes nodes m w).manager
  unfolding shutdown_all_nodes
  shutdown_all_nodes-Idle m w h =
      let passed = pass-Idle nodes deactivate false m w h in
      then_rule Idle (change_state_for_all_nodes nodes deactivate false m w)
        (after_deactivation nodes) passed λ b r. after_deactivation-Idle b _ _ passed

  pub shutdown-Idle : (m : Manager Name) (w : W) → Idle (shutdown nodes m w).manager
  unfolding shutdown
  shutdown-Idle m w =
      let passed = shutdown_all_nodes-Idle _ w (now_inactive-Idle m) in
      then_rule Idle (shutdown_all_nodes nodes (now_inactive m) w) after_shutdown passed
        λ b r. passed

  pub manager_callback-Inv :
      (c : Command) (m : Manager Name) (w : W) → Inv m → Inv (manager_callback nodes c m w).manager
  unfolding manager_callback
  manager_callback-Inv startup_command m w h = startup-Inv m w h
  manager_callback-Inv resume_command m w h = resume-Inv m w h
  manager_callback-Inv pause_command m w h = Idle-Inv _ (pause-Idle m w)
  manager_callback-Inv reset_command m w h = Idle-Inv _ (reset-Idle false m w)
  manager_callback-Inv shutdown_command m w h = Idle-Inv _ (shutdown-Idle m w)
  manager_callback-Inv other_command m w h = h

  abbrev pub TakesDown : Command → Type 0
  TakesDown c = (c ≡ pause_command) ⊎ (c ≡ reset_command) ⊎ (c ≡ shutdown_command)

  -- The commands PAUSE, RESET and SHUTDOWN leave the system inactive and its bond timer off,
  -- whatever the nodes answer.
  pub TakesDown-Idle :
      (c : Command) (m : Manager Name) (w : W)
      → TakesDown c
      → let m' = (manager_callback nodes c m w).manager in
        (m'.system_active ≡ false) × (m'.bond_timer ≡ false)
  unfolding manager_callback
  TakesDown-Idle c m w (inl p) = rw p (pause-Idle m w)
  TakesDown-Idle c m w (inr (inl p)) = rw p (reset-Idle false m w)
  TakesDown-Idle c m w (inr (inr p)) = rw p (shutdown-Idle m w)
