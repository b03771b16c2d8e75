-- ===== src/Navigation/Engine/Ending.antt =====
-- How BehaviorTreeEngine::run comes to an end (nav3d_behavior_tree/src/behavior_tree_engine.cpp).
use nav2_3d.Prelude.{
  ℕ, zero, suc, ◌+◌, ◌<◌, true, false, ◌&&◌, ◌≡◌, ◌≢◌, refl, inl, inr, Bool-cases, arith,
}
use nav2_3d.BehaviorTree.{NodeStatus, Outcome, returned, thrown, running, success}
use nav2_3d.Navigation.Engine.{
  BtStatus, canceled, failed, succeeded, Call, normal, throws, Run, ends, crashes, out_of_fuel,
  EndsIn, Callbacks, is_running, verdict, after_loop, after_tick, loop, run,
}
use nav2_3d.Navigation.Engine as Engine

module _ {ℓ} {S : Type ℓ} (callbacks : Callbacks S) (I K : S → Type 0) (turns : S → ℕ) where
  open callbacks use {ok, cancel_requested, halt_tree, tick_once, on_loop, sleep}

  -- What a tick that returns and the `on_loop` after it do: no null pointer, and where the tree goes on
  -- running, there are fewer turns left.
  abbrev pub Turn : S → Outcome → S → Type 0
  Turn s thrown s1 = K s1
  Turn s (returned r) s1 =
      let (c, s2) = on_loop s1 in
      (c ≢ Engine.Call.crashes)
      × K s2
      × I (sleep s2)
      × (is_running r ≡ true → turns (sleep s2) < turns s)

  module _ (stays : (s : S) → I s → K s) (halts : (s : S) → I s → K (halt_tree s))
      (turn : (s : S)
        → I s
        → ok s ≡ true
        → cancel_requested s ≡ false
        → let t = tick_once s in Turn s t.0 t.1) where
    after_loop-EndsIn :
        (c : Call) (s : S) (rest : S → Run (BtStatus × S))
        → c ≢ Engine.Call.crashes
        → K s
        → EndsIn (λ (end : BtStatus × S). K end.1) (rest (sleep s))
        → EndsIn (λ (end : BtStatus × S). K end.1) (after_loop callbacks c s rest)
    unfolding after_loop
    after_loop-EndsIn throws s rest safe k more = k
    after_loop-EndsIn Engine.Call.crashes s rest safe k more = absurd (safe refl)
    after_loop-EndsIn normal s rest safe k more = more

    -- `rest` ends where it has a round, and two where the tree is running.
    after_tick-EndsIn :
        (o : Outcome) (s s' : S) (rest : NodeStatus → S → Run (BtStatus × S))
        → Turn s o s'
        → ((r : NodeStatus) (next : S)
            → I next
            → (is_running r ≡ true → turns next < turns s)
            → EndsIn (λ (end : BtStatus × S). K end.1) (rest r next))
        → EndsIn (λ (end : BtStatus × S). K end.1) (after_tick callbacks o s' rest)
    unfolding after_tick
    after_tick-EndsIn thrown s s' rest k more = k
    after_tick-EndsIn (returned r) s s' rest after more =
        let (c, s2) = on_loop s' in
        after_loop-EndsIn c s2 (rest r) after.0 after.1 (more r (sleep s2) after.2 after.3)

    loop-EndsIn :
        (fuel : ℕ) (r : NodeStatus) (s : S)
        → I s
        → 0 < fuel
        → (is_running r ≡ true → turns s + 1 < fuel)
        → EndsIn (λ (end : BtStatus × S). K end.1) (loop callbacks fuel r s)
    unfolding loop
    loop-EndsIn zero r s i some_fuel enough = absurd (omega (arith, some_fuel))
    loop-EndsIn (suc fuel) r s i some_fuel enough = elim (Bool-cases (ok s && is_running r)) [
      | inr over ↦ rw (over, loop) (stays s i)
      | inl goes ↦ elim (Bool-cases (cancel_requested s)) [
        | inl cancels ↦ rw (goes, cancels, loop) (halts s i)
        | inr quiet ↦
            let up : ok s ≡ true = ground arith in
            let more : turns s + 1 < suc fuel = enough (ground arith) in
            let (o, s') = tick_once s in
            rw (goes, quiet, loop)
              (after_tick-EndsIn o s s' (loop callbacks fuel) (turn s i up quiet)
                (λ r' next i' fewer.
                  loop-EndsIn fuel r' next i' (omega (arith, more))
                    (λ runs. omega (arith, more, fewer runs))))
      ]
    ]

    pub run-EndsIn :
        (fuel : ℕ) (s : S)
        → I s
        → turns s + 1 < fuel
        → EndsIn (λ (end : BtStatus × S). K end.1) (run callbacks fuel s)
    unfolding run
    run-EndsIn fuel s i enough = loop-EndsIn fuel running s i (omega (arith, enough)) (λ _. enough)

module _ {ℓ} {S : Type ℓ} (callbacks : Callbacks S) where
  open callbacks use {ok, cancel_requested, tick_once, on_loop, sleep}

  loop-success : (fuel : ℕ) (s : S) → loop callbacks (suc fuel) success s ≡ ends (succeeded, s)
  unfolding loop verdict
  loop-success fuel s = elim (Bool-cases (ok s)) [
    | inl still ↦ rw (still, loop) refl
    | inr down ↦ rw (down, loop) refl
  ]

  -- The round in which the tree succeeds runs to its end.
  pub run-last :
      (fuel : ℕ) (s : S)
      → ok s ≡ true
      → cancel_requested s ≡ false
      → (tick_once s).0 ≡ returned success
      → let s1 = (tick_once s).1 in
        (on_loop s1).0 ≡ normal
        → run callbacks (suc (suc fuel)) s ≡ ends (succeeded, sleep (on_loop s1).1)
  unfolding run loop after_tick after_loop
  run-last fuel s up quiet ended calm =
      rw (up, quiet, ended, calm, run, loop) (loop-success fuel (sleep (on_loop (tick_once s).1).1))
