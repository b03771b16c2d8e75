-- ===== src/BehaviorTree/ActionNode/Handles.antt =====
-- No tick and no halt of BtActionNode dereferences a null goal handle
-- (nav3d_behavior_tree/include/nav3d_behavior_tree/bt_action_node.hpp).
use nav2_3d.Prelude.{
  ℕ, ◌+◌, ◌-◌, Bool, true, false, not, ◌&&◌, ltb, leb, min, Eq, if_rule, ◌≡◌, ◌≢◌, refl, ap, ◌∙◌,
  ◌⊎◌, inl, inr, Option, none, some, List, [], ◌∷◌, arith,
}
use nav2_3d.BehaviorTree.{running}
use nav2_3d.BehaviorTree.ActionNode.{
  ResultCode, unknown, succeeded, canceled, aborted, Waited, interrupted, timed_out, answered,
  ActionNode, Client, Timeouts, Phase, goes, stops, throws, crashes, incomplete, receive_by,
  receive_result, receive_all, send_new_goal, waited, is_future_goal_handle_complete, acknowledged,
  and_then, begin, await_request, await_handle, resend, spin, watch, await_result, conclude, tick,
}

module _ {ℓ} {I : Type 0} {W : Type ℓ} ⦃e : Eq I⦄ (client : Client I W) (timeouts : Timeouts) where
  abbrev pub Has : Option I → Type 0
  Has o = (i : I) × (o ≡ some i)

  -- A request is waited for, or the goal has a handle.
  abbrev pub Held : ActionNode I → Type 0
  Held n = Has n.future_goal_handle ⊎ Has n.goal_handle

  -- The goal has a handle and no request is waited for.
  abbrev pub Accepted : ActionNode I → Type 0
  Accepted n = (n.future_goal_handle ≡ none) × Has n.goal_handle

  -- No null handle; where the code after it runs, `P`, and where RUNNING is returned, a goal is held.
  abbrev pub Sound : (ActionNode I → Type 0) → Phase I W → Type 0
  Sound P (goes n w) = P n
  Sound P (stops s n w) = s ≡ running → Held n
  Sound P (throws n w) = Held n
  Sound P crashes = ⊥

  and_then-Sound :
      (P Q : ActionNode I → Type 0) (p : Phase I W) (next : ActionNode I → W → Phase I W)
      → Sound P p
      → ((n : ActionNode I) (w : W) → P n → Sound Q (next n w))
      → Sound Q (and_then client timeouts p next)
  unfolding and_then
  and_then-Sound P Q (goes n w) next sound more = more n w sound
  and_then-Sound P Q (stops s n w) next sound more = sound
  and_then-Sound P Q (throws n w) next sound more = sound
  and_then-Sound P Q crashes next sound more = absurd sound

  -- While a request is waited for, results are passed over.
  receive_result-future :
      (r : I × ResultCode) (n : ActionNode I)
      → Has n.future_goal_handle
      → receive_result client timeouts r n ≡ some n
  unfolding receive_result receive_by
  receive_result-future r n (f, waits) =
      ap (λ x. receive_by client timeouts x n.goal_handle r n) waits

  pub receive_all-future :
      (rs : List (I × ResultCode)) (n : ActionNode I)
      → Has n.future_goal_handle
      → receive_all client timeouts rs n ≡ some n
  unfolding receive_all
  receive_all-future [] n has = refl
  receive_all-future (r ∷ rs) n has =
      rw (receive_all, receive_result-future r n has) (receive_all-future rs n has)

  receive_by-Accepted :
      (h : I) (r : I × ResultCode) (n : ActionNode I)
      → Accepted n
      → (n' : ActionNode I) × (receive_by client timeouts none (some h) r n ≡ some n') × Accepted n'
  unfolding receive_by
  receive_by-Accepted h (id, code) n accepted =
      (_, refl, if_rule Accepted (e.beq h id) (λ _. accepted) (λ _. accepted))

  -- Results that are received change neither handle.
  receive_result-Accepted :
      (r : I × ResultCode) (n : ActionNode I)
      → Accepted n
      → (n' : ActionNode I) × (receive_result client timeouts r n ≡ some n') × Accepted n'
  unfolding receive_result
  receive_result-Accepted r n (no_future, (h, held)) =
      let (n', gives, accepted) = receive_by-Accepted h r n (no_future, (h, held)) in
      (
        n',
        ap (λ x. receive_by client timeouts x n.goal_handle r n) no_future
            ∙ (ap (λ x. receive_by client timeouts none x r n) held ∙ gives),
        accepted,
      )

  pub receive_all-Accepted :
      (rs : List (I × ResultCode)) (n : ActionNode I)
      → Accepted n
      → (n' : ActionNode I) × (receive_all client timeouts rs n ≡ some n') × Accepted n'
  unfolding receive_all
  receive_all-Accepted [] n accepted = (n, refl, accepted)
  receive_all-Accepted (r ∷ rs) n accepted =
      let (n1, first, accepted1) = receive_result-Accepted r n accepted in
      rw (receive_all, first) (receive_all-Accepted rs n1 accepted1)

  waited-Sound :
      (elapsed : ℕ) (outcome : Waited I) (n : ActionNode I) (w : W)
      → Has n.future_goal_handle
      → Sound Accepted (acknowledged client timeouts (waited client timeouts elapsed outcome n w))
  unfolding waited acknowledged
  waited-Sound elapsed interrupted n w has = λ never. absurd (cc)
  waited-Sound elapsed timed_out n w has =
      if_rule (Sound Accepted) (ltb elapsed timeouts.server_timeout) (λ _. λ _. inl has)
        (λ _. λ never. absurd (cc))
  waited-Sound elapsed (answered none) n w has = λ never. absurd (cc)
  waited-Sound elapsed (answered (some h)) n w has = (refl, (h, refl))

  expired :
      (elapsed : ℕ) (n : ActionNode I) (w : W)
      → leb timeouts.server_timeout elapsed ≡ true
      → Sound Accepted (
          acknowledged client timeouts
            (incomplete elapsed (record n { future_goal_handle = none }) w))
  unfolding acknowledged
  expired elapsed n w late =
      if_rule (Sound Accepted) (ltb elapsed timeouts.server_timeout)
        (λ early. absurd (ground arith)) (λ _. λ never. absurd (cc))

  complete-Sound :
      (sent : I) (n : ActionNode I) (w : W)
      → Has n.future_goal_handle
      → Sound Accepted
          (acknowledged client timeouts (is_future_goal_handle_complete client timeouts sent n w))
  unfolding is_future_goal_handle_complete
  complete-Sound sent n w has =
      let elapsed = client.now w - n.time_goal_sent in
      let timeout = min (timeouts.server_timeout - elapsed) timeouts.max_timeout in
      let (results, outcome, w') = client.spin_until sent timeout w in
      if_rule (λ c. Sound Accepted (acknowledged client timeouts c))
        (leb timeouts.server_timeout elapsed) (λ late. expired elapsed n w late)
        (λ _.
          rw (receive_all-future results n has) (waited-Sound (elapsed + timeout) outcome n w' has))

  begin-Sound :
      (active : Bool) (n : ActionNode I) (w : W)
      → (active ≡ true → Held n)
      → Sound Held (begin client timeouts active n w)
  unfolding begin send_new_goal
  begin-Sound true n w held = held refl
  begin-Sound false n w held =
      if_rule (Sound Held) (not (client.on_tick w).0) (λ _. λ never. absurd (cc))
        (λ _. inl (_, refl))

  await_request-Sound :
      (request : Option I) (n : ActionNode I) (w : W)
      → n.future_goal_handle ≡ request
      → Held n
      → Sound Accepted (await_request client timeouts request n w)
  unfolding await_request
  await_request-Sound none n w request (inl (f, waits)) = absurd (cc)
  await_request-Sound none n w request (inr has) = (request, has)
  await_request-Sound (some sent) n w request held = complete-Sound sent n w (sent, request)

  await_handle-Sound :
      (n : ActionNode I) (w : W) → Held n → Sound Accepted (await_handle client timeouts n w)
  unfolding await_handle
  await_handle-Sound n w held = await_request-Sound n.future_goal_handle n w refl held

  resend-Sound :
      (h : I) (n : ActionNode I) (w : W)
      → Accepted n
      → Sound Accepted (resend client timeouts h n w)
  unfolding resend send_new_goal
  resend-Sound h n w accepted =
      if_rule (Sound Accepted) (n.goal_updated && client.is_pending h w)
        (λ _. await_request-Sound (some (client.send_goal w).0) _ _ refl (inl (_, refl)))
        (λ _. accepted)

  spin-Sound : (n : ActionNode I) (w : W) → Accepted n → Sound Held (spin client timeouts n w)
  unfolding spin
  spin-Sound n w accepted =
      let (results, w') = client.spin_some w in
      let (n', received, (no_future, has)) = receive_all-Accepted results n accepted in
      rw (spin, received)
        (if_rule (Sound Held) (not n'.goal_result_available) (λ _. λ _. inr has) (λ _. inr has))

  watch-Sound :
      (handle : Option I) (n : ActionNode I) (w : W)
      → Has handle
      → Accepted n
      → Sound Held (watch client timeouts handle n w)
  unfolding watch
  watch-Sound none n w (h, wrong) accepted = absurd (cc)
  watch-Sound (some h) n w has accepted =
      and_then-Sound Accepted Held (resend client timeouts h n w) (spin client timeouts)
        (resend-Sound h n w accepted) spin-Sound

  await_result-Sound :
      (n : ActionNode I) (w : W) → Accepted n → Sound Held (await_result client timeouts n w)
  unfolding await_result
  await_result-Sound n w (no_future, has) =
      let (updated, w') = client.on_wait_for_result n.goal_updated w in
      if_rule (Sound Held) (client.ok w && not n.goal_result_available)
        (λ _.
          watch-Sound n.goal_handle (record n { goal_updated = updated }) w' has (no_future, has))
        (λ _. inr has)

  -- The overridden methods do not return RUNNING.
  abbrev pub Finishes : Type ℓ
  Finishes =
      ((w : W) → (client.on_success w).0 ≢ running)
      × ((w : W) → (client.on_aborted w).0 ≢ running)
      × ((w : W) → (client.on_cancelled w).0 ≢ running)

  conclude-Sound :
      Finishes
      → (code : ResultCode) (n : ActionNode I) (w : W) → Held n
      → Sound Held (conclude client timeouts code n w)
  unfolding conclude
  conclude-Sound (done, _, _) succeeded n w held = λ runs. absurd (done w runs)
  conclude-Sound (_, done, _) aborted n w held = λ runs. absurd (done w runs)
  conclude-Sound (_, _, done) canceled n w held = λ runs. absurd (done w runs)
  conclude-Sound finishes unknown n w held = held

  pub tick-Sound :
      Finishes
      → (active : Bool) (n : ActionNode I) (w : W) → (active ≡ true → Held n)
      → Sound Held (tick client timeouts active n w)
  unfolding tick
  tick-Sound finishes active n w held =
      and_then-Sound Held Held (begin client timeouts active n w) _ (begin-Sound active n w held)
        (λ n1 w1 held1.
          and_then-Sound Accepted Held (await_handle client timeouts n1 w1) _
            (await_handle-Sound n1 w1 held1)
            (λ n2 w2 accepted.
              and_then-Sound Held Held (await_result client timeouts n2 w2) _
                (await_result-Sound n2 w2 accepted)
                (λ n3 w3 held3. conclude-Sound finishes n3.result n3 w3 held3)))
