-- ===== src/BehaviorTree/ServiceNode/Outstanding.antt =====
-- The request that a BtServiceNode waits for
-- (nav3d_behavior_tree/include/nav3d_behavior_tree/bt_service_node.hpp).
use nav2_3d.Prelude.{
  ℕ, ◌+◌, ◌≤◌, ltb, ◌≡◌, ◌≢◌, refl, inl, inr, true, false, not, Bool-cases, if◌then◌else◌, if_rule,
  arith,
}
use nav2_3d.BehaviorTree.{NodeStatus, running, BtNode}
use nav2_3d.BehaviorTree.ServiceNode.{
  Spun, completed, timed_out, interrupted, ServiceCalls, ServiceNode, initialize, give_up,
  after_spin, check_future, send, start, initialize_inactive, tick,
}

module _ {ℓ} {R : Type 0} {W : Type ℓ} (bt : BtNode W) (calls : ServiceCalls R W)
    (sent : W → ℕ) where
  -- Only `async_call` sends a request, and the node's own completion does not leave it running.
  pub record Counts : Type ℓ where
    pub by_call : (w : W) → sent (calls.async_call w) ≡ sent w + 1
    pub by_now : (w : W) → sent (calls.now w).1 ≡ sent w
    pub by_ros : (w : W) → sent (calls.create_ros_interfaces w) ≡ sent w
    pub by_on_tick : (w : W) → sent (calls.on_tick w).1 ≡ sent w
    pub by_spin : (t : ℕ) (w : W) → sent (calls.spin_until_complete t w).1 ≡ sent w
    pub by_completion : (r : R) (w : W) → sent (calls.on_completion r w).1 ≡ sent w
    pub by_wait : (w : W) → sent (calls.on_wait_for_result w) ≡ sent w
    pub decides : (r : R) (w : W) → (calls.on_completion r w).0 ≢ running

  -- RUNNING is returned exactly with a request outstanding, and no more than `limit` were sent.
  abbrev pub Ticks : ℕ → NodeStatus × ServiceNode × W → Type 0
  Ticks limit r =
      ((r.0 ≡ running → r.1.request_sent ≡ true) × (r.1.request_sent ≡ true → r.0 ≡ running))
      × (sent r.2 ≤ limit)

  module _ (counts : Counts) where
    spin-Ticks :
        (n : ℕ) (s : ServiceNode) (p : Spun R × W)
        → s.request_sent ≡ true
        → sent p.1 ≤ n
        → Ticks n (after_spin bt calls s p)
    unfolding after_spin give_up
    spin-Ticks n s (completed r, w) out few =
        ground (arith, counts.by_completion r w, counts.decides r w)
    spin-Ticks n s (timed_out, w) out few =
        ground (arith, counts.by_now (calls.on_wait_for_result w), counts.by_wait w)
    spin-Ticks n s (interrupted, w) out few = ground arith

    check_future-Ticks :
        (n : ℕ) (s : ServiceNode) (w : W)
        → s.request_sent ≡ true
        → sent w ≤ n
        → Ticks n (check_future bt calls s w)
    unfolding check_future give_up
    check_future-Ticks n s w out few =
        if_rule (Ticks n) (ltb (calls.now w).0 (s.sent_time + s.server_timeout))
          (λ _. spin-Ticks n s _ out (omega (arith, counts.by_spin, counts.by_now w)))
          (λ _. ((λ r. absurd (cc), λ r. absurd (cc)), omega (arith, counts.by_now w)))

    start-Ticks :
        (n : ℕ) (s : ServiceNode) (w : W)
        → s.request_sent ≡ false
        → sent w + 1 ≤ n
        → Ticks n (start bt calls s w)
    unfolding start send
    start-Ticks n s w idle few =
        if_rule (Ticks n) (not (calls.on_tick w).0)
          (λ _. ((λ r. absurd (cc), λ r. absurd (cc)), omega (arith, counts.by_on_tick w)))
          (λ _.
            let asked : W = calls.async_call (calls.on_tick w).1 in
            check_future-Ticks n (send bt calls s (calls.on_tick w).1).0 (calls.now asked).1 refl (
              omega (
                arith,
                counts.by_now asked,
                counts.by_call (calls.on_tick w).1,
                counts.by_on_tick w,
              )))

    -- What follows the initialisation.
    abbrev goes_on : ServiceNode × W → NodeStatus × ServiceNode × W
    goes_on (s, w) = if not s.request_sent then start bt calls s w else check_future bt calls s w

    goes_on-Ticks :
        (n : ℕ) (s : ServiceNode) (w : W)
        → sent w + (if s.request_sent then 0 else 1) ≤ n
        → Ticks n (goes_on (s, w))
    goes_on-Ticks n s w few = elim (Bool-cases s.request_sent) [
      | inl out ↦
          if_rule (Ticks n) (not s.request_sent) (λ idle. absurd (ground arith))
            (λ _. check_future-Ticks n s w out (ground arith))
      | inr idle ↦
          if_rule (Ticks n) (not s.request_sent) (λ _. start-Ticks n s w idle (ground arith))
            (λ out. absurd (ground arith))
    ]

    -- A tick of a BtServiceNode returns RUNNING if and only if a request is outstanding
    -- afterwards, and it sends at most one request, and none where one was outstanding before. The
    -- conditions: only async_call sends requests, and the method that a derived node overrides for
    -- the response does not return RUNNING.
    pub tick-Ticks :
        (s : ServiceNode) (w : W)
        → Ticks (sent w + (if s.request_sent then 0 else 1)) (tick bt calls s w)
    unfolding tick initialize_inactive initialize
    tick-Ticks s w =
        if_rule
          (λ (p : ServiceNode × W). Ticks (sent w + (if s.request_sent then 0 else 1)) (goes_on p))
          (not (bt.is_status_active (bt.status w)))
          (λ _. goes_on-Ticks _ (initialize bt calls s w).0 _ (omega (arith, counts.by_ros w)))
          (λ _. goes_on-Ticks _ s w (omega arith))
