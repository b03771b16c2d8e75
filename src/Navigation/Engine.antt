-- ===== src/Navigation/Engine.antt =====
-- BehaviorTreeEngine::run (nav3d_behavior_tree/src/behavior_tree_engine.cpp).
pub mod Ending
use nav2_3d.Prelude.{ℕ, zero, suc, Bool, true, false, ◌&&◌, Option, none, some}
use nav2_3d.BehaviorTree.{
  NodeStatus, idle, running, success, failure, skipped, Outcome, returned, thrown,
}

pub data BtStatus : Type 0 where
  succeeded failed canceled : BtStatus

-- What a call does: it returns, throws a std::exception, or dereferences a null pointer.
pub data Call : Type 0 where
  normal throws crashes : Call

-- What becomes of a run: it ends, it crashes, or the fuel has run out.
pub data Run {ℓ} (A : Type ℓ) : Type ℓ where
  ends : A → Run A
  crashes out_of_fuel : Run A

-- A run ends, and what it gives has the property.
abbrev pub EndsIn {ℓ} : {A : Type ℓ} → (A → Type 0) → Run A → Type 0
EndsIn P (ends a) = P a
EndsIn P crashes = ⊥
EndsIn P out_of_fuel = ⊥

pub EndsIn-imply {ℓ} :
    {A : Type ℓ} {P Q : A → Type 0} (r : Run A) → ((a : A) → P a → Q a) → EndsIn P r → EndsIn Q r
EndsIn-imply (ends a) imply p = imply a p
EndsIn-imply crashes imply never = absurd never
EndsIn-imply out_of_fuel imply never = absurd never

-- The tree and the callbacks over the state `S` of all that they act on.
pub record Callbacks {ℓ} (S : Type ℓ) : Type ℓ where
  pub ok : S → Bool  -- rclcpp::ok()
  pub cancel_requested : S → Bool
  pub halt_tree : S → S
  pub tick_once : S → Outcome × S
  pub on_loop : S → Call × S
  pub sleep : S → S  -- loopRate.sleep()

-- After the loop.
pub verdict : NodeStatus → BtStatus
verdict success = succeeded
verdict _ = failed

abbrev pub is_running : NodeStatus → Bool
is_running running = true
is_running _ = false

module _ {ℓ} {S : Type ℓ} (callbacks : Callbacks S) where
  open callbacks use {ok, cancel_requested, halt_tree, tick_once, on_loop, sleep}

  -- What follows `onLoop` in a round; `rest` are the rounds to come.
  pub after_loop : Call → S → (S → Run (BtStatus × S)) → Run (BtStatus × S)
  after_loop throws s rest = ends (failed, s)
  after_loop crashes s rest = Run.crashes
  after_loop normal s rest = rest (sleep s)

  -- What follows the tick in a round.
  pub after_tick : Outcome → S → (NodeStatus → S → Run (BtStatus × S)) → Run (BtStatus × S)
  unfolding after_loop
  after_tick thrown s rest = ends (failed, s)
  after_tick (returned r) s rest = let (c, s') = on_loop s in after_loop c s' (rest r)

  -- The `while` loop, where the last tick gave `result`.
  pub loop : ℕ → NodeStatus → S → Run (BtStatus × S)
  unfolding verdict after_tick
  loop zero result s = out_of_fuel
  loop (suc fuel) result s = elim (ok s && is_running result) [
    | false ↦ ends (verdict result, s)
    | true ↦ elim (cancel_requested s) [
      | true ↦ ends (canceled, halt_tree s)
      | false ↦ let (o, s') = tick_once s in after_tick o s' (loop fuel)
    ]
  ]

  unfoldable pub run : ℕ → S → Run (BtStatus × S)
  unfolding loop
  run fuel s = loop fuel running s
