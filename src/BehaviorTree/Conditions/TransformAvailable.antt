-- ===== src/BehaviorTree/Conditions/TransformAvailable.antt =====
-- nav3d_behavior_tree/plugins/condition/transform_available_condition.cpp.
use nav2_3d.Prelude.{
  ◌≡◌, ◌⊎◌, Bool, true, not, ◌||◌, Eq, if◌then◌else◌, Option, List, [], ◌∷◌, All, arith,
}
use nav2_3d.BehaviorTree.{success, failure, BtNode, Outcome, returned, thrown, get_input}

pub record TransformAvailable (F : Type 0) : Type 0 where
  pub was_found : Bool
  pub child_frame : F
  pub parent_frame : F

-- The input ports, the empty name of a frame, and canTransform of the buffer of transforms.
pub record Transforms {ℓ} (F : Type 0) (W : Type ℓ) : Type ℓ where
  pub empty : F
  pub child_port : W → Option F
  pub parent_port : W → Option F
  pub can_transform : F → F → W → Bool

module _ {ℓ} {F : Type 0} {W : Type ℓ} ⦃e : Eq F⦄ (bt : BtNode W) (tf : Transforms F W) where
  unfoldable pub initialize : W → TransformAvailable F → TransformAvailable F
  initialize w s = record s {
    child_frame = get_input (tf.child_port w) s.child_frame;
    parent_frame = get_input (tf.parent_port w) s.parent_frame;
  }

  -- What follows the initialisation.
  unfoldable pub look_up : W → TransformAvailable F → Outcome × TransformAvailable F
  look_up w s =
      if s.was_found
      then (returned success, s)
      else if tf.can_transform s.child_frame s.parent_frame w
      then (returned success, record s { was_found = true })
      else (returned failure, s)

  unfoldable pub tick : W → TransformAvailable F → Outcome × TransformAvailable F
  unfolding initialize look_up
  tick w s =
      if not (bt.is_status_active (bt.status w))
      then (let s' = initialize w s in
          if e.beq s'.child_frame tf.empty || e.beq s'.parent_frame tf.empty
          then (thrown, s')
          else look_up w s')
      else look_up w s

  -- Ticks in the worlds of a list.
  pub ticks : List W → TransformAvailable F → List Outcome
  ticks [] s = []
  ticks (w ∷ ws) s = let (o, s') = tick w s in o ∷ ticks ws s'

  -- The tick returns SUCCESS, or throws because a frame is missing.
  abbrev pub Latched : Outcome → Type 0
  Latched o = (o ≡ returned success) ⊎ (o ≡ thrown)

  tick-found :
      (w : W) (s : TransformAvailable F)
      → s.was_found ≡ true
      → Latched (tick w s).0 × ((tick w s).1.was_found ≡ true)
  unfolding tick look_up initialize
  tick-found w s found = ground arith

  ticks-found :
      (ws : List W) (s : TransformAvailable F) → s.was_found ≡ true → All Latched (ticks ws s)
  unfolding ticks
  ticks-found [] s found = tt
  ticks-found (w ∷ ws) s found =
      let step = tick-found w s found in (step.0, ticks-found ws (tick w s).1 step.1)

  tick-success :
      (w : W) (s : TransformAvailable F)
      → (tick w s).0 ≡ returned success
      → (tick w s).1.was_found ≡ true
  unfolding tick look_up initialize
  tick-success w s found = ground arith

  -- After a tick that returns SUCCESS, every later tick returns SUCCESS or throws.
  pub ticks-Latched :
      (w : W) (ws : List W) (s : TransformAvailable F)
      → (tick w s).0 ≡ returned success
      → All Latched (ticks ws (tick w s).1)
  ticks-Latched w ws s found = ticks-found ws (tick w s).1 (tick-success w s found)
