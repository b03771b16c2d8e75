-- ===== src/BehaviorTree/Actions/GetPoseFromPath.antt =====
-- nav3d_behavior_tree/plugins/action/get_pose_from_path_action.cpp. A path has fewer than 2 ^ 31 poses,
-- so that the `int` of its size does not wrap.
use mathlib.Core.List.{reverse-cons}
use nav2_3d.Prelude.{
  leb→le, ℕ, zero, suc, ◌-◌, ◌≤◌, ◌<◌, ◌≡◌, refl, ap, sym, subst, inl, inr, Bool-cases,
  length-append, ◌∙◌, Bool, true, false, Option, none, some, if◌then◌else◌, arith, List, [], ◌∷◌,
  ◌++◌, length, get_elem?, is_empty, leb, ltb, reverse,
}
use nav2_3d.Prelude.Int.{ℤ, pos, negsuc}
use nav2_3d.BehaviorTree.{NodeStatus, running, success, failure, BtNode}
use nav2_3d.BehaviorTree.Actions.{PosePath}

-- A pose with its frame, empty or not.
pub record PoseStamped (F P : Type 0) : Type 0 where
  pub frame_id : F
  pub pose : P

-- `pose_index` once the size is added to a negative one: none where it is still negative.
abbrev pub from_end : ℕ → ℤ → Option ℕ
from_end size (pos i) = some i
from_end size (negsuc i) = if leb (suc i) size then some (size - suc i) else none

module _ {ℓ} {F P : Type 0} {W : Type ℓ} (bt : BtNode W) (frame_is_empty : F → Bool)
    (set_output : PoseStamped F P → W → W) where
  -- The pose that is sent on, in the path's frame if it has none of its own.
  output_pose : F → PoseStamped F P → PoseStamped F P
  output_pose frame p = if frame_is_empty p.frame_id then record p { frame_id = frame } else p

  -- The pose at an index, if there is one.
  pub send : F → Option (PoseStamped F P) → W → NodeStatus × W
  unfolding output_pose
  send frame none w = (failure, w)
  send frame (some p) w = (success, set_output (output_pose frame p) w)

  send_at : PosePath F (PoseStamped F P) → Option ℕ → W → NodeStatus × W
  unfolding send
  send_at path none w = (failure, w)
  send_at path (some i) w =
      if leb (length path.poses) i
      then (failure, w)
      else send path.header (get_elem? path.poses i) w

  pub get_pose_from_path : PosePath F (PoseStamped F P) → ℤ → W → NodeStatus × W
  unfolding send_at
  get_pose_from_path path index w =
      let w1 = bt.set_status running w in
      if is_empty path.poses
      then (failure, w1)
      else send_at path (from_end (length path.poses) index) w1

-- What an index denotes: a negative one counts from the end.
abbrev pub at {ℓ} : {A : Type ℓ} → List A → ℤ → Option A
at xs (pos i) = get_elem? xs i
at xs (negsuc i) = get_elem? (reverse xs) i

get_elem?-none {ℓ} : {A : Type ℓ} (xs : List A) (k : ℕ) → length xs ≤ k → get_elem? xs k ≡ none
get_elem?-none [] k h = refl
get_elem?-none (x ∷ xs) zero h = absurd (omega (arith, h))
get_elem?-none (x ∷ xs) (suc k) h = get_elem?-none xs k (omega (arith, h))

get_elem?-append {ℓ} :
    {A : Type ℓ} (ys zs : List A) (k : ℕ) → k < length ys → get_elem? (ys ++ zs) k ≡ get_elem? ys k
get_elem?-append [] zs k h = absurd (omega (arith, h))
get_elem?-append (y ∷ ys) zs zero h = refl
get_elem?-append (y ∷ ys) zs (suc k) h = get_elem?-append ys zs k (omega (arith, h))

get_elem?-last {ℓ} :
    {A : Type ℓ} (ys : List A) (x : A) → get_elem? (ys ++ x ∷ []) (length ys) ≡ some x
get_elem?-last [] x = refl
get_elem?-last (y ∷ ys) x = get_elem?-last ys x

length-reverse {ℓ} : {A : Type ℓ} (xs : List A) → length (reverse xs) ≡ length xs
length-reverse [] = refl
length-reverse (x ∷ xs) =
    ap length (reverse-cons x xs)
    ∙ omega (arith, length-append (reverse xs) (x ∷ []), length-reverse xs)

-- An entry of a list, read from its end.
get_elem?-reverse {ℓ} :
    {A : Type ℓ} (xs : List A) (k : ℕ)
    → k < length xs
    → get_elem? (reverse xs) k ≡ get_elem? xs (length xs - suc k)
get_elem?-reverse [] k h = absurd (omega (arith, h))
get_elem?-reverse (x ∷ xs) k h = elim (Bool-cases (ltb k (length xs))) [
  | inl inner ↦
      let k_lt : k < length xs = ground arith in
      let reached : suc (length xs) - suc k ≡ suc (length xs - suc k) = omega (arith, k_lt) in
      ap (λ l. get_elem? l k) (reverse-cons x xs)
      ∙ get_elem?-append (reverse xs) (x ∷ []) k (omega (arith, length-reverse xs, k_lt))
      ∙ get_elem?-reverse xs k k_lt
      ∙ ap (get_elem? (x ∷ xs)) (sym reached)
  | inr outer ↦
      let last : k ≡ length (reverse xs) = ground (arith, length-reverse xs) in
      let reached : suc (length xs) - suc k ≡ 0 = ground (arith, length-reverse xs) in
      ap (λ l. get_elem? l k) (reverse-cons x xs)
      ∙ ap (get_elem? (reverse xs ++ x ∷ [])) last
      ∙ get_elem?-last (reverse xs) x
      ∙ ap (get_elem? (x ∷ xs)) (sym reached)
]

at_empty {ℓ} : {A : Type ℓ} (xs : List A) (index : ℤ) → is_empty xs ≡ true → at xs index ≡ none
at_empty [] (pos i) empty = refl
at_empty [] (negsuc i) empty = refl
at_empty (x ∷ xs) index empty = absurd (ground arith)

module _ {ℓ} {F P : Type 0} {W : Type ℓ} (bt : BtNode W) (frame_is_empty : F → Bool)
    (set_output : PoseStamped F P → W → W) where
  sends_pos :
      (path : PosePath F (PoseStamped F P)) (i : ℕ) (w : W)
      → send_at bt frame_is_empty set_output path (some i) w
        ≡ send bt frame_is_empty set_output path.header (get_elem? path.poses i) w
  unfolding send_at send
  sends_pos path i w = elim (Bool-cases (leb (length path.poses) i)) [
    | inl beyond ↦ rw (beyond, send_at) (rw (get_elem?-none path.poses i (leb→le _ _ beyond)) refl)
    | inr within ↦ rw (within, send_at) refl
  ]

  sends_at :
      (path : PosePath F (PoseStamped F P)) (index : ℤ) (w : W)
      → send_at bt frame_is_empty set_output path (from_end (length path.poses) index) w
        ≡ send bt frame_is_empty set_output path.header (at path.poses index) w
  unfolding send_at send
  sends_at path (pos i) w = sends_pos path i w
  sends_at path (negsuc i) w = elim (Bool-cases (leb (suc i) (length path.poses))) [
    | inl fits ↦
        let within : i < length path.poses = ground arith in
        rw (fits, send_at)
          (sends_pos path (length path.poses - suc i) w
            ∙ ap (λ p. send bt frame_is_empty set_output path.header p w)
                (sym (get_elem?-reverse path.poses i within)))
    | inr beyond ↦
        let outside : length (reverse path.poses) ≤ i = ground (arith, length-reverse path.poses) in
        rw (beyond, send_at) (rw (get_elem?-none (reverse path.poses) i outside) refl)
  ]

  get_pose_from_path-sends :
      (path : PosePath F (PoseStamped F P)) (index : ℤ) (w : W)
      → get_pose_from_path bt frame_is_empty set_output path index w
        ≡ send bt frame_is_empty set_output path.header
            (at path.poses index)
            (bt.set_status running w)
  unfolding get_pose_from_path send
  get_pose_from_path-sends path index w = elim (Bool-cases (is_empty path.poses)) [
    | inl empty ↦ rw (empty, get_pose_from_path) (rw (at_empty path.poses index empty) refl)
    | inr some_pose ↦
        rw (some_pose, get_pose_from_path) (sends_at path index (bt.set_status running w))
  ]

  -- The status and the world where `p` is the pose at the index, or there is none: a pose with no
  -- frame goes out in the frame of the path, any other as it is.
  abbrev pub Sends : F → Option (PoseStamped F P) → W → NodeStatus × W → Type ℓ
  Sends frame none w r = r ≡ (failure, w)
  Sends frame (some p) w r =
      (frame_is_empty p.frame_id ≡ true
        → r ≡ (success, set_output (record { frame_id = frame; pose = p.pose }) w))
      × (frame_is_empty p.frame_id ≡ false → r ≡ (success, set_output p w))

  send-Sends :
      (frame : F) (p : Option (PoseStamped F P)) (w : W)
      → Sends frame p w (send bt frame_is_empty set_output frame p w)
  unfolding send output_pose
  send-Sends frame none w = refl
  send-Sends frame (some p) w =
      (λ unnamed. rw (unnamed, output_pose) refl, λ named. rw (named, output_pose) refl)

  -- For every index: where there is a pose at the index, counted from the end if the index is
  -- negative, GetPoseFromPath succeeds and sends the pose on, in the frame of the path if it has
  -- none of its own and unchanged otherwise; where there is none it fails and sends nothing on.
  pub get_pose_from_path-at :
      (path : PosePath F (PoseStamped F P)) (index : ℤ) (w : W)
      → Sends path.header
          (at path.poses index)
          (bt.set_status running w)
          (get_pose_from_path bt frame_is_empty set_output path index w)
  get_pose_from_path-at path index w =
      subst (Sends path.header (at path.poses index) (bt.set_status running w))
        (sym (get_pose_from_path-sends path index w))
        (send-Sends path.header (at path.poses index) _)
