-- ===== src/BehaviorTree/Decorators/PathLongerOnApproach.antt =====
-- nav3d_behavior_tree/plugins/decorator/path_longer_on_approach.cpp.
use nav2_3d.Prelude.{
  ℕ, ◌+◌, ◌≡◌, Bool, true, false, not, ◌&&◌, ◌==◌, Option, none, some, if◌then◌else◌, arith, List,
  [], ◌∷◌, length,
}
use nav2_3d.Prelude.Double.{Doubles}
use nav2_3d.BehaviorTree.{
  NodeStatus, idle, running, success, failure, skipped, BtNode, returned, Ticked, get_input,
}
use nav2_3d.BehaviorTree.Decorators.{Counts}

-- The members; a path is the list of its poses.
pub record PathLongerOnApproach (D P : Type 0) : Type 0 where
  pub new_path : List P
  pub old_path : List P
  pub prox_len : D
  pub length_factor : D
  pub first_time : Bool

-- Equality of the positions of two poses, equality of two poses without their headers, and
-- geometry_utils::calculate_path_length from the first pose on.
pub record Paths (D P : Type 0) : Type 0 where
  pub same_position : P → P → Bool
  pub same_pose : P → P → Bool
  pub calculate_path_length : List P → D

abbrev pub back {ℓ} : {A : Type ℓ} → List A → Option A
back [] = none
back (x ∷ []) = some x
back (x ∷ y ∷ ys) = back (y ∷ ys)

-- The last poses of two paths are related; a path with no pose has no last pose.
abbrev pub backs {ℓ} : {A : Type ℓ} → (A → A → Bool) → Option A → Option A → Bool
backs same none b = false
backs same (some a) none = false
backs same (some a) (some b) = same a b

module _ {ℓ} {D P : Type 0} {W : Type ℓ} (bt : BtNode W) (doubles : Doubles D)
    (paths : Paths D P) where
  open bt use {execute_tick, set_status, reset_child}
  open paths use {same_position, same_pose, calculate_path_length}

  unfoldable pub is_path_updated : List P → List P → Bool
  is_path_updated new_path old_path =
      not (length old_path == 0)
      && not (length new_path == 0)
      && not (length new_path == length old_path)
      && backs same_position (back old_path) (back new_path)

  unfoldable pub is_robot_in_goal_proximity : List P → D → Bool
  is_robot_in_goal_proximity old_path prox_len =
      doubles.lt (calculate_path_length old_path) prox_len

  unfoldable pub is_new_path_longer : List P → List P → D → Bool
  is_new_path_longer new_path old_path length_factor =
      doubles.lt (doubles.mul length_factor (calculate_path_length old_path))
        (calculate_path_length new_path)

  -- The input ports and the first-time flag.
  begin :
      Option (List P) → Option D → Option D → PathLongerOnApproach D P → PathLongerOnApproach D P
  begin path prox factor s =
      let s' : PathLongerOnApproach D P = record s {
        new_path = get_input path s.new_path;
        prox_len = get_input prox s.prox_len;
        length_factor = get_input factor s.length_factor;
      } in
      if not s'.first_time && not (backs same_pose (back s'.old_path) (back s'.new_path))
      then record s' { first_time = true }
      else s'

  -- The `switch` on the child's status.
  after_child : NodeStatus → PathLongerOnApproach D P → W → Ticked (PathLongerOnApproach D P) W
  after_child skipped s w = record { outcome = returned skipped; node = s; world = w }
  after_child running s w = record { outcome = returned running; node = s; world = w }
  after_child idle s w = record {
    outcome = returned failure;
    node = record s { old_path = s.new_path };
    world = w;
  }
  after_child child_state s w = record {
    outcome = returned child_state;
    node = record s { old_path = s.new_path };
    world = reset_child w;
  }

  -- The test that lets the child be ticked.
  grown : PathLongerOnApproach D P → Bool
  unfolding is_path_updated is_robot_in_goal_proximity is_new_path_longer
  grown s =
      is_path_updated s.new_path s.old_path
      && is_robot_in_goal_proximity s.old_path s.prox_len
      && is_new_path_longer s.new_path s.old_path s.length_factor
      && not s.first_time

  pub tick :
      Option (List P)
      → Option D
      → Option D
      → PathLongerOnApproach D P
      → W
      → Ticked (PathLongerOnApproach D P) W
  unfolding begin after_child grown
  tick path prox factor s w =
      let s1 = begin path prox factor s in
      let w1 = set_status running w in
      if grown s1
      then (let (child_state, w2) = execute_tick 0 w1 in after_child child_state s1 w2)
      else record {
        outcome = returned success;
        node = record s1 { old_path = s1.new_path; first_time = false };
        world = w1;
      }

  -- A PathLongerOnApproach ticks its child, and once, exactly for a new path of another length
  -- that ends at the pose where the old one ended and is longer by the factor, while the old path
  -- is shorter than the proximity and this is not the first time; with no old path it returns
  -- SUCCESS and ticks nothing. After SUCCESS and FAILURE the new path is the old path. Neither
  -- setStatus nor resetChild ticks the child.
  pub tick-approach :
      (ticks : W → ℕ)
      → Counts bt ticks
      → ((w : W) → ticks (reset_child w) ≡ ticks w)
      → (path : List P) (prox factor : D) (s : PathLongerOnApproach D P) (w : W)
      → let t = tick (some path) (some prox) (some factor) s w in
        (ticks t.world ≡ (
          if is_path_updated path s.old_path
            && is_robot_in_goal_proximity s.old_path prox
            && is_new_path_longer path s.old_path factor
            && not s.first_time
            && backs same_pose (back s.old_path) (back path)
          then ticks w + 1
          else ticks w))
        × (s.old_path ≡ [] → (t.outcome ≡ returned success) × (ticks t.world ≡ ticks w))
        × ((t.outcome ≡ returned success) → t.node.old_path ≡ path)
        × ((t.outcome ≡ returned failure) → t.node.old_path ≡ path)
  unfolding tick begin grown after_child
  tick-approach ticks counts quiet path prox factor s w =
      let w1 = set_status running w in
      let w2 = (execute_tick 0 w1).1 in
      ground (arith, counts.set_status_quiet running w, counts.tick_counts w1, quiet w2)
