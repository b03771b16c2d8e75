-- ===== src/BehaviorTree/Actions/Examples.antt =====
-- The actions on concrete paths and goals.
use nav2_3d.Prelude.{
  ℕ, ◌+◌, ◌≤◌, ◌<◌, ◌≡◌, Bool, true, Option, none, some, Eq, ◌==◌, ==_iff, List, [], ◌∷◌, length,
}
use nav2_3d.Prelude.Int.{pos, negsuc}
use nav2_3d.BehaviorTree.{idle, running, success, BtNode}
use nav2_3d.BehaviorTree.Actions.{PosePath}
use nav2_3d.BehaviorTree.Actions.GetPoseFromPath.{
  PoseStamped, Sends, get_pose_from_path, get_pose_from_path-at,
}
use nav2_3d.BehaviorTree.Actions.TruncatePathLocal.{cap_path, cap_path-length}

instance numbers : Eq ℕ
numbers = record { beq = ◌==◌; beq_iff = ==_iff }

-- The world is what was sent on last.
abbrev sending : {A : Type 0} → BtNode (Option A)
sending = record {
  count = 0;
  execute_tick = λ i w. (success, w);
  child_status = λ i w. idle;
  halt_child = λ i w. w;
  halt_children = λ w. w;
  base_halt = λ w. w;
  reset_child = λ w. w;
  status = λ w. running;
  set_status = λ s w. w;
  is_status_active = λ s. true;
}

abbrev pose_in : ℕ → ℕ → PoseStamped ℕ ℕ
pose_in frame p = record { frame_id = frame; pose = p }

abbrev poses : PosePath ℕ (PoseStamped ℕ ℕ)
poses = record { header = 1; poses = pose_in 1 7 ∷ pose_in 0 8 ∷ [] }

abbrev no_frame : ℕ → Bool
no_frame f = f == 0

get_pose_from_path-at_example :
    Sends sending no_frame
      (λ p w. some p)
      1
      (some (pose_in 0 8))
      none
      (get_pose_from_path sending no_frame (λ p w. some p) poses (negsuc 0) none)
get_pose_from_path-at_example =
    get_pose_from_path-at sending no_frame (λ p w. some p) poses (negsuc 0) none

abbrev five_poses : List ℕ
five_poses = 1 ∷ 2 ∷ 3 ∷ 4 ∷ 5 ∷ []

cap_path-length_example :
    (1 ≤ 3 → 3 < 5 → length (cap_path (λ i. i + i) five_poses (pos 3)) ≡ 3)
    × (5 ≤ 3 → cap_path (λ i. i + i) five_poses (pos 3) ≡ five_poses)
    × (cap_path (λ i. i + i) five_poses (pos 0) ≡ five_poses)
    × (cap_path (λ i. i + i) five_poses (negsuc 3) ≡ five_poses)
cap_path-length_example = cap_path-length (λ i. i + i) five_poses 3
