-- ===== src/BehaviorTree/Actions/ConcatenatePaths.antt =====
-- nav3d_behavior_tree/plugins/action/concatenate_paths_action.cpp.
use nav2_3d.Prelude.{◌≡◌, ◌⊎◌, false, not, ◌&&◌, Eq, if◌then◌else◌, arith, ◌++◌, is_empty}
use nav2_3d.BehaviorTree.{NodeStatus, running, success, failure, BtNode}
use nav2_3d.BehaviorTree.Actions.{PosePath}

module _ {ℓ} {H P : Type 0} {W : Type ℓ} ⦃e : Eq H⦄ (bt : BtNode W) (empty_header : H)
    (set_output : PosePath H P → W → W) where
  -- The header of the result: that of the first path whose header is not the empty one.
  header_of : PosePath H P → PosePath H P → H
  header_of path1 path2 =
      if not (e.beq path1.header empty_header)
      then path1.header
      else (if not (e.beq path2.header empty_header) then path2.header else path1.header)

  pub concatenate_paths : PosePath H P → PosePath H P → W → NodeStatus × W
  unfolding header_of
  concatenate_paths path1 path2 w =
      let w1 = bt.set_status running w in
      if is_empty path1.poses && is_empty path2.poses then (failure, w1) else (
        success,
        set_output (record { header = header_of path1 path2; poses = path1.poses ++ path2.poses })
            w1,
      )

  -- Two paths, not both without poses, under one header or with only one header that is not the
  -- empty one, are concatenated under that header, whichever path it comes from.
  pub concatenate_paths-header :
      (path1 path2 : PosePath H P) (h : H) (w : W)
      → (path1.header ≡ h) × (path2.header ≡ h)
        ⊎ (path1.header ≡ h) × (path2.header ≡ empty_header)
        ⊎ (path1.header ≡ empty_header) × (path2.header ≡ h)
      → is_empty path1.poses && is_empty path2.poses ≡ false
      → concatenate_paths path1 path2 w ≡ (
        success,
        set_output
            (record { header = h; poses = path1.poses ++ path2.poses })
            (bt.set_status running w),
      )
  unfolding concatenate_paths header_of
  concatenate_paths-header path1 path2 h w one some_pose =
      ground (arith, e.beq_iff path1.header empty_header, e.beq_iff path2.header empty_header)
