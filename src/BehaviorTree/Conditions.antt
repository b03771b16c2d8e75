-- ===== src/BehaviorTree/Conditions.antt =====
-- Conditions of nav3d_behavior_tree/plugins/condition that remember what they saw last.
pub mod GoalUpdated
pub mod TimeExpired
pub mod TransformAvailable
pub mod Distances
pub mod Watching
