-- ===== src/BehaviorTree/Actions.antt =====
-- The actions of nav3d_behavior_tree/plugins/action that compute on paths and goals without a server.
-- Each tick sets the node's status to RUNNING, reads its input ports, and returns a status; `setOutput`
-- is a parameter.
pub mod GetNextFewGoals
pub mod ConcatenatePaths
pub mod GetPoseFromPath
pub mod TruncatePathLocal
mod Examples
use nav2_3d.Prelude.{List}

-- nav_msgs::msg::Goals and nav_msgs::msg::Path: a header `H` and the poses.
pub record Goals (H P : Type 0) : Type 0 where
  pub header : H
  pub goals : List P

pub record PosePath (H P : Type 0) : Type 0 where
  pub header : H
  pub poses : List P
