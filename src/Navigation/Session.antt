-- ===== src/Navigation/Session.antt =====
-- The state in which BtActionServer and a navigator carry out a goal, and what they use of code that is
-- not in the repository. Messages and feedback are passed on unread and are left out.
use nav2_3d.Prelude.{ℕ, Bool, Option, List}
use nav2_3d.Prelude.Int.{ℤ}
use nav2_3d.BehaviorTree.{Outcome}
use nav2_3d.ActionServer.{Server}
use nav2_3d.Navigation.Muxer.{Muxer}

-- The action server, the world, the muxer that the navigators share, and the members
-- `internal_error_code_` and `current_bt_xml_filename_`.
pub record Session {ℓ} (H N F : Type 0) (W : Type ℓ) : Type ℓ where
  pub server : Server H
  pub world : W
  pub muxer : Muxer N
  pub internal_error_code : ℕ
  pub current_bt_xml_filename : F

-- The members that stay as they are: the navigator's name, the default file, and two parameters.
pub record Setup (N F P : Type 0) : Type 0 where
  pub name : N
  pub default_bt_xml_filename : F
  pub always_reload_bt_xml : Bool
  pub error_code_name_prefixes : List P

-- The behaviour tree. While it is ticked the other threads act on the server: goals enter, the owner
-- deactivates it, clients ask to cancel. `others` is what the other navigators have made of the muxer by
-- then.
pub record Tree {ℓ} (H N : Type 0) (W : Type ℓ) : Type ℓ where
  pub ok : W → Bool  -- rclcpp::ok()
  pub tick_once : Server H → W → Outcome × Server H × W
  pub halt_tree : W → W
  pub sleep : W → W
  pub others : W → Muxer N → Muxer N

-- The goal message of a handle, the transforms, the blackboard, and the file that holds the tree.
-- `set_goal` writes the goal and a recovery count of 0, and notes the time; `create_tree` opens the file
-- and builds the tree, false where either fails.
pub record Robot {ℓ} (H F G P : Type 0) (W : Type ℓ) : Type ℓ where
  pub behavior_tree : H → F
  pub empty_filename : F
  pub create_tree : F → W → Bool × W
  pub get_current_pose : W → Bool × W
  pub transform_goal_pose : H → W → Option G × W
  pub set_goal : G → W → W
  pub error_code_of : W → P → Option ℤ
  pub clear_error_code : P → W → W
