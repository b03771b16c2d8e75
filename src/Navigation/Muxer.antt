-- ===== src/Navigation/Muxer.antt =====
-- NavigatorMuxer (nav3d_core/include/nav3d_core/behavior_tree_navigator.hpp), each method of which runs
-- under its mutex. `empty` is the empty string.
pub mod Exclusion
use nav2_3d.Prelude.{Bool, not, Eq, if◌then◌else◌}

-- The member `current_navigator_`.
pub record Muxer (N : Type 0) : Type 0 where
  pub current_navigator : N

module _ {N : Type 0} ⦃e : Eq N⦄ (empty : N) where
  unfoldable pub is_navigating : Muxer N → Bool
  is_navigating m = not (e.beq m.current_navigator empty)

  unfoldable pub stop_navigating : N → Muxer N → Muxer N
  stop_navigating n m =
      if not (e.beq m.current_navigator n) then m else record { current_navigator = empty }

-- The name is taken over even where another navigator is navigating, which is only logged.
unfoldable pub start_navigating : {N : Type 0} → N → Muxer N → Muxer N
start_navigating n m = record { current_navigator = n }
