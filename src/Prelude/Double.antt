-- ===== src/Prelude/Double.antt =====
-- Floating-point numbers, which the repository's C++ compiler and its library implement: the operations
-- that the source uses. `le a b` is a <= b and also b >= a.
use mathlib.Core.Bool.{Bool}
use nav2_3d.Prelude.Tests.{if◌then◌else◌}

pub record Doubles (D : Type 0) : Type 0 where
  pub zero : D
  pub one : D
  pub add : D → D → D
  pub sub : D → D → D
  pub mul : D → D → D
  pub div : D → D → D
  pub hypot : D → D → D
  pub lt : D → D → Bool
  pub le : D → D → Bool

module _ {D : Type 0} (doubles : Doubles D) where
  -- std::min and std::max.
  abbrev pub min_of : D → D → D
  min_of a b = if doubles.lt b a then b else a

  abbrev pub max_of : D → D → D
  max_of a b = if doubles.lt a b then b else a
