-- ===== src/Navigation/Errors.antt =====
-- The error code that a navigation action reports: populateErrorCode and populateInternalError of
-- nav3d_behavior_tree/include/nav3d_behavior_tree/bt_action_server_impl.hpp. The messages are left out.
pub mod Numbers
pub mod Least
use nav2_3d.Prelude.{
  ℕ, ◌-◌, ◌^◌, ◌≤◌, ◌<◌, ◌≡◌, ◌≢◌, refl, ◌⊎◌, inl, inr, not, ◌&&◌, ◌==◌, ltb, if◌then◌else◌, Option,
  none, some, subst, true, Bool, ◌%◌, List, [], ◌∷◌, All, All-imply, Any, Bool-cases, ap, sym, ◌∙◌,
  arith,
}
use nav2_3d.Prelude.Int.{ℤ, pos, negsuc, leb_ℤ}

-- std::numeric_limits<int>::max().
abbrev pub int_max : ℕ
int_max = 2 ^ 31 - 1

-- `!= 0`, and `<`, on an int.
unfoldable pub is_nonzero : ℤ → Bool
is_nonzero (pos n) = not (n == 0)
is_nonzero (negsuc n) = true

unfoldable pub lt_ℤ : ℤ → ℤ → Bool
lt_ℤ a b = not (leb_ℤ b a)

-- An int that is stored in a uint16_t.
unfoldable pub to_uint16 : ℤ → ℕ
to_uint16 (pos n) = n % 2 ^ 16
to_uint16 (negsuc n) = 2 ^ 16 - 1 - n % 2 ^ 16

-- What is written to the result for the code that was found.
unfoldable pub report : ℤ → ℕ
unfolding to_uint16
report best = if leb_ℤ best (pos int_max) && leb_ℤ (pos int_max) best then 0 else to_uint16 best

-- `code_of p` is what `blackboard_->get<int>` gives for the prefix `p`, none where it throws.
module _ {P : Type 0} (code_of : P → Option ℤ) where
  -- One round of the loop.
  unfoldable pub consider : Option ℤ → ℤ → ℤ
  unfolding is_nonzero lt_ℤ
  consider none best = best
  consider (some c) best = if is_nonzero c && lt_ℤ c best then c else best

  unfoldable pub highest_priority : List P → ℤ → ℤ
  unfolding consider
  highest_priority [] best = best
  highest_priority (p ∷ ps) best = highest_priority ps (consider (code_of p) best)

  -- The error code of the result, which is 0 before; `internal_error_code_` is a uint16_t.
  unfoldable pub populate_error_code : List P → ℕ → ℕ
  unfolding highest_priority report
  populate_error_code prefixes internal =
      report (highest_priority prefixes (if internal == 0 then pos int_max else pos internal))
