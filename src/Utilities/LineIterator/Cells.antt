-- ===== src/Utilities/LineIterator/Cells.antt =====
-- Coordinates between two points, and the nearest cell to a line, for LineIterator
-- (nav3d_util/include/nav3d_util/line_iterator.hpp).
use nav2_3d.Prelude.{
  ap, leb→le, ℕ, zero, suc, ◌+◌, ◌-◌, ◌*◌, ◌/◌, ◌≤◌, ◌<◌, false, leb, if◌then◌else◌, Bool-cases,
  ◌≡◌, refl, sym, ◌∙◌, max, ◌⊎◌, inl, inr, arith,
}
use nav2_3d.Prelude.Int.{ℤ, pos, negsuc, pos_part, neg_part, abs, leb_ℤ, ◌+ℤ◌, ◌-ℤ◌, int_laws}
use nav2_3d.Utilities.LineIterator.{direction}
use nav2_3d.Utilities.LineIterator.Steps.{times}

pub max_first : (a b : ℕ) → b ≤ a → max a b ≡ a
max_first a b h = omega arith

pub max_second : (a b : ℕ) → a ≤ b → max a b ≡ b
max_second a b h = omega arith

pub lt→le : {a b : ℕ} → a < b → a ≤ b
lt→le h = omega arith

pub lt_irrefl : {a : ℕ} → ¬ (a < a)
lt_irrefl h = omega arith

pub le_trans : {a b c : ℕ} → a ≤ b → b ≤ c → a ≤ c
le_trans h k = omega arith

-- Equal quotients.
pub quotient_unique : (a b d r s : ℕ) → a * d + r ≡ b * d + s → r < d → s < d → a ≡ b
quotient_unique zero zero d r s e hr hs = refl
quotient_unique zero (suc b) d r s e hr hs = absurd (grind arith)
quotient_unique (suc a) zero d r s e hr hs = absurd (grind arith)
quotient_unique (suc a) (suc b) d r s e hr hs =
    ap suc (quotient_unique a b d r s (grind arith) hr hs)

pub times-zero : (n : ℕ) → times n (pos 0) ≡ pos 0
times-zero zero = refl
times-zero (suc n) = rw (times-zero n) (omega int_laws)

times_forward : (n : ℕ) → times n (pos 1) ≡ pos n
times_forward zero = refl
times_forward (suc n) = rw (times_forward n) (omega int_laws)

times_back : (n : ℕ) → times n (negsuc 0) ≡ pos 0 -ℤ pos n
times_back zero = omega int_laws
times_back (suc n) = rw (times_back n) (omega int_laws)

-- A coordinate a number of cells from one towards another.
pub along : ℤ → ℤ → ℕ → ℤ
along from to n = if leb_ℤ from to then from +ℤ pos n else from -ℤ pos n

pub times-along : (from to : ℤ) (n : ℕ) → from +ℤ times n (direction from to) ≡ along from to n
unfolding direction along
times-along from to n = elim (Bool-cases (leb_ℤ from to)) [
  | inl forward ↦ rw (forward, times_forward n) refl
  | inr back ↦ rw (back, times_back n) (omega int_laws)
]

pub ¬leb→lt : (a b : ℕ) → leb a b ≡ false → b < a
¬leb→lt a b h = ground arith

one_sided : (a : ℤ) → (pos_part a ≡ 0) ⊎ (neg_part a ≡ 0)
one_sided (pos n) = inr refl
one_sided (negsuc n) = inl refl

pub along-end : (from to : ℤ) → along from to (abs (to -ℤ from)) ≡ to
unfolding along
along-end from to = elim (Bool-cases (leb_ℤ from to)) [
  | inl forward ↦ rw forward (omega (int_laws, one_sided (to -ℤ from), leb→le _ _ forward))
  | inr back ↦ rw back (omega (int_laws, one_sided (to -ℤ from), ¬leb→lt _ _ back))
]

-- `n` cells along the shorter axis are within half a cell of the straight line, `k` cells along the
-- longer one.
abbrev pub Nearest : (long short k n : ℕ) → Type 0
Nearest long short k n =
    (2 * (n * long) ≤ 2 * (k * short) + long) × (2 * (k * short) ≤ 2 * (n * long) + long)

pub balance-Nearest :
    (long short k n r : ℕ)
    → k * short + long / 2 ≡ n * long + r
    → r ≤ long - 1
    → Nearest long short k n
balance-Nearest long short k n r e h = omega arith

-- All steps along the longer axis take as many along the shorter one as it is long.
pub slow_end :
    (long short k n r : ℕ)
    → k * short + long / 2 ≡ n * long + r
    → k ≡ long
    → r ≤ long - 1
    → short ≤ long
    → n ≤ k
    → n ≡ short
slow_end zero short k n r e all h flat few = omega arith
slow_end (suc long) short k n r e all h flat few =
    quotient_unique n short (suc long) r (suc long / 2)
      (sym e ∙ ap (λ m. m * short + suc long / 2) all ∙ grind arith) (omega arith) (omega arith)
