-- ===== src/Utilities/LineIterator/Steps.antt =====
-- The invariant of LineIterator::advance (nav3d_util/include/nav3d_util/line_iterator.hpp).
use nav2_3d.Prelude.{
  ap, ℕ, zero, suc, ◌+◌, ◌-◌, ◌*◌, ◌/◌, ◌≤◌, ◌<◌, true, false, leb, Bool-cases, ◌≡◌, refl, inl, inr,
  arith,
}
use nav2_3d.Prelude.Int.{ℤ, pos, ◌+ℤ◌, int_laws}
use nav2_3d.Utilities.LineIterator.{LineIterator, add_up, advance, walk}

-- An increment, taken a number of times.
abbrev pub times : ℕ → ℤ → ℤ
times zero inc = pos 0
times (suc n) inc = inc +ℤ times n inc

-- After `k` steps along the longer axis and `j` along the shorter one.
pub record Inv (start it : LineIterator) (k j : ℕ) : Type 0 where
  pub at_x : it.x ≡ start.x +ℤ times k start.xinc2 +ℤ times j start.xinc1
  pub at_y : it.y ≡ start.y +ℤ times k start.yinc2 +ℤ times j start.yinc1
  pub counted : it.curpixel ≡ k
  pub slower : j ≤ k
  pub balance : k * start.numadd + start.den / 2 ≡ j * start.den + it.num
  pub below : it.num ≤ start.den - 1
  pub same_den : it.den ≡ start.den
  pub same_add : it.numadd ≡ start.numadd
  pub same_pixels : it.numpixels ≡ start.numpixels
  pub same_x1 : it.xinc1 ≡ start.xinc1
  pub same_x2 : it.xinc2 ≡ start.xinc2
  pub same_y1 : it.yinc1 ≡ start.yinc1
  pub same_y2 : it.yinc2 ≡ start.yinc2

turn : (p q r s : ℤ) → p +ℤ q +ℤ r +ℤ s ≡ p +ℤ (s +ℤ q) +ℤ r
turn p q r s = omega int_laws

turn_both : (p q r s t : ℤ) → p +ℤ q +ℤ r +ℤ t +ℤ s ≡ p +ℤ (s +ℤ q) +ℤ (t +ℤ r)
turn_both p q r s t = omega int_laws

module _ (start it : LineIterator) (k j : ℕ) (inv : Inv start it k j) where
  carry-Inv :
      start.numadd ≤ start.den
      → 0 < start.den
      → leb it.den (it.num + it.numadd) ≡ true
      → Inv start (advance it) (suc k) (suc j)
  unfolding advance add_up
  carry-Inv flat long carry = rw carry record {
    at_x =
        rw (inv.at_x, inv.same_x1, inv.same_x2)
          (turn_both start.x (times k start.xinc2) (times j start.xinc1) start.xinc2 start.xinc1);
    at_y =
        rw (inv.at_y, inv.same_y1, inv.same_y2)
          (turn_both start.y (times k start.yinc2) (times j start.yinc1) start.yinc2 start.yinc1);
    counted = ap suc inv.counted;
    slower = omega (arith, inv.slower);
    balance = ground (arith, inv.balance, inv.same_den, inv.same_add);
    below = ground (arith, inv.below, inv.same_den, inv.same_add);
    same_den = inv.same_den;
    same_add = inv.same_add;
    same_pixels = inv.same_pixels;
    same_x1 = inv.same_x1;
    same_x2 = inv.same_x2;
    same_y1 = inv.same_y1;
    same_y2 = inv.same_y2;
  }

  stay-Inv :
      0 < start.den → leb it.den (it.num + it.numadd) ≡ false → Inv start (advance it) (suc k) j
  unfolding advance add_up
  stay-Inv long stays = rw stays record {
    at_x =
        rw (inv.at_x, inv.same_x2)
          (turn start.x (times k start.xinc2) (times j start.xinc1) start.xinc2);
    at_y =
        rw (inv.at_y, inv.same_y2)
          (turn start.y (times k start.yinc2) (times j start.yinc1) start.yinc2);
    counted = ap suc inv.counted;
    slower = omega (arith, inv.slower);
    balance = ground (arith, inv.balance, inv.same_den, inv.same_add);
    below = ground (arith, inv.below, inv.same_den, inv.same_add);
    same_den = inv.same_den;
    same_add = inv.same_add;
    same_pixels = inv.same_pixels;
    same_x1 = inv.same_x1;
    same_x2 = inv.same_x2;
    same_y1 = inv.same_y1;
    same_y2 = inv.same_y2;
  }

-- The iterator as it is built.
pub record IsFresh (start : LineIterator) : Type 0 where
  pub uncounted : start.curpixel ≡ 0
  pub half : start.num ≡ start.den / 2
  pub flat : start.numadd ≤ start.den

start-Inv : (start : LineIterator) → IsFresh start → Inv start start 0 0
start-Inv start fresh = record {
  at_x = omega int_laws;
  at_y = omega int_laws;
  counted = fresh.uncounted;
  slower = omega arith;
  balance = omega (arith, fresh.half);
  below = omega (arith, fresh.half);
  same_den = refl;
  same_add = refl;
  same_pixels = refl;
  same_x1 = refl;
  same_x2 = refl;
  same_y1 = refl;
  same_y2 = refl;
}

pub walk-Inv :
    (start : LineIterator)
    → IsFresh start
    → (k : ℕ) → k ≤ start.den
    → (j : ℕ) × Inv start (walk k start) k j
unfolding walk
walk-Inv start fresh zero within = (0, start-Inv start fresh)
walk-Inv start fresh (suc k) within =
    let (j, inv) = walk-Inv start fresh k (omega arith) in
    let it : LineIterator = walk k start in
    elim (Bool-cases (leb it.den (it.num + it.numadd))) [
      | inl carry ↦ (suc j, carry-Inv start it k j inv fresh.flat (omega arith) carry)
      | inr stays ↦ (j, stay-Inv start it k j inv (omega arith) stays)
    ]
