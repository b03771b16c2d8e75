-- ===== src/Utilities/LineIterator.antt =====
-- LineIterator (nav3d_util/include/nav3d_util/line_iterator.hpp), the cells of a line on a grid. The
-- differences of the end points are taken to fit an int; the members that are not negative are numbers.
pub mod Steps
pub mod Cells
pub mod Course
use nav2_3d.Prelude.{ℕ, zero, suc, ◌+◌, ◌-◌, ◌/◌, Bool, true, false, leb, if◌then◌else◌}
use nav2_3d.Prelude.Int.{ℤ, pos, negsuc, abs, leb_ℤ, ◌+ℤ◌, ◌-ℤ◌}

pub record LineIterator : Type 0 where
  pub x : ℤ
  pub y : ℤ
  pub deltax : ℕ
  pub deltay : ℕ
  pub curpixel : ℕ
  pub xinc1 : ℤ
  pub xinc2 : ℤ
  pub yinc1 : ℤ
  pub yinc2 : ℤ
  pub den : ℕ
  pub num : ℕ
  pub numadd : ℕ
  pub numpixels : ℕ

-- The direction from one coordinate to the other.
pub direction : ℤ → ℤ → ℤ
direction from to = if leb_ℤ from to then pos 1 else negsuc 0

-- The constructor.
unfoldable pub line_iterator : ℤ → ℤ → ℤ → ℤ → LineIterator
unfolding direction
line_iterator x0 y0 x1 y1 =
    let deltax : ℕ = abs (x1 -ℤ x0) in
    let deltay : ℕ = abs (y1 -ℤ y0) in
    if leb deltay deltax
    then record {
      x = x0;
      y = y0;
      deltax = deltax;
      deltay = deltay;
      curpixel = 0;
      xinc1 = pos 0;
      xinc2 = direction x0 x1;
      yinc1 = direction y0 y1;
      yinc2 = pos 0;
      den = deltax;
      num = deltax / 2;
      numadd = deltay;
      numpixels = deltax;
    }
    else record {
      x = x0;
      y = y0;
      deltax = deltax;
      deltay = deltay;
      curpixel = 0;
      xinc1 = direction x0 x1;
      xinc2 = pos 0;
      yinc1 = pos 0;
      yinc2 = direction y0 y1;
      den = deltay;
      num = deltay / 2;
      numadd = deltax;
      numpixels = deltay;
    }

unfoldable pub is_valid : LineIterator → Bool
is_valid it = leb it.curpixel it.numpixels

-- The addition of `numadd_`, and what the test on `num_` then changes.
add_up : LineIterator → LineIterator
add_up it =
    let sum : ℕ = it.num + it.numadd in
    if leb it.den sum
    then record it { num = sum - it.den; x = it.x +ℤ it.xinc1; y = it.y +ℤ it.yinc1 }
    else record it { num = sum }

unfoldable pub advance : LineIterator → LineIterator
unfolding add_up
advance it =
    let it' = add_up it in
    record it' { x = it'.x +ℤ it.xinc2; y = it'.y +ℤ it.yinc2; curpixel = suc it.curpixel }

-- The iterator after a number of calls of `advance`.
unfoldable pub walk : ℕ → LineIterator → LineIterator
unfolding advance
walk zero it = it
walk (suc k) it = advance (walk k it)
