-- ===== src/Utilities/LineIterator/Course.antt =====
-- The course of LineIterator (nav3d_util/include/nav3d_util/line_iterator.hpp).
use nav2_3d.Prelude.{
  ap, leb→le, le→leb, ℕ, ◌+◌, ◌≤◌, ◌<◌, true, false, leb, Bool-cases, ◌≡◌, refl, subst, ◌∙◌, max,
  inl, inr, arith,
}
use nav2_3d.Prelude.Int.{ℤ, pos, abs, ◌+ℤ◌, ◌-ℤ◌, int_laws}
use nav2_3d.Utilities.LineIterator.{
  LineIterator, direction, line_iterator, is_valid, add_up, advance, walk,
}
use nav2_3d.Utilities.LineIterator.Steps.{times, Inv, walk-Inv}
use nav2_3d.Utilities.LineIterator.Cells.{
  max_first, max_second, lt→le, lt_irrefl, le_trans, times-zero, times-along, along, along-end,
  Nearest, balance-Nearest, slow_end, ¬leb→lt,
}

-- The iterator has taken `k` steps from one point towards the other.
pub record Traced (x0 y0 x1 y1 : ℤ) (k : ℕ) (it : LineIterator) : Type 0 where
  pub across : ℕ
  pub up : ℕ
  pub at_x : it.x ≡ along x0 x1 across
  pub at_y : it.y ≡ along y0 y1 up
  pub wide :
      abs (y1 -ℤ y0) ≤ abs (x1 -ℤ x0)
      → (across ≡ k) × Nearest (abs (x1 -ℤ x0)) (abs (y1 -ℤ y0)) k up
  pub tall :
      abs (x1 -ℤ x0) < abs (y1 -ℤ y0)
      → (up ≡ k) × Nearest (abs (y1 -ℤ y0)) (abs (x1 -ℤ x0)) k across
  pub valid : is_valid it ≡ true
  pub at_end :
      k ≡ max (abs (x1 -ℤ x0)) (abs (y1 -ℤ y0))
      → (it.x ≡ x1) × (it.y ≡ y1) × (is_valid (advance it) ≡ false)

-- The coordinate along the longer axis, and the one along the shorter axis.
longer_at : (p q : ℤ) (k j : ℕ) → p +ℤ times k (direction p q) +ℤ times j (pos 0) ≡ along p q k
longer_at p q k j = rw (times-zero j, times-along p q k) (omega int_laws)

shorter_at : (p q : ℤ) (k j : ℕ) → p +ℤ times k (pos 0) +ℤ times j (direction p q) ≡ along p q j
shorter_at p q k j = rw (times-zero k, ← times-along p q j) (omega int_laws)

module _ (start it : LineIterator) (k j : ℕ) (inv : Inv start it k j) where
  valid_within : k ≤ start.numpixels → is_valid it ≡ true
  unfolding is_valid
  valid_within within = rw (inv.counted, inv.same_pixels) (le→leb _ _ within)

  invalid_after : k ≡ start.numpixels → is_valid (advance it) ≡ false
  unfolding is_valid advance add_up
  invalid_after last = elim (Bool-cases (leb it.den (it.num + it.numadd))) [
    | inl carry ↦ rw (carry, inv.counted, inv.same_pixels, last) (ground arith)
    | inr stays ↦ rw (stays, inv.counted, inv.same_pixels, last) (ground arith)
  ]

module _ (x0 y0 x1 y1 : ℤ) (k : ℕ) where
  abbrev line : LineIterator
  line = line_iterator x0 y0 x1 y1

  wide-Traced :
      leb (abs (y1 -ℤ y0)) (abs (x1 -ℤ x0)) ≡ true
      → k ≤ abs (x1 -ℤ x0)
      → Traced x0 y0 x1 y1 k (walk k line)
  unfolding line_iterator
  wide-Traced w within =
      let flat : abs (y1 -ℤ y0) ≤ abs (x1 -ℤ x0) = leb→le _ _ w in
      rw w (
        let (j, inv) =
          walk-Inv _ (record { uncounted = refl; half = refl; flat = flat }) k within in
        let at_x = inv.at_x ∙ longer_at x0 x1 k j in
        let at_y = inv.at_y ∙ shorter_at y0 y1 k j in
        record {
          across = k;
          up = j;
          at_x = at_x;
          at_y = at_y;
          wide = λ _. (refl, balance-Nearest _ _ _ _ _ inv.balance inv.below);
          tall = λ t. absurd (lt_irrefl (le_trans t flat));
          valid = valid_within _ _ k j inv within;
          at_end = λ last.
              let end : k ≡ abs (x1 -ℤ x0) = last ∙ max_first _ _ flat in
              let all = slow_end _ _ k j _ inv.balance end inv.below flat inv.slower in
              (
                at_x ∙ ap (along x0 x1) end ∙ along-end x0 x1,
                at_y ∙ ap (along y0 y1) all ∙ along-end y0 y1,
                invalid_after _ _ k j inv end,
              );
        })

  tall-Traced :
      leb (abs (y1 -ℤ y0)) (abs (x1 -ℤ x0)) ≡ false
      → k ≤ abs (y1 -ℤ y0)
      → Traced x0 y0 x1 y1 k (walk k line)
  unfolding line_iterator
  tall-Traced t within =
      let steep : abs (x1 -ℤ x0) < abs (y1 -ℤ y0) = ¬leb→lt _ _ t in
      let flat : abs (x1 -ℤ x0) ≤ abs (y1 -ℤ y0) = lt→le steep in
      rw t (
        let (j, inv) =
          walk-Inv _ (record { uncounted = refl; half = refl; flat = flat }) k within in
        let at_x = inv.at_x ∙ shorter_at x0 x1 k j in
        let at_y = inv.at_y ∙ longer_at y0 y1 k j in
        record {
          across = j;
          up = k;
          at_x = at_x;
          at_y = at_y;
          wide = λ w. absurd (lt_irrefl (le_trans steep w));
          tall = λ _. (refl, balance-Nearest _ _ _ _ _ inv.balance inv.below);
          valid = valid_within _ _ k j inv within;
          at_end = λ last.
              let end : k ≡ abs (y1 -ℤ y0) = last ∙ max_second _ _ flat in
              let all = slow_end _ _ k j _ inv.balance end inv.below flat inv.slower in
              (
                at_x ∙ ap (along x0 x1) all ∙ along-end x0 x1,
                at_y ∙ ap (along y0 y1) end ∙ along-end y0 y1,
                invalid_after _ _ k j inv end,
              );
        })

  -- For any two points: after k steps, at most as many as the longer of the two distances along an
  -- axis, the iterator is k cells from the first point towards the second one along the longer
  -- axis, and along the other axis it is the number of cells towards it that is within half a cell
  -- of the straight line; it is valid; and after as many steps as the longer distance it is at the
  -- second point and one more step makes it invalid.
  pub walk-Traced : k ≤ max (abs (x1 -ℤ x0)) (abs (y1 -ℤ y0)) → Traced x0 y0 x1 y1 k (walk k line)
  walk-Traced within = elim (Bool-cases (leb (abs (y1 -ℤ y0)) (abs (x1 -ℤ x0)))) [
    | inl w ↦ wide-Traced w (subst (λ n. k ≤ n) (max_first _ _ (leb→le _ _ w)) within)
    | inr t ↦ tall-Traced t (subst (λ n. k ≤ n) (max_second _ _ (lt→le (¬leb→lt _ _ t))) within)
  ]
