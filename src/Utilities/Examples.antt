-- ===== src/Utilities/Examples.antt =====
-- The text utilities on concrete text.
use nav2_3d.Prelude.{
  Returns, ◌+◌, ◌-◌, ◌*◌, ◌/◌, ltb, leb, ℕ, Bool, true, false, Eq, ◌==◌, ==_iff, if◌then◌else◌, ◌≡◌,
  refl, Option, none, some, List, [], ◌∷◌, All, arith,
}
use nav2_3d.Prelude.Int.{pos, negsuc, ◌+ℤ◌, ◌-ℤ◌}
use nav2_3d.Controller.{Vector}
use nav2_3d.Utilities.OdomSmoother.{
  Odometry, Messages, drop_old, update_state, odom_callback, odom_smoother, receive,
}
use nav2_3d.Utilities.OdomSmoother.Window.{View, receive-View}
use nav2_3d.Utilities.LineIterator.{line_iterator, walk}
use nav2_3d.Utilities.LineIterator.Course.{Traced, walk-Traced}
use nav2_3d.Utilities.Strings.{split, join, Free, split-join}
use nav2_3d.Utilities.Arrays.{Parsed, parse_vvf}
use nav2_3d.Utilities.Arrays.RoundTrip.{Consumes, Reads, show_vvf, parse_vvf-show_vvf}

instance numbers : Eq ℕ
numbers = record { beq = ◌==◌; beq_iff = ==_iff }

abbrev comma_code : ℕ
comma_code = 44

split-join_example :
    ((s : List ℕ)
      → (join comma_code (split comma_code s) ≡ s) × All (Free comma_code) (split comma_code s))
    × ((t : List ℕ) (ts : List (List ℕ))
        → All (Free comma_code) (t ∷ ts)
        → split comma_code (join comma_code (t ∷ ts)) ≡ t ∷ ts)
split-join_example = split-join comma_code

-- The numbers are Booleans, written 1 and 0.
read_digit : List ℕ → Option (Bool × List ℕ)
read_digit [] = none
read_digit (c ∷ cs) =
    if c == 49 then some (true, cs) else if c == 48 then some (false, cs) else none

abbrev digit : Bool → List ℕ
digit true = 49 ∷ []
digit false = 48 ∷ []

digit-Reads : Reads read_digit digit
unfolding read_digit nav2_3d.Utilities.Arrays.kind_of
digit-Reads true = ((49, [], refl, refl), (λ rest. refl), (λ rest. refl))
digit-Reads false = ((48, [], refl, refl), (λ rest. refl), (λ rest. refl))

digit-Consumes : Consumes read_digit
unfolding read_digit
digit-Consumes [] rest value reads = absurd (cc)
digit-Consumes (c ∷ cs) rest value reads =
    let same : rest ≡ cs = ground arith in rw (same) (omega arith)

abbrev rows : List (List Bool)
rows = (true ∷ false ∷ []) ∷ [] ∷ (true ∷ []) ∷ []

parse_vvf-show_vvf_example :
    parse_vvf read_digit (show_vvf read_digit digit rows)
    ≡ some (record { result = rows; error_return = none })
parse_vvf-show_vvf_example = parse_vvf-show_vvf read_digit digit digit-Reads rows

-- A line of slope two fifths, down to the left.
walk-Traced_example :
    Traced
      (pos 2)
      (pos 3)
      (negsuc 2)
      (pos 5)
      4
      (walk 4 (line_iterator (pos 2) (pos 3) (negsuc 2) (pos 5)))
unfolding ◌-ℤ◌
walk-Traced_example = walk-Traced (pos 2) (pos 3) (negsuc 2) (pos 5) 4 (omega arith)

fourth_cell : (walk 4 (line_iterator (pos 2) (pos 3) (negsuc 2) (pos 5))).y ≡ pos 5
unfolding walk line_iterator ◌-ℤ◌ ◌+ℤ◌
fourth_cell = refl

-- A header is its time stamp.
abbrev stamped : Messages ℕ ℕ
stamped = record {
  doubles = record {
    zero = 0;
    one = 1;
    add = ◌+◌;
    sub = ◌-◌;
    mul = ◌*◌;
    div = ◌/◌;
    hypot = ◌+◌;
    lt = ltb;
    le = leb;
  };
  of_nat = λ n. n;
  stamp = λ h. h;
  no_header = 0;
}

abbrev odometry : ℕ → Odometry ℕ ℕ
odometry t =
    let v : Vector ℕ = record { x = t; y = 0; z = 0 } in
    record { header = t; twist = record { linear = v; angular = v } }

abbrev stream : List (Odometry ℕ ℕ)
stream = odometry 1 ∷ odometry 3 ∷ odometry 6 ∷ odometry 7 ∷ []

receive-View_example :
    Returns (View stamped 4 stream 7) (receive stamped 4 stream (odom_smoother stamped 4))
receive-View_example = receive-View stamped 4 stream (omega arith)

window_at_end :
    Returns
      (λ s. s.odom_history ≡ odometry 3 ∷ odometry 6 ∷ odometry 7 ∷ [])
      (receive stamped 4 stream (odom_smoother stamped 4))
unfolding receive odom_smoother odom_callback update_state drop_old
window_at_end = refl
