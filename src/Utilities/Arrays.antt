-- ===== src/Utilities/Arrays.antt =====
-- parseVVF of nav3d_util/src/array_parser.cpp: a vector of vectors of floats out of text such as
-- "[[1, 2], [3]]". A character is its code.
pub mod Steps
pub mod RoundTrip
pub mod Returning
use nav2_3d.Prelude.{
  ℕ, zero, suc, Bool, true, false, not, ◌||◌, ◌==◌, leb, if◌then◌else◌, Option, none, some, List,
  [], ◌∷◌, ◌++◌, length,
}

-- The messages.
pub data Error : Type 0 where
  depth_greater_than_2 more_close_than_open numbers_at_other_depth failed_to_parse unterminated :
      Error

-- The vector of vectors that is returned, and `error_return`.
pub record Parsed (D : Type 0) : Type 0 where
  pub result : List (List D)
  pub error_return : Option Error

abbrev pub open_bracket : ℕ
open_bracket = 91

abbrev pub close_bracket : ℕ
close_bracket = 93

abbrev pub comma : ℕ
comma = 44

abbrev pub space : ℕ
space = 32

abbrev pub tab : ℕ
tab = 9

-- `input_ss >> value` is the library's: the value and the rest, none where the stream fails.
module _ {D : Type 0} (read_float : List ℕ → Option (D × List ℕ)) where
  -- The cases of the `switch`.
  pub data Kind : Type 0 where
    opening closing separator number : Kind

  unfoldable pub kind_of : ℕ → Kind
  kind_of c =
      if c == open_bracket
      then opening
      else if c == close_bracket
      then closing
      else if c == comma || (c == space || c == tab)
      then separator
      else number

  abbrev pub failed : Error → List (List D) → Option (Parsed D)
  failed error result = some (record { result = result; error_return = some error })

  -- The end of the input: the test after the loop.
  unfoldable pub at_end : ℕ → List (List D) → Option (Parsed D)
  at_end depth result =
      if not (depth == 0)
      then failed unterminated result
      else some (record { result = result; error_return = none })

  -- The `while` loop; none is fuel run out. The depth is an int that goes below 0 only on the way out.
  unfoldable pub parse : ℕ → ℕ → List D → List (List D) → List ℕ → Option (Parsed D)
  unfolding kind_of at_end
  parse zero depth current result input = none
  parse (suc fuel) depth current result [] = at_end depth result
  parse (suc fuel) depth current result (c ∷ cs) = elim (kind_of c) [
    | opening ↦ elim (leb 2 depth) [
      | true ↦ failed depth_greater_than_2 result
      | false ↦ parse fuel (suc depth) [] result cs
    ]
    | closing ↦ elim depth [
      | zero ↦ failed more_close_than_open result
      | suc d ↦ parse fuel d current (if d == 1 then result ++ (current ∷ []) else result) cs
    ]
    | separator ↦ parse fuel depth current result cs
    | number ↦ elim (depth == 2) [
      | false ↦ failed numbers_at_other_depth result
      | true ↦ elim (read_float (c ∷ cs)) [
        | none ↦ failed failed_to_parse result
        | some (value, rest) ↦ parse fuel depth (current ++ (value ∷ [])) result rest
      ]
    ]
  ]

  unfoldable pub parse_vvf : List ℕ → Option (Parsed D)
  unfolding parse
  parse_vvf input = parse (suc (length input)) 0 [] [] input
