-- ===== src/BehaviorTree/Actions/GetNextFewGoals.antt =====
-- nav3d_behavior_tree/plugins/action/get_next_few_goals_action.cpp and append_goal_pose_to_goals_action.cpp.
use nav2_3d.Prelude.{
  ℕ, zero, suc, ◌+◌, ◌≤◌, ◌≡◌, refl, ap, sym, ◌∙◌, Option, none, some, if◌then◌else◌, arith, List,
  [], ◌∷◌, ◌++◌, length, get_elem?, is_empty, min,
}
use native.Mathlib.Numerals.{unary_clauses}
use nav2_3d.Prelude.Int.{ℤ, pos, negsuc}
use nav2_3d.BehaviorTree.{NodeStatus, running, success, failure, BtNode}
use nav2_3d.BehaviorTree.Actions.{Goals}

-- `num_goals`, at least 0, as a size_t.
abbrev pub count_of : ℤ → ℕ
count_of (pos n) = n
count_of (negsuc n) = 0

-- `push_back` of an element that may be out of range, which the loop never asks for.
abbrev push {ℓ} : {A : Type ℓ} → Option A → List A → List A
push none out = out
push (some a) out = out ++ a ∷ []

-- The `for` loop from `i` on, with `rounds` left.
copy : {P : Type 0} → List P → ℕ → ℕ → List P → List P
copy goals zero i out = out
copy goals (suc rounds) i out = copy goals rounds (suc i) (push (get_elem? goals i) out)

-- The first goals of a list, as many as asked for.
abbrev pub first {ℓ} : {A : Type ℓ} → ℕ → List A → List A
first zero xs = []
first (suc n) [] = []
first (suc n) (x ∷ xs) = x ∷ first n xs

module _ {ℓ} {H P : Type 0} {W : Type ℓ} (bt : BtNode W) (set_output : Goals H P → W → W) where
  unfoldable pub get_next_few_goals : Goals H P → ℤ → W → NodeStatus × W
  unfolding copy
  get_next_few_goals input num w =
      let w1 = bt.set_status running w in
      if is_empty input.goals
      then (failure, w1)
      else (let limit = min (count_of num) (length input.goals) in
          (
            success,
            set_output (record { header = input.header; goals = copy input.goals limit 0 [] }) w1,
          ))

  unfoldable pub append_goal_pose_to_goals : P → Goals H P → W → NodeStatus × W
  append_goal_pose_to_goals pose input w = (
    success,
    set_output (record input { goals = input.goals ++ pose ∷ [] }) (bt.set_status running w),
  )

-- The rest of a list from an index on.
abbrev rest_at {ℓ} : {A : Type ℓ} → List A → ℕ → List A
rest_at xs zero = xs
rest_at [] (suc i) = []
rest_at (x ∷ xs) (suc i) = rest_at xs i

append_assoc {ℓ} : {A : Type ℓ} (xs ys zs : List A) → (xs ++ ys) ++ zs ≡ xs ++ (ys ++ zs)
append_assoc [] ys zs = refl
append_assoc (x ∷ xs) ys zs = ap (λ l. x ∷ l) (append_assoc xs ys zs)

append_nil {ℓ} : {A : Type ℓ} (xs : List A) → xs ++ [] ≡ xs
append_nil [] = refl
append_nil (x ∷ xs) = ap (λ l. x ∷ l) (append_nil xs)

-- An entry and what follows it.
push-rest {ℓ} :
    {A : Type ℓ} (xs : List A) (i n : ℕ) (out : List A)
    → suc i ≤ length xs
    → push (get_elem? xs i) out ++ first n (rest_at xs (suc i))
      ≡ out ++ first (suc n) (rest_at xs i)
push-rest [] i n out h = absurd (omega (arith, h))
push-rest (x ∷ xs) zero n out h = append_assoc out (x ∷ []) (first n xs)
push-rest (x ∷ xs) (suc i) n out h = push-rest xs i n out (omega (arith, h))

copy-first :
    {P : Type 0} (goals : List P) (rounds i : ℕ) (out : List P)
    → i + rounds ≤ length goals
    → copy goals rounds i out ≡ out ++ first rounds (rest_at goals i)
unfolding copy
copy-first goals zero i out h = sym (append_nil out)
copy-first goals (suc rounds) i out h =
    copy-first goals rounds (suc i) (push (get_elem? goals i) out) (omega (arith, h))
    ∙ push-rest goals i rounds out (omega (arith, h))

first-min {ℓ} : {A : Type ℓ} (n : ℕ) (xs : List A) → first (min n (length xs)) xs ≡ first n xs
first-min zero xs = simp unary_clauses refl
first-min (suc n) [] = simp unary_clauses refl
first-min (suc n) (x ∷ xs) = simp unary_clauses (ap (λ l. x ∷ l) (first-min n xs))

module _ {ℓ} {H P : Type 0} {W : Type ℓ} (bt : BtNode W) (set_output : Goals H P → W → W) where
  -- With no input goal GetNextFewGoals fails and sends nothing on; otherwise it succeeds and sends
  -- on the first goals, as many as num_goals says and none where it is negative, under the header
  -- of the input.
  pub get_next_few_goals-first :
      (input : Goals H P) (num : ℤ) (w : W)
      → let w1 = bt.set_status running w in
        get_next_few_goals bt set_output input num w ≡ (
          if is_empty input.goals then (failure, w1) else (
            success,
            set_output
                (record { header = input.header; goals = first (count_of num) input.goals })
                w1,
          ))
  unfolding get_next_few_goals
  get_next_few_goals-first input num w =
      let n = count_of num in
      let same : copy input.goals (min n (length input.goals)) 0 [] ≡ first n input.goals =
        copy-first input.goals (min n (length input.goals)) 0 [] (omega arith)
        ∙ first-min n input.goals in
      rw same refl
