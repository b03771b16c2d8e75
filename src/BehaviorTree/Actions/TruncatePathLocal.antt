-- ===== src/BehaviorTree/Actions/TruncatePathLocal.antt =====
-- The function capPath of nav3d_behavior_tree/plugins/action/truncate_path_local_action.cpp, which
-- thins out a path.
use nav2_3d.Prelude.{
  All-imply, All-append, ℕ, zero, suc, ◌+◌, ◌-◌, ◌≤◌, ◌<◌, ◌≡◌, refl, ap, ◌∙◌, true, false, Option,
  none, some, if◌then◌else◌, arith, List, [], ◌∷◌, ◌++◌, length, length-append, get_elem?, leb,
  ◌==◌, inl, inr, Bool-cases, All,
}
use nav2_3d.Prelude.Int.{ℤ, pos, negsuc}

-- The loop of `capPath` from `i`, with `rounds` left: the indices of the poses that are kept between the
-- first and the last one. `rounded i` is std::round(i * step) as a size_t.
pub inner_indices : (ℕ → ℕ) → ℕ → ℕ → ℕ → ℕ → List ℕ
inner_indices rounded last zero i prev = []
inner_indices rounded last (suc rounds) i prev =
    let raised = if leb (rounded i) prev then prev + 1 else rounded i in
    let idx = if leb last raised then last - 1 else raised in
    idx ∷ inner_indices rounded last rounds (i + 1) idx

-- The indices of the poses that `capPath` keeps of a path of `n` poses, none if it leaves the path as it
-- is; `last` is the index of the last pose.
pub kept_indices : (ℕ → ℕ) → ℕ → ℤ → Option (List ℕ)
unfolding inner_indices
kept_indices rounded n (negsuc m) = none
kept_indices rounded n (pos zero) = none
kept_indices rounded n (pos (suc m)) =
    let last = n - 1 in
    if leb n (suc m)
    then none
    else (if suc m == 1
        then some (last ∷ [])
        else some (0 ∷ inner_indices rounded last (suc m - 2) 1 0 ++ last ∷ []))

-- The poses at given indices.
pub poses_at : {P : Type 0} → List P → List ℕ → List P
poses_at poses [] = []
poses_at poses (i ∷ is) = elim (get_elem? poses i) [
  | some p ↦ p ∷ poses_at poses is
  | none ↦ poses_at poses is
]

pub cap_path : {P : Type 0} → (ℕ → ℕ) → List P → ℤ → List P
unfolding kept_indices poses_at
cap_path rounded poses max_poses = elim (kept_indices rounded (length poses) max_poses) [
  | none ↦ poses
  | some is ↦ poses_at poses is
]

inner_indices-bounds :
    (rounded : ℕ → ℕ) (last rounds i prev : ℕ)
    → 2 ≤ last
    → All (λ k. (1 ≤ k) × (k < last)) (inner_indices rounded last rounds i prev)
      × (length (inner_indices rounded last rounds i prev) ≡ rounds)
unfolding inner_indices
inner_indices-bounds rounded last zero i prev h = (tt, refl)
inner_indices-bounds rounded last (suc rounds) i prev h =
    let raised = if leb (rounded i) prev then prev + 1 else rounded i in
    let idx = if leb last raised then last - 1 else raised in
    let rest = inner_indices-bounds rounded last rounds (i + 1) idx h in
    (((ground arith, ground arith), rest.0), omega (arith, rest.1))

get_elem?-some {ℓ} :
    {A : Type ℓ} (xs : List A) (k : ℕ) → k < length xs → (a : A) × (get_elem? xs k ≡ some a)
get_elem?-some [] k h = absurd (omega (arith, h))
get_elem?-some (x ∷ xs) zero h = (x, refl)
get_elem?-some (x ∷ xs) (suc k) h = get_elem?-some xs k (omega (arith, h))

poses_at-length :
    {P : Type 0} (poses : List P) (is : List ℕ)
    → All (λ k. k < length poses) is
    → length (poses_at poses is) ≡ length is
unfolding poses_at
poses_at-length poses [] h = refl
poses_at-length poses (i ∷ is) h =
    let (p, found) = get_elem?-some poses i h.0 in
    rw (found, poses_at) (ap suc (poses_at-length poses is h.1))

-- The indices that are kept are those of poses, and there are as many as asked for.
kept_indices-bounds :
    (rounded : ℕ → ℕ) (n m : ℕ)
    → 1 ≤ m
    → m < n
    → (is : List ℕ) × (kept_indices rounded n (pos m) ≡ some is)
      × All (λ k. k < n) is
      × (length is ≡ m)
unfolding kept_indices
kept_indices-bounds rounded n zero some_pose fewer = absurd (omega (arith, some_pose))
kept_indices-bounds rounded n (suc m) some_pose fewer =
    let below : leb n (suc m) ≡ false = ground arith in
    elim (Bool-cases (suc m == 1)) [
      | inl one ↦ (
        (n - 1) ∷ [],
        rw (below, kept_indices) (rw (one, kept_indices) refl),
        (omega (arith, fewer), tt),
        ground arith,
      )
      | inr more ↦
          let inner = inner_indices rounded (n - 1) (suc m - 2) 1 0 in
          let bounds = inner_indices-bounds rounded (n - 1) (suc m - 2) 1 0 (ground arith) in
          (
            0 ∷ inner ++ (n - 1) ∷ [],
            rw (below, kept_indices) (rw (more, kept_indices) refl),
            (
              omega (arith, fewer),
              All-append (λ k. k < n) inner ((n - 1) ∷ [])
                  (All-imply _ _ (λ k b. omega (arith, b.1)) inner bounds.0)
                  (omega (arith, fewer), tt),
            ),
            ground (arith, length-append inner ((n - 1) ∷ []), bounds.1),
          )
    ]

cap_path-whole :
    {P : Type 0} (rounded : ℕ → ℕ) (poses : List P) (m : ℕ)
    → length poses ≤ m
    → cap_path rounded poses (pos m) ≡ poses
unfolding cap_path kept_indices
cap_path-whole rounded poses zero h = refl
cap_path-whole rounded poses (suc m) h =
    let above : leb (length poses) (suc m) ≡ true = ground arith in rw (above, cap_path) refl

-- However the positions are rounded, capPath cuts a path of more poses than asked for, at least
-- one, to just as many, and leaves any other path, and any path if the number is not positive, as
-- it is.
pub cap_path-length :
    {P : Type 0} (rounded : ℕ → ℕ) (poses : List P) (m : ℕ)
    → (1 ≤ m → m < length poses → length (cap_path rounded poses (pos m)) ≡ m)
      × (length poses ≤ m → cap_path rounded poses (pos m) ≡ poses)
      × (cap_path rounded poses (pos 0) ≡ poses)
      × (cap_path rounded poses (negsuc m) ≡ poses)
unfolding cap_path kept_indices
cap_path-length rounded poses m = (
  λ some_pose fewer.
      let (is, kept, within, many) = kept_indices-bounds rounded (length poses) m some_pose fewer in
      rw (kept, cap_path) (poses_at-length poses is within ∙ many),
  cap_path-whole rounded poses m,
  refl,
  refl,
)
