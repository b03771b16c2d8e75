-- ===== src/Controller/Segment.antt =====
-- The segment of the path that getCurrentCommand follows (nav3d_controller/src/controller_server.cpp).
use nav2_3d.Prelude.{
  ℕ, zero, suc, ◌+◌, ◌≤◌, ◌<◌, not, ◌||◌, ltb, leb, if_rule, Bool-cases, ◌≡◌, ◌≢◌, refl, ap, sym,
  subst, ◌∙◌, ◌⊎◌, inl, inr, Option, none, some, List, [], ◌∷◌, length, get_elem?, arith,
}
use nav2_3d.Controller.{
  Reals, Pose, Twist, Settings, Controller, Frames, update_filter, reset_filter,
}
use nav2_3d.Controller.Trajectory.{
  time_at, find_segment, PathCommand, out_of_range, on_segment, after_end, before_start, last_entry,
  command_on, get_current_command,
}

some-path : {a b : ℕ} → some a ≡ some b → a ≡ b
some-path same = ground arith

ℕ-cases : (a b : ℕ) → a ≤ b → (a < b) ⊎ (a ≡ b)
ℕ-cases a b le = ground arith

later : (now t t' : ℕ) → t' < now → now ≤ t → t' ≢ t
later now t t' past late same = omega (arith, past, late, same)

module _ {D Q : Type 0} (reals : Reals D) (frames : Frames D Q) (settings : Settings D) where
  -- The path has an entry at the index, of an earlier time.
  abbrev pub Passed : ℕ → List (ℕ × Pose D Q) → ℕ → Type 0
  Passed now path i = (t : ℕ) × (time_at reals frames settings path i ≡ some t) × (t < now)

  -- The time lies on the segment that starts at the index.
  abbrev pub Brackets : ℕ → List (ℕ × Pose D Q) → ℕ → Type 0
  Brackets now path i =
      Passed now path i
      × ((t : ℕ) × (time_at reals frames settings path (suc i) ≡ some t) × (now ≤ t))

  time_at-down :
      (path : List (ℕ × Pose D Q)) (i m t : ℕ)
      → i < m
      → time_at reals frames settings path m ≡ some t
      → (t' : ℕ) × (time_at reals frames settings path (suc i) ≡ some t')
  time_at-down path i zero t before there = absurd (omega (arith, before))
  time_at-down [] i (suc m) t before there = absurd (cc)
  time_at-down (e ∷ (e' ∷ rest)) zero (suc m) t before there = (e'.0, refl)
  time_at-down (e ∷ []) i (suc m) t before there = absurd (cc)
  time_at-down (e ∷ (e' ∷ rest)) (suc i) (suc m) t before there =
      time_at-down (e' ∷ rest) i m t (omega (arith, before)) there

  -- Some later entry is not past: the loop ends on the segment of the time.
  find_segment-Brackets :
      (fuel now m t : ℕ) (path : List (ℕ × Pose D Q)) (i : ℕ)
      → Passed now path i
      → time_at reals frames settings path m ≡ some t
      → now ≤ t
      → i < m
      → m ≤ i + fuel
      → (j : ℕ) × (find_segment reals frames settings fuel now path i ≡ some j)
        × Brackets now path j
  unfolding find_segment
  find_segment-Brackets zero now m t path i passed there late before enough =
      absurd (omega (arith, before, enough))
  find_segment-Brackets (suc fuel) now m t path i passed there late before enough =
      let (t', next) = time_at-down path i m t before there in
      elim (Bool-cases (ltb t' now)) [
        | inr here ↦ rw (next, find_segment, here) (i, refl, (passed, (t', next, ground arith)))
        | inl past ↦
            rw (next, find_segment, past)
              (find_segment-Brackets fuel now m t path (suc i) (t', next, ground arith) there late
                (elim (ℕ-cases (suc i) m (omega (arith, before))) [
                  | inl less ↦ less
                  | inr same ↦ absurd (
                      later now t t' (ground arith) late (
                        some-path
                          (sym next ∙ (ap (time_at reals frames settings path) same ∙ there))))
                ])
                (omega (arith, enough)))
      ]

  last_entry-time_at :
      (e : ℕ × Pose D Q) (rest : List (ℕ × Pose D Q))
      → time_at reals frames settings (e ∷ rest) (length rest)
        ≡ some (last_entry reals frames settings e rest).0
  unfolding last_entry
  last_entry-time_at e [] = refl
  last_entry-time_at e (e' ∷ rest) = last_entry-time_at e' rest

  time_at-get_elem? :
      (path : List (ℕ × Pose D Q)) (i t : ℕ)
      → time_at reals frames settings path i ≡ some t
      → (e : ℕ × Pose D Q) × (get_elem? path i ≡ some e)
  time_at-get_elem? [] i t there = absurd (cc)
  time_at-get_elem? (e ∷ rest) zero t there = (e, refl)
  time_at-get_elem? (e ∷ rest) (suc i) t there = time_at-get_elem? rest i t there

  Passed-length :
      (now : ℕ) (path : List (ℕ × Pose D Q)) (i t : ℕ)
      → time_at reals frames settings path i ≡ some t
      → i < length path
  Passed-length now [] i t there = absurd (cc)
  Passed-length now (e ∷ rest) zero t there = omega arith
  Passed-length now (e ∷ rest) (suc i) t there = omega (arith, Passed-length now rest i t there)

  -- The index is 0, or its entry is past.
  abbrev pub Started : ℕ → Controller D Q → Type 0
  Started now c =
      (c.current_waypoint_index ≡ 0) ⊎ Passed now c.current_path c.current_waypoint_index

  pub Started-later :
      (then' now : ℕ) (c : Controller D Q) → then' ≤ now → Started then' c → Started now c
  Started-later then' now c le (inl first) = inl first
  Started-later then' now c le (inr (t, there, past)) = inr (t, there, omega (arith, le, past))

  -- A command is worked out with no entry past the end, and the next one finds the index started.
  abbrev pub Follows : ℕ → Option (PathCommand reals frames settings × Controller D Q) → Type 0
  Follows now none = ⊥
  Follows now (some (command, c)) = (command ≢ out_of_range) × Started now c

  -- The filter leaves the path and the index.
  update_filter-Started :
      (now : ℕ) (pose : Pose D Q) (twist : Twist D) (dt : D) (c : Controller D Q)
      → Started now c
      → Started now (update_filter reals frames settings pose twist dt c)
  unfolding update_filter
  update_filter-Started now pose twist dt c started =
      if_rule (Started now) (reals.doubles.le dt reals.doubles.zero || not c.filter_initialized)
        (λ _. started) (λ _. started)

  before_start-Started :
      (now : ℕ) (pose : Option (Pose D Q)) (c : Controller D Q)
      → Started now c
      → Started now (before_start reals frames settings now pose c)
  unfolding before_start reset_filter
  before_start-Started now none c started = started
  before_start-Started now (some current) c started = started

  on_segment-Follows :
      (now : ℕ) (goal : Pose D Q) (i : ℕ) (c : Controller D Q)
      → Brackets now c.current_path i
      → Follows now (some (on_segment reals frames settings now goal i c))
  unfolding on_segment
  on_segment-Follows now goal i c ((ta, here, past), (tb, next, ahead)) =
      let (a, at) = time_at-get_elem? c.current_path i ta here in
      let (b, after) = time_at-get_elem? c.current_path (suc i) tb next in
      rw (at, on_segment, after)
        (
          (λ wrong. cc),
          update_filter-Started now _ _ _ (record c { current_waypoint_index = i })
              (inr (ta, here, past)),
        )

  -- The entry at the index is past once the first one is.
  Started-Passed :
      (now : ℕ) (front : ℕ × Pose D Q) (rest : List (ℕ × Pose D Q)) (c : Controller D Q)
      → c.current_path ≡ front ∷ rest
      → front.0 < now
      → Started now c
      → Passed now (front ∷ rest) c.current_waypoint_index
  Started-Passed now front rest c held past (inl first) =
      subst (Passed now (front ∷ rest)) (sym first) (front.0, refl, past)
  Started-Passed now front rest c held past (inr passed) =
      subst (λ path. Passed now path c.current_waypoint_index) held passed

  not_last :
      (now : ℕ) (path : List (ℕ × Pose D Q)) (i m t : ℕ)
      → Passed now path i
      → time_at reals frames settings path m ≡ some t
      → now ≤ t
      → i < suc m
      → i < m
  not_last now path i m t (t0, here, past) there late near =
      elim (ℕ-cases i m (omega (arith, near))) [
        | inl less ↦ less
        | inr same ↦ absurd (
            later now t t0 past late
              (some-path (sym here ∙ (ap (time_at reals frames settings path) same ∙ there))))
      ]

  -- The time is after the first entry and before the last one.
  on_path-Follows :
      (now : ℕ) (goal : Pose D Q) (front : ℕ × Pose D Q) (rest : List (ℕ × Pose D Q))
      (c : Controller D Q)
      → c.current_path ≡ front ∷ rest
      → front.0 < now
      → now < (last_entry reals frames settings front rest).0
      → Started now c
      → Follows now
          (elim (find_segment reals frames settings
              (length (front ∷ rest))
              now
              (front ∷ rest)
              c.current_waypoint_index)
            as (λ _. Option (PathCommand reals frames settings × Controller D Q)) [
              | none ↦ none
              | some i ↦ some (on_segment reals frames settings now goal i c)
            ])
  on_path-Follows now goal front rest c held past ahead started =
      let path : List (ℕ × Pose D Q) = front ∷ rest in
      let passed = Started-Passed now front rest c held past started in
      let last = last_entry-time_at front rest in
      let near : c.current_waypoint_index < suc (length rest) =
        Passed-length now path c.current_waypoint_index passed.0 passed.1 in
      let before =
        not_last now path c.current_waypoint_index (length rest) _ passed last
          (omega (arith, ahead)) near in
      let (j, ends, brackets) =
        find_segment-Brackets (length path) now (length rest) _ path c.current_waypoint_index passed
          last (omega (arith, ahead)) before (omega arith) in
      rw (ends)
        (on_segment-Follows now goal j c (subst (λ x. Brackets now x j) (sym held) brackets))

  command_on-Follows :
      (now : ℕ) (pose : Option (Pose D Q)) (path : List (ℕ × Pose D Q)) (c : Controller D Q)
      → c.current_path ≡ path
      → Started now c
      → Follows now (command_on reals frames settings now pose path c)
  unfolding command_on after_end
  command_on-Follows now pose [] c held started = ((λ wrong. cc), started)
  command_on-Follows now pose (front ∷ rest) c held started =
      if_rule (Follows now) (leb now front.0)
        (λ _. ((λ wrong. cc), before_start-Started now pose c started))
        (λ past.
          if_rule (Follows now) (leb (last_entry reals frames settings front rest).0 now)
            (λ _. ((λ wrong. cc), update_filter-Started now _ _ _ c started))
            (λ ahead.
              on_path-Follows now (last_entry reals frames settings front rest).1 front rest c held
                (ground arith) (ground arith) started))

  -- follows
  pub get_current_command-Follows :
      (before now : ℕ) (pose : Option (Pose D Q)) (c : Controller D Q)
      → Started before c
      → before ≤ now
      → Follows now (get_current_command reals frames settings now pose c)
  unfolding get_current_command
  get_current_command-Follows before now pose c started le =
      command_on-Follows now pose c.current_path c refl (Started-later before now c le started)
