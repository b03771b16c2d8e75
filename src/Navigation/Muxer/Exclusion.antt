-- ===== src/Navigation/Muxer/Exclusion.antt =====
-- The navigators that share a muxer, each on the thread of its own action server
-- (`onGoalReceived` and `onCompletion` of nav3d_core/include/nav3d_core/behavior_tree_navigator.hpp).
use nav2_3d.Prelude.{true, false, Eq, if◌then◌else◌, ◌≡◌, ◌≢◌, refl, arith, sym, ◌∙◌}
use nav2_3d.Navigation.Muxer.{Muxer, is_navigating, stop_navigating, start_navigating}

-- Where a navigator's thread is: it has no goal, it has found the muxer free and `goalReceived` runs,
-- or it has started.
pub data Phase : Type 0 where
  resting received navigating : Phase

pub record Navigators (N : Type 0) : Type 0 where
  pub muxer : Muxer N
  pub phase : N → Phase

module _ {N : Type 0} ⦃e : Eq N⦄ (empty : N) where
  -- One navigator moves to a phase.
  abbrev pub moved : N → Phase → (N → Phase) → N → Phase
  moved n p phase x = if e.beq n x then p else phase x

  -- The calls of the muxer's methods, one at a time.
  pub data Step : Navigators N → Navigators N → Type 0 where
    -- The muxer is navigating: the goal is refused.
    rejects :
        (s : Navigators N) (n : N)
        → s.phase n ≡ resting
        → is_navigating empty s.muxer ≡ true
        → Step s s
    finds_free :
        (s : Navigators N) (n : N)
        → n ≢ empty
        → s.phase n ≡ resting
        → is_navigating empty s.muxer ≡ false
        → Step s (record s { phase = moved n received s.phase })
    -- `goalReceived` returns false.
    refuses :
        (s : Navigators N) (n : N)
        → s.phase n ≡ received
        → Step s (record s { phase = moved n resting s.phase })
    starts :
        (s : Navigators N) (n : N)
        → s.phase n ≡ received
        → Step s
            (record s { muxer = start_navigating n s.muxer; phase = moved n navigating s.phase })
    completes :
        (s : Navigators N) (n : N)
        → s.phase n ≡ navigating
        → Step s
            (record s { muxer = stop_navigating empty n s.muxer; phase = moved n resting s.phase })

  pub data Reach (s : Navigators N) : Navigators N → Type 0 where
    here : Reach s s
    next : {t u : Navigators N} → Reach s t → Step t u → Reach s u

  -- The same, but while a navigator is between `isNavigating` and `startNavigating` no other navigator
  -- finds the muxer free.
  pub data Orderly (s : Navigators N) : Navigators N → Type 0 where
    here : Orderly s s
    next :
        {t u : Navigators N}
        → Orderly s t
        → Step t u
        → ((x y : N) → u.phase x ≡ received → u.phase y ≡ received → x ≡ y)
        → Orderly s u

  -- No navigator has a goal.
  pub record IsIdle (s : Navigators N) : Type 0 where
    pub free : s.muxer.current_navigator ≡ empty
    pub all_rest : (x : N) → s.phase x ≡ resting

  -- The muxer names the navigator that navigates, and then none has found it free.
  record Inv (s : Navigators N) : Type 0 where
    named : (x : N) → s.phase x ≡ navigating → s.muxer.current_navigator ≡ x
    proper : (x : N) → s.phase x ≢ resting → x ≢ empty
    alone : (x y : N) → s.phase x ≡ received → s.phase y ≢ navigating
    one : (x y : N) → s.phase x ≡ received → s.phase y ≡ received → x ≡ y

  IsIdle-Inv : (s : Navigators N) → IsIdle s → Inv s
  IsIdle-Inv s idle = record {
    named = λ x p. absurd (ground (arith, idle.all_rest x));
    proper = λ x p. absurd (p (idle.all_rest x));
    alone = λ x y p. absurd (ground (arith, idle.all_rest x));
    one = λ x y p q. absurd (ground (arith, idle.all_rest x));
  }

  Step-Inv :
      {s t : Navigators N}
      → Step s t
      → ((x y : N) → t.phase x ≡ received → t.phase y ≡ received → x ≡ y)
      → Inv s
      → Inv t
  unfolding is_navigating start_navigating stop_navigating
  Step-Inv (rejects s n rest busy) single inv = inv
  Step-Inv (finds_free s n proper rest free) single inv = record {
    named = λ x p. ground (arith, e.beq_iff n x, inv.named x);
    proper = λ x p q. ground (arith, e.beq_iff n x, inv.proper x);
    alone = λ x y p q. ground (
      arith,
      e.beq_iff n y,
      inv.named y,
      inv.proper y,
      e.beq_iff s.muxer.current_navigator empty,
    );
    one = single;
  }
  Step-Inv (refuses s n got) single inv = record {
    named = λ x p. ground (arith, e.beq_iff n x, inv.named x);
    proper = λ x p q. ground (arith, e.beq_iff n x, inv.proper x);
    alone = λ x y p q. ground (arith, e.beq_iff n x, e.beq_iff n y, inv.alone x y);
    one = single;
  }
  Step-Inv (starts s n got) single inv = record {
    named = λ x p. ground (arith, e.beq_iff n x, inv.alone n x);
    proper = λ x p q. ground (arith, e.beq_iff n x, inv.proper x, inv.proper n);
    alone = λ x y p q. ground (arith, e.beq_iff n x, e.beq_iff n y, inv.one x n, inv.alone x y);
    one = single;
  }
  Step-Inv (completes s n going) single inv = record {
    named = λ x p. ground (arith, e.beq_iff n x, inv.named x, inv.named n);
    proper = λ x p q. ground (arith, e.beq_iff n x, inv.proper x);
    alone = λ x y p q. ground (arith, e.beq_iff n x, e.beq_iff n y, inv.alone x n);
    one = single;
  }

  Orderly-Inv : {s t : Navigators N} → Orderly s t → IsIdle s → Inv t
  Orderly-Inv {s = s} Orderly.here idle = IsIdle-Inv s idle
  Orderly-Inv (Orderly.next o st single) idle = Step-Inv st single (Orderly-Inv o idle)

  -- From a state in which no navigator has a goal, in any order of the calls of the muxer in which
  -- no two navigators are at once between isNavigating, which found the muxer free, and
  -- startNavigating: any two navigators that navigate are the same, and the muxer names it.
  pub Orderly-exclusive :
      {s t : Navigators N}
      → IsIdle s
      → Orderly s t
      → (x y : N) → t.phase x ≡ navigating
      → t.phase y ≡ navigating
      → (x ≡ y) × (t.muxer.current_navigator ≡ x)
  Orderly-exclusive idle o x y p q =
      let inv = Orderly-Inv o idle in (sym (inv.named x p) ∙ inv.named y q, inv.named x p)

  -- Without that condition the muxer excludes nothing: from a state in which no navigator has a
  -- goal, and for any two different navigators with names that are not empty, there is an order of
  -- the calls after which both navigate.
  pub Reach-race :
      (s : Navigators N) (x y : N)
      → IsIdle s
      → x ≢ empty
      → y ≢ empty
      → x ≢ y
      → (t : Navigators N) × Reach s t
        × (t.phase x ≡ navigating)
        × (t.phase y ≡ navigating)
        × (t.muxer.current_navigator ≡ y)
  unfolding is_navigating start_navigating
  Reach-race s x y idle px py differ =
      let s1 : Navigators N = record s { phase = moved x received s.phase } in
      let s2 : Navigators N = record s1 { phase = moved y received s1.phase } in
      let s3 : Navigators N = record s2 {
        muxer = start_navigating x s2.muxer;
        phase = moved x navigating s2.phase;
      } in
      let s4 : Navigators N = record s3 {
        muxer = start_navigating y s3.muxer;
        phase = moved y navigating s3.phase;
      } in
      let free : is_navigating empty s.muxer ≡ false =
        ground (arith, idle.free, e.beq_iff s.muxer.current_navigator empty) in
      (
        s4,
        Reach.next
            (Reach.next
              (Reach.next (Reach.next Reach.here (finds_free s x px (idle.all_rest x) free))
                (finds_free s1 y py (ground (arith, idle.all_rest y, e.beq_iff x y)) free))
              (starts s2 x (ground (arith, e.beq_iff x x, e.beq_iff y x))))
            (starts s3 y (ground (arith, e.beq_iff y y, e.beq_iff x y))),
        ground (arith, e.beq_iff x x, e.beq_iff y x),
        ground (arith, e.beq_iff y y),
        refl,
      )
