-- ===== src/Utilities/OdomSmoother/Window.antt =====
-- The window of OdomSmoother (nav3d_util/src/odometry_utils.cpp).
use nav2_3d.Prelude.{
  ℕ, ◌+◌, ◌≤◌, ◌≡◌, refl, sym, ap, subst, ◌∙◌, true, Bool-cases, inl, inr, if◌then◌else◌, some,
  List, [], ◌∷◌, ◌++◌, length, arith, Returns, is_some,
}
use mathlib.Core.List.{append-nil, append_assoc}
use nav2_3d.Offboard.{Twist}
use nav2_3d.Utilities.OdomSmoother.{
  Odometry, OdomSmoother, Messages, back, add_twist, mean_twist, is_old, drop_old, add_last,
  update_state, odom_callback, odom_smoother, receive_rest, receive,
}

back-append {ℓ} : {A : Type ℓ} (xs : List A) (x : A) → back (xs ++ x ∷ []) ≡ some x
back-append [] x = refl
back-append (y ∷ []) x = refl
back-append (y ∷ z ∷ xs) x = back-append (z ∷ xs) x

module _ {H D : Type 0} (messages : Messages H D) (duration : ℕ) where
  open messages use {doubles, stamp}

  -- The stamps do not go back, from a first one on.
  abbrev pub Ordered : ℕ → List (Odometry H D) → Type 0
  Ordered t [] = Unit
  Ordered t (m ∷ ms) = (t ≤ stamp m.header) × Ordered (stamp m.header) ms

  -- The messages that are no older than the duration.
  pub recent : ℕ → List (Odometry H D) → List (Odometry H D)
  recent now [] = []
  recent now (m ∷ ms) = if is_old messages duration now m then recent now ms else m ∷ recent now ms

  -- From a message that is recent on, all are.
  recent_all :
      (now t : ℕ) (ms : List (Odometry H D))
      → Ordered t ms
      → now ≤ t + duration
      → recent now ms ≡ ms
  unfolding recent
  recent_all now t [] ordered young = refl
  recent_all now t (m ∷ ms) ordered young =
      ground (arith, recent_all now (stamp m.header) ms ordered.1)

  drop_old-recent :
      (now t : ℕ) (ms : List (Odometry H D)) (c : Twist D)
      → Ordered t ms
      → (drop_old messages duration now ms c).0 ≡ recent now ms
  unfolding drop_old recent
  drop_old-recent now t [] c ordered = refl
  drop_old-recent now t (m ∷ ms) c ordered = elim (Bool-cases (is_old messages duration now m)) [
    | inl old ↦ rw old (drop_old-recent now (stamp m.header) ms _ ordered.1)
    | inr young ↦
        rw young
          (ap (λ r. m ∷ r) (sym (recent_all now (stamp m.header) ms ordered.1 (ground arith))))
  ]

  recent-recent :
      (now before : ℕ) (ms : List (Odometry H D))
      → before ≤ now
      → recent now (recent before ms) ≡ recent now ms
  unfolding recent
  recent-recent now before [] h = refl
  recent-recent now before (m ∷ ms) h = ground (arith, recent-recent now before ms h)

  recent-append :
      (now : ℕ) (xs ys : List (Odometry H D))
      → recent now (xs ++ ys) ≡ recent now xs ++ recent now ys
  unfolding recent
  recent-append now [] ys = refl
  recent-append now (x ∷ xs) ys = ground (arith, recent-append now xs ys)

  recent_self : (m : Odometry H D) → recent (stamp m.header) (m ∷ []) ≡ m ∷ []
  unfolding recent
  recent_self m = ground arith

  Ordered-from : (t u : ℕ) (ms : List (Odometry H D)) → t ≤ u → Ordered u ms → Ordered t ms
  Ordered-from t u [] h ordered = tt
  Ordered-from t u (m ∷ ms) h ordered = (omega (arith, ordered.0), ordered.1)

  recent-Ordered : (now t : ℕ) (ms : List (Odometry H D)) → Ordered t ms → Ordered t (recent now ms)
  unfolding recent
  recent-Ordered now t [] ordered = tt
  recent-Ordered now t (m ∷ ms) ordered =
      let later = recent-Ordered now (stamp m.header) ms ordered.1 in
      elim (Bool-cases (is_old messages duration now m)) [
        | inl old ↦ rw old (Ordered-from t (stamp m.header) (recent now ms) ordered.0 later)
        | inr young ↦ rw young (ordered.0, later)
      ]

  -- The abstract view: all messages received so far, of which the last came at `t`.
  pub record View (seen : List (Odometry H D)) (t : ℕ) (s : OdomSmoother H D) : Type 0 where
    pub window : s.odom_history ≡ recent t seen
    pub latest : back s.odom_history ≡ back seen
    pub heard : s.received_odom ≡ is_some (back seen)

  -- The history that a message finds once old messages are gone.
  unfoldable pub kept : ℕ → OdomSmoother H D → List (Odometry H D) × Twist D
  kept now s = drop_old messages duration now s.odom_history s.odom_cumulate

  kept-recent :
      (seen : List (Odometry H D)) (t now : ℕ) (s : OdomSmoother H D)
      → Ordered 0 seen
      → t ≤ now
      → View seen t s
      → (kept now s).0 ≡ recent now seen
  unfolding kept
  kept-recent seen t now s ordered later view = rw view.window (
      drop_old-recent now 0 (recent t seen) s.odom_cumulate (recent-Ordered t 0 seen ordered)
      ∙ recent-recent now t seen later)

  -- A message that is taken in.
  unfoldable pub taken : Odometry H D → OdomSmoother H D → OdomSmoother H D
  taken msg s =
      let (history, cumulate) = kept (stamp msg.header) s in
      let sum : Twist D = add_twist messages duration cumulate msg.twist in
      record {
        received_odom = true;
        odom_cumulate = sum;
        vel_smooth = record {
          header = msg.header;
          twist = mean_twist messages duration sum (length (history ++ msg ∷ []));
        };
        odom_history = history ++ msg ∷ [];
      }

  pub odom_callback-taken :
      (msg : Odometry H D) (s : OdomSmoother H D)
      → odom_callback messages duration msg s ≡ some (taken msg s)
  unfolding odom_callback update_state taken kept
  odom_callback-taken msg s =
      let (history, cumulate) = kept (stamp msg.header) s in
      ap
        (λ last. add_last messages duration last (record s {
          received_odom = true;
          odom_cumulate = cumulate;
          odom_history = history ++ msg ∷ [];
        }))
        (back-append history msg)

  taken-View :
      (seen : List (Odometry H D)) (t : ℕ) (msg : Odometry H D) (s : OdomSmoother H D)
      → Ordered 0 seen
      → t ≤ stamp msg.header
      → View seen t s
      → View (seen ++ msg ∷ []) (stamp msg.header) (taken msg s)
  unfolding taken
  taken-View seen t msg s ordered later view = record {
    window =
        ap (λ l. l ++ msg ∷ []) (kept-recent seen t (stamp msg.header) s ordered later view)
        ∙ sym (
            recent-append (stamp msg.header) seen (msg ∷ [])
            ∙ ap (λ l. recent (stamp msg.header) seen ++ l) (recent_self msg));
    latest = back-append (kept (stamp msg.header) s).0 msg ∙ sym (back-append seen msg);
    heard = ap is_some (sym (back-append seen msg));
  }

  abbrev pub newest : ℕ → List (Odometry H D) → ℕ
  newest t [] = t
  newest t (m ∷ ms) = newest (stamp m.header) ms

  Ordered-append :
      (u t : ℕ) (xs : List (Odometry H D)) (m : Odometry H D)
      → newest u xs ≡ t
      → Ordered u xs
      → t ≤ stamp m.header
      → Ordered u (xs ++ m ∷ [])
  Ordered-append u t [] m same ordered later = (omega (arith, same, later), tt)
  Ordered-append u t (x ∷ xs) m same ordered later =
      (ordered.0, Ordered-append (stamp x.header) t xs m same ordered.1 later)

  newest-append :
      (u : ℕ) (xs : List (Odometry H D)) (m : Odometry H D)
      → newest u (xs ++ m ∷ []) ≡ stamp m.header
  newest-append u [] m = refl
  newest-append u (x ∷ xs) m = newest-append (stamp x.header) xs m

  receive-View_from :
      (ms seen : List (Odometry H D)) (t : ℕ) (s : OdomSmoother H D)
      → Ordered 0 seen
      → newest 0 seen ≡ t
      → Ordered t ms
      → View seen t s
      → Returns (View (seen ++ ms) (newest t ms)) (receive messages duration ms s)
  unfolding receive
  receive-View_from [] seen t s before same ordered view =
      subst (λ l. View l t s) (sym (append-nil seen)) view
  receive-View_from (m ∷ ms) seen t s before same ordered view =
      subst
        (λ r.
          Returns (View (seen ++ m ∷ ms) (newest (stamp m.header) ms))
            (receive_rest messages duration r (receive messages duration ms)))
        (sym (odom_callback-taken m s))
        (subst
          (λ l.
            Returns (View l (newest (stamp m.header) ms))
              (receive messages duration ms (taken m s)))
          (append_assoc seen (m ∷ []) ms)
          (receive-View_from ms (seen ++ m ∷ []) (stamp m.header) (taken m s)
            (Ordered-append 0 t seen m same before ordered.0) (newest-append 0 seen m) ordered.1
            (taken-View seen t m s before ordered.0 view)))

  -- OdomSmoother refines the sequence of the messages that it has received, if their stamps do not
  -- go back: no callback reads the end of an empty history, and after any messages the history
  -- holds exactly those that are no older than the duration at the last one, in their order, ends
  -- in the last one, and the flag of received data tells whether there was one.
  pub receive-View :
      (ms : List (Odometry H D))
      → Ordered 0 ms
      → Returns
          (View ms (newest 0 ms))
          (receive messages duration ms (odom_smoother messages duration))
  unfolding odom_smoother recent
  receive-View ms ordered =
      receive-View_from ms [] 0 _ tt refl ordered
        (record { window = refl; latest = refl; heard = refl })
