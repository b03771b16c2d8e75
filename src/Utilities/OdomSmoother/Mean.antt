-- ===== src/Utilities/OdomSmoother/Mean.antt =====
-- The mean that OdomSmoother reports (nav3d_util/src/odometry_utils.cpp), where no sum is rounded.
use nav2_3d.Prelude.{
  ℕ, ◌≡◌, refl, sym, ap, subst, ◌∙◌, Bool-cases, inl, inr, List, [], ◌∷◌, ◌++◌, length, Returns,
}
use nav2_3d.Prelude.Double.{Doubles}
use nav2_3d.Offboard.{Twist}
use nav2_3d.Utilities.OdomSmoother.{
  Odometry, OdomSmoother, Messages, no_twist, add_twist, sub_twist, mean_twist, is_old, drop_old,
  odom_smoother, receive_rest, receive,
}
use nav2_3d.Utilities.OdomSmoother.Window.{taken, kept, odom_callback-taken}

-- Sums are not rounded.
pub record IsExact {D : Type 0} (doubles : Doubles D) : Type 0 where
  pub zero_add : (a : D) → doubles.add doubles.zero a ≡ a
  pub add_zero : (a : D) → doubles.add a doubles.zero ≡ a
  pub add_assoc : (a b c : D) → doubles.add (doubles.add a b) c ≡ doubles.add a (doubles.add b c)
  pub sub-add : (a b : D) → doubles.sub (doubles.add a b) a ≡ b

module _ {H D : Type 0} (messages : Messages H D) (duration : ℕ) where
  open messages use {doubles, stamp}

  abbrev plus : Twist D → Twist D → Twist D
  plus = add_twist messages duration

  abbrev nil : Twist D
  nil = no_twist messages duration

  -- The sum of the twists of some messages.
  pub total : List (Odometry H D) → Twist D
  total [] = nil
  total (m ∷ ms) = plus m.twist (total ms)

  -- The sum that is kept up is that of the history, and its mean is reported.
  pub record Averages (s : OdomSmoother H D) : Type 0 where
    pub summed : s.odom_cumulate ≡ total s.odom_history
    pub averaged :
        s.vel_smooth.twist
        ≡ mean_twist messages duration (total s.odom_history) (length s.odom_history)

  module _ (exact : IsExact doubles) where
    nil-plus : (a : Twist D) → plus nil a ≡ a
    nil-plus a = λ i. record {
      linear = record {
        x = exact.zero_add a.linear.x i;
        y = exact.zero_add a.linear.y i;
        z = exact.zero_add a.linear.z i;
      };
      angular = record {
        x = exact.zero_add a.angular.x i;
        y = exact.zero_add a.angular.y i;
        z = exact.zero_add a.angular.z i;
      };
    }

    plus-nil : (a : Twist D) → plus a nil ≡ a
    plus-nil a = λ i. record {
      linear = record {
        x = exact.add_zero a.linear.x i;
        y = exact.add_zero a.linear.y i;
        z = exact.add_zero a.linear.z i;
      };
      angular = record {
        x = exact.add_zero a.angular.x i;
        y = exact.add_zero a.angular.y i;
        z = exact.add_zero a.angular.z i;
      };
    }

    plus_assoc : (a b c : Twist D) → plus (plus a b) c ≡ plus a (plus b c)
    plus_assoc a b c = λ i. record {
      linear = record {
        x = exact.add_assoc a.linear.x b.linear.x c.linear.x i;
        y = exact.add_assoc a.linear.y b.linear.y c.linear.y i;
        z = exact.add_assoc a.linear.z b.linear.z c.linear.z i;
      };
      angular = record {
        x = exact.add_assoc a.angular.x b.angular.x c.angular.x i;
        y = exact.add_assoc a.angular.y b.angular.y c.angular.y i;
        z = exact.add_assoc a.angular.z b.angular.z c.angular.z i;
      };
    }

    sub-plus : (a b : Twist D) → sub_twist messages duration (plus a b) a ≡ b
    sub-plus a b = λ i. record {
      linear = record {
        x = exact.sub-add a.linear.x b.linear.x i;
        y = exact.sub-add a.linear.y b.linear.y i;
        z = exact.sub-add a.linear.z b.linear.z i;
      };
      angular = record {
        x = exact.sub-add a.angular.x b.angular.x i;
        y = exact.sub-add a.angular.y b.angular.y i;
        z = exact.sub-add a.angular.z b.angular.z i;
      };
    }

    total-append :
        (ms : List (Odometry H D)) (m : Odometry H D)
        → plus (total ms) m.twist ≡ total (ms ++ m ∷ [])
    unfolding total
    total-append [] m = nil-plus m.twist ∙ sym (plus-nil m.twist)
    total-append (x ∷ ms) m =
        plus_assoc x.twist (total ms) m.twist ∙ ap (plus x.twist) (total-append ms m)

    drop_old-total :
        (now : ℕ) (ms : List (Odometry H D)) (c : Twist D)
        → c ≡ total ms
        → (drop_old messages duration now ms c).1 ≡ total (drop_old messages duration now ms c).0
    unfolding drop_old total
    drop_old-total now [] c same = same
    drop_old-total now (m ∷ ms) c same = elim (Bool-cases (is_old messages duration now m)) [
      | inl old ↦ rw old (
          drop_old-total now ms (sub_twist messages duration c m.twist)
            (ap (λ t. sub_twist messages duration t m.twist) same ∙ sub-plus m.twist (total ms)))
      | inr young ↦ rw young same
    ]

    taken-Averages :
        (msg : Odometry H D) (s : OdomSmoother H D)
        → s.odom_cumulate ≡ total s.odom_history
        → Averages (taken messages duration msg s)
    unfolding taken kept
    taken-Averages msg s same =
        let (history, cumulate) = kept messages duration (stamp msg.header) s in
        let sum : plus cumulate msg.twist ≡ total (history ++ msg ∷ []) =
          ap (λ t. plus t msg.twist)
            (drop_old-total (stamp msg.header) s.odom_history s.odom_cumulate same)
          ∙ total-append history msg in
        record {
          summed = sum;
          averaged = ap (λ t. mean_twist messages duration t (length (history ++ msg ∷ []))) sum;
        }

    receive-Averages_from :
        (ms : List (Odometry H D)) (s : OdomSmoother H D)
        → Averages s
        → Returns Averages (receive messages duration ms s)
    unfolding receive
    receive-Averages_from [] s averages = averages
    receive-Averages_from (m ∷ ms) s averages =
        subst
          (λ r. Returns Averages (receive_rest messages duration r (receive messages duration ms)))
          (sym (odom_callback-taken messages duration m s))
          (receive-Averages_from ms (taken messages duration m s)
            (taken-Averages m s averages.summed))

    -- If sums of doubles are not rounded: after any messages, at least one, the sum that is kept up is
    -- that of the history, and the smoothed twist is its mean.
    pub receive-Averages :
        (m : Odometry H D) (ms : List (Odometry H D))
        → Returns Averages (receive messages duration (m ∷ ms) (odom_smoother messages duration))
    unfolding receive odom_smoother total
    receive-Averages m ms =
        subst
          (λ r. Returns Averages (receive_rest messages duration r (receive messages duration ms)))
          (sym (odom_callback-taken messages duration m (odom_smoother messages duration)))
          (receive-Averages_from ms (taken messages duration m (odom_smoother messages duration))
            (taken-Averages m (odom_smoother messages duration) refl))
