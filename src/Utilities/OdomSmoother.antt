-- ===== src/Utilities/OdomSmoother.antt =====
-- OdomSmoother (nav3d_util/src/odometry_utils.cpp and include/nav3d_util/odometry_utils.hpp). Its mutex
-- makes each method one step. A time is in nanoseconds.
pub mod Window
pub mod Mean
use nav2_3d.Prelude.{
  ℕ, ◌+◌, ltb, Bool, true, false, if◌then◌else◌, Option, none, some, List, [], ◌∷◌, ◌++◌, length,
}
use nav2_3d.Prelude.Double.{Doubles}
use nav2_3d.Controller.{Vector}
use nav2_3d.Offboard.{Twist}

-- nav_msgs::msg::Odometry, of which the header and the twist are read.
pub record Odometry (H D : Type 0) : Type 0 where
  pub header : H
  pub twist : Twist D

pub record TwistStamped (H D : Type 0) : Type 0 where
  pub header : H
  pub twist : Twist D

pub record OdomSmoother (H D : Type 0) : Type 0 where
  pub received_odom : Bool
  pub odom_cumulate : Twist D
  pub vel_smooth : TwistStamped H D
  pub odom_history : List (Odometry H D)  -- the front first

-- What the source uses of <deque>, of the messages and of doubles.
pub record Messages (H D : Type 0) : Type 0 where
  pub doubles : Doubles D
  pub of_nat : ℕ → D
  pub stamp : H → ℕ
  pub no_header : H

abbrev pub back {ℓ} : {A : Type ℓ} → List A → Option A
back [] = none
back (x ∷ []) = some x
back (x ∷ y ∷ xs) = back (y ∷ xs)

-- One operation on all six numbers of two twists, or of one.
abbrev zip_twist : {D : Type 0} → (D → D → D) → Twist D → Twist D → Twist D
zip_twist op a b = record {
  linear = record {
    x = op a.linear.x b.linear.x;
    y = op a.linear.y b.linear.y;
    z = op a.linear.z b.linear.z;
  };
  angular = record {
    x = op a.angular.x b.angular.x;
    y = op a.angular.y b.angular.y;
    z = op a.angular.z b.angular.z;
  };
}

abbrev map_twist : {D : Type 0} → (D → D) → Twist D → Twist D
map_twist op a = zip_twist (λ p q. op p) a a

module _ {H D : Type 0} (messages : Messages H D) (odom_history_duration : ℕ) where
  open messages use {doubles, of_nat, stamp, no_header}

  abbrev pub no_twist : Twist D
  no_twist =
      let none_at : Vector D = record { x = doubles.zero; y = doubles.zero; z = doubles.zero } in
      record { linear = none_at; angular = none_at }

  abbrev pub add_twist : Twist D → Twist D → Twist D
  add_twist = zip_twist doubles.add

  abbrev pub sub_twist : Twist D → Twist D → Twist D
  sub_twist = zip_twist doubles.sub

  abbrev pub mean_twist : Twist D → ℕ → Twist D
  mean_twist sum n = map_twist (λ v. doubles.div v (of_nat n)) sum

  -- The message is older than the duration of the history.
  abbrev pub is_old : ℕ → Odometry H D → Bool
  is_old current_time odom = ltb (stamp odom.header + odom_history_duration) current_time

  -- The loop that takes old messages from the front of the history.
  unfoldable pub drop_old : ℕ → List (Odometry H D) → Twist D → List (Odometry H D) × Twist D
  drop_old current_time [] cumulate = ([], cumulate)
  drop_old current_time (odom ∷ history) cumulate =
      if is_old current_time odom
      then drop_old current_time history (sub_twist cumulate odom.twist)
      else (odom ∷ history, cumulate)

  -- With the last message of the history; `none` is `back()` of an empty one.
  unfoldable pub add_last : Option (Odometry H D) → OdomSmoother H D → Option (OdomSmoother H D)
  add_last none s = none
  add_last (some odom) s =
      let cumulate : Twist D = add_twist s.odom_cumulate odom.twist in
      some (record s {
        odom_cumulate = cumulate;
        vel_smooth = record {
          header = odom.header;
          twist = mean_twist cumulate (length s.odom_history);
        };
      })

  unfoldable pub update_state : OdomSmoother H D → Option (OdomSmoother H D)
  unfolding add_last
  update_state s = add_last (back s.odom_history) s

  unfoldable pub odom_callback : Odometry H D → OdomSmoother H D → Option (OdomSmoother H D)
  odom_callback msg s =
      let (history, cumulate) = drop_old (stamp msg.header) s.odom_history s.odom_cumulate in
      update_state (record s {
        received_odom = true;
        odom_cumulate = cumulate;
        odom_history = history ++ msg ∷ [];
      })

  unfoldable pub get_twist_stamped : OdomSmoother H D → TwistStamped H D
  get_twist_stamped s =
      if s.received_odom then s.vel_smooth else record { header = no_header; twist = no_twist }

  -- `none` is `back()` of an empty history.
  unfoldable pub get_raw_twist_stamped : OdomSmoother H D → Option (TwistStamped H D)
  get_raw_twist_stamped s =
      if s.received_odom
      then elim (back s.odom_history) [
        | none ↦ none
        | some odom ↦ some (record { header = odom.header; twist = odom.twist })
      ]
      else some (record { header = no_header; twist = no_twist })

  -- The smoother as it is built, and after some messages.
  unfoldable pub odom_smoother : OdomSmoother H D
  odom_smoother = record {
    received_odom = false;
    odom_cumulate = no_twist;
    vel_smooth = record { header = no_header; twist = no_twist };
    odom_history = [];
  }

  -- What follows one message; `rest` are the messages to come.
  unfoldable pub receive_rest :
      Option (OdomSmoother H D)
      → (OdomSmoother H D → Option (OdomSmoother H D))
      → Option (OdomSmoother H D)
  receive_rest none rest = none
  receive_rest (some s) rest = rest s

  unfoldable pub receive : List (Odometry H D) → OdomSmoother H D → Option (OdomSmoother H D)
  unfolding receive_rest
  receive [] s = some s
  receive (msg ∷ msgs) s = receive_rest (odom_callback msg s) (receive msgs)
