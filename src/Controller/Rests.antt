-- ===== src/Controller/Rests.antt =====
-- The rounds of ControllerServer::computeControl that go on (nav3d_controller/src/controller_server.cpp).
use nav2_3d.Prelude.{true, not, Eq, if_rule, ◌≡◌, Option, none, some, arith}
use nav2_3d.ActionServer.{Handles, Server, is_cancel_requested}
use nav2_3d.Controller.{Reals, Settings, Controller, Frames}
use nav2_3d.Controller.Trajectory.{PathCommand, nothing, out_of_range, setpoint, is_goal_reached}
use nav2_3d.Controller.Control.{
  State, Surroundings, Round, finished, continues, broken, preempted, after_command,
  publish_command, command, round,
}

module _ {ℓ} {H D Q : Type 0} {W : Type ℓ} ⦃eh : Eq H⦄ (handles : Handles H W) (reals : Reals D)
    (frames : Frames D Q) (settings : Settings D) (around : Surroundings H D Q W) where
  open around use {path_of, now, get_current_pose, publish, ok, sleep}

  -- A round that goes on has slept.
  abbrev pub Rests : (State H D Q W → Type 0) → Round H D Q W → Type 0
  Rests P (finished code s) = Unit
  Rests P (continues s) = P s
  Rests P broken = Unit

  module _ (P : State H D Q W → Type 0) where
    abbrev pub Wakes : Type ℓ
    Wakes =
        (server : Server H) (w : W) (c : Controller D Q)
        → P (record { server = (sleep server w).0; world = (sleep server w).1; controller = c })

    after_command-Rests :
        Wakes → (s : State H D Q W) → Rests P (after_command handles reals frames settings around s)
    unfolding after_command
    after_command-Rests wakes s =
        if_rule (Rests P)
          (is_goal_reached reals frames settings (get_current_pose s.world) s.controller) (λ _. tt)
          (λ _. wakes s.server s.world s.controller)

    publish_command-Rests :
        Wakes
        → (r : Option (PathCommand reals frames settings × Controller D Q)) (s : State H D Q W)
        → Rests P (publish_command handles reals frames settings around r s)
    unfolding publish_command
    publish_command-Rests wakes none s = tt
    publish_command-Rests wakes (some (nothing, c)) s =
        after_command-Rests wakes (record s { controller = c })
    publish_command-Rests wakes (some (out_of_range, c)) s = tt
    publish_command-Rests wakes (some (setpoint out, c)) s =
        after_command-Rests wakes (record s { controller = c; world = publish out s.world })

    command-Rests :
        Wakes → (r : Round H D Q W) → Rests P (command handles reals frames settings around r)
    unfolding command
    command-Rests wakes (finished code s) = tt
    command-Rests wakes broken = tt
    command-Rests wakes (continues s) = publish_command-Rests wakes _ s

    pub round-Rests :
        (s : State H D Q W)
        → (ok s.world ≡ true → Wakes)
        → Rests P (round handles reals frames settings around s)
    unfolding round
    round-Rests s wakes =
        if_rule (Rests P) (not (ok s.world)) (λ _. tt)
          (λ up.
            if_rule (Rests P) (not s.server.server_active) (λ _. tt)
              (λ _.
                if_rule (Rests P) (is_cancel_requested handles s.server s.world) (λ _. tt)
                  (λ _.
                    command-Rests (wakes (ground arith))
                      (preempted handles reals frames settings around s))))
