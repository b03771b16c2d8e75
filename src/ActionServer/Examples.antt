-- ===== src/ActionServer/Examples.antt =====
-- The action server on concrete handles.
use nav2_3d.Prelude.{
  ℕ, ◌≡◌, ◌≢◌, Bool, true, false, none, Eq, ◌==◌, ==_iff, if◌then◌else◌, arith, List, [], ◌∷◌, All,
}
use nav2_3d.ActionServer.{Handles, Server}
use nav2_3d.ActionServer.Worker.{stop_all}
use nav2_3d.ActionServer.Orphans.{AreHandles, Kept}
use nav2_3d.ActionServer.Events.{Event, goal_enters, activates, deactivates, turn_ended, run}
use nav2_3d.ActionServer.Held.{run-Kept}
use nav2_3d.ActionServer.Stopped.{stop_all-Ended}

instance numbers : Eq ℕ
numbers = record { beq = ◌==◌; beq_iff = ==_iff }

abbrev ended : ℕ → (ℕ → Bool) → ℕ → Bool
ended h w x = if x == h then false else w x

-- The world tells which handles are active; the client of handle 2 asks to cancel.
abbrev numbered : Handles ℕ (ℕ → Bool)
numbered = record {
  is_active = λ h w. w h;
  is_canceling = λ h w. h == 2;
  abort = ended;
  canceled = ended;
  succeed = ended;
  publish_feedback = λ h w. w;
  complete = λ w. w;
}

numbered-AreHandles : AreHandles numbered
numbered-AreHandles = record {
  abort_ends = λ h w. ground arith;
  canceled_ends = λ h w. ground arith;
  succeed_ends = λ h w. ground arith;
  abort_quiet = λ h x w live. ground arith;
  canceled_quiet = λ h x w live. ground arith;
  succeed_quiet = λ h x w live. ground arith;
  send_quiet = λ h x w live. live;
  complete_quiet = λ x w live. live;
}

abbrev created : Server ℕ
created = record {
  server_active = false;
  stop_execution = false;
  preempt_requested = false;
  current_handle = none;
  pending_handle = none;
  running = false;
}

abbrev nothing_active : ℕ → Bool
nothing_active x = false

abbrev enters_as : ℕ → (ℕ → Bool) → ℕ → Bool
enters_as h w x = if x == h then true else w x

enters_quietly : (h x : ℕ) (w : ℕ → Bool) → x ≢ h → enters_as h w x ≡ true → w x ≡ true
enters_quietly h x w differs live = ground arith

abbrev enter : ℕ → Event numbered
enter h = goal_enters h (enters_as h) (enters_quietly h)

-- A goal is executed, a second one preempts it, a third one is left pending when the server is
-- deactivated.
abbrev history : List (Event numbered)
history = activates ∷ enter 1 ∷ enter 2 ∷ turn_ended ∷ enter 3 ∷ deactivates ∷ []

run-Kept_example :
    let r = run numbered history created nothing_active in
    All (Kept numbered r.0 r.1) (3 ∷ 2 ∷ 1 ∷ [])
run-Kept_example = run-Kept numbered numbered-AreHandles history created nothing_active [] tt

stop_all-Ended_example :
    let r = run numbered history created nothing_active in
    All (λ h. (stop_all numbered r.0 r.1).1 h ≡ false) (3 ∷ 2 ∷ 1 ∷ [])
stop_all-Ended_example =
    stop_all-Ended numbered numbered-AreHandles history created nothing_active [] tt
