-- ===== src/Executor/Quiet.antt =====
-- The helper programs and motions of adapters/go2/go2_bridge.py under the rules of
-- Executor/Rules.antt.
use roc_robot_sdk.Base.{
  ◌*◌, ◌^◌, ◌≤◌, ◌≡◌, ◌⊎◌, inr, true, false, if◌then◌else◌, ◌==◌, ℕ, inl, Bool, String, refl,
  Option, none, some,
}
use roc_robot_sdk.Executor.{
  obstacle_avoid, lidar_nav, is_file, Command, tiny_motion, patrol, os_error, set_cancel,
  active_motion, launch, Helper, Outcome, exited, timed_out, broken, Trouble,
}
use roc_robot_sdk.Executor.Motion.{
  end_process, lidar_timeout, run_lidar_navigation, run_obstacle_avoid_helper, output_of, started,
  run_tiny_motion, terminate_active_motion, stop_sport_motion, run_patrol_helper,
}
use roc_robot_sdk.Executor.Settings.{Settings}
use roc_robot_sdk.Executor.Rules.{
  IsDistance, IsLimited, IsAllowed, Obeys, Stage, Quiet, Any, Quiet-pure, Quiet-raise, Quiet-if,
  Quiet-op, Quiet-finally, Quiet-then,
}
use roc_robot_sdk.Executor.Bounds.{IsSafe}
use roc_robot_sdk.Py.Arithmetic.{negated}
use roc_robot_sdk.Executor.Helpers.{
  killed, expired, stopped, waited, attempt_of, finished, action_helper, run_once, preflight,
  retried, run_named_action,
}
use roc_robot_sdk.Py.Float.{Float}
use roc_robot_sdk.Py.Json.{null}
use roc_robot_sdk.Base.Int.{ℤ}
use roc_robot_sdk.Go2.Commands.{IsBetween}

ruleset quiet = (Quiet-then, Quiet-if, Quiet-pure, Quiet-raise, Quiet-op, Quiet-finally, refl, tt)

module _ {m : Stage} where
  finished-Quiet : (outcome : Outcome) → Quiet Any m (finished outcome)
  finished-Quiet (exited returncode output) = search quiet
  finished-Quiet timed_out = search quiet
  finished-Quiet broken = search quiet

  pub attempt_of-Quiet : {A : Type 0} (o : Option A) (e : Trouble) → Quiet Any m (attempt_of o e)
  attempt_of-Quiet none e = search quiet
  attempt_of-Quiet (some a) e = search quiet

  action_helper-Quiet : Quiet Any m action_helper
  unfolding action_helper Obeys
  action_helper-Quiet = search quiet

  run_once-Quiet : (helper : Helper) (action : String) → Quiet Any m (run_once helper action)
  unfolding run_once Obeys
  run_once-Quiet helper action = search (quiet, finished-Quiet)

  preflight-Quiet : (helper : Helper) → Quiet Any m (preflight helper)
  unfolding preflight Obeys
  preflight-Quiet helper = search (quiet, run_once-Quiet)

  retried-Quiet :
      (helper : Helper) (action : String) (result : ℤ × String)
      → Quiet Any m (retried helper action result)
  unfolding retried Obeys
  retried-Quiet helper action result = search (quiet, run_once-Quiet)

  pub run_named_action-Quiet : (action : String) → Quiet Any m (run_named_action action)
  unfolding run_named_action Obeys
  run_named_action-Quiet action =
      search (quiet, action_helper-Quiet, run_once-Quiet, preflight-Quiet, retried-Quiet) depth 12

  killed-Quiet :
      (helper : Helper) (p : ℕ) (outcome : Outcome) → Quiet Any m (killed helper p outcome)
  unfolding Obeys
  killed-Quiet helper p (exited returncode output) = search quiet
  killed-Quiet helper p timed_out = search (quiet, finished-Quiet) depth 12
  killed-Quiet helper p broken = search quiet

  expired-Quiet :
      (helper : Helper) (p grace : ℕ) (outcome : Outcome)
      → Quiet Any m (expired helper p grace outcome)
  unfolding Obeys
  expired-Quiet helper p grace (exited returncode output) = search quiet
  expired-Quiet helper p grace timed_out = search (quiet, killed-Quiet) depth 12
  expired-Quiet helper p grace broken = search quiet

  stopped-Quiet :
      (helper : Helper) (p : ℕ) (outcome : Outcome) → Quiet Any m (stopped helper p outcome)
  unfolding Obeys
  stopped-Quiet helper p (exited returncode output) = search quiet
  stopped-Quiet helper p timed_out = search (quiet, finished-Quiet) depth 12
  stopped-Quiet helper p broken = search quiet

  waited-Quiet : (p : ℕ) (outcome : Outcome) → Quiet Any m (waited p outcome)
  unfolding Obeys
  waited-Quiet p (exited returncode output) = search quiet
  waited-Quiet p timed_out = search (quiet, finished-Quiet) depth 12
  waited-Quiet p broken = search quiet

  output_of-Quiet : (helper : Helper) (result : ℤ × String) → Quiet Any m (output_of helper result)
  output_of-Quiet helper result = search quiet

  -- A process starts within the limits, and for a linear motion only under the claim.
  started-Quiet : (c : Command) → IsAllowed m (launch c) → Quiet Any m (started c)
  unfolding started Obeys
  started-Quiet c h =
      Quiet-then _ _ (Quiet-op (launch c) h λ a. refl) λ a. attempt_of-Quiet a os_error

  pub run_tiny_motion-Quiet :
      (vx vy vyaw : Float) (duration_ms : ℕ)
      → ((helper : Helper) → IsLimited (tiny_motion helper vx vy vyaw duration_ms))
      → Quiet Any m (run_tiny_motion vx vy vyaw duration_ms)
  unfolding run_tiny_motion Obeys
  run_tiny_motion-Quiet vx vy vyaw duration_ms h = Quiet-then _ _ action_helper-Quiet λ helper.
      Quiet-then _ _ (started-Quiet _ (h helper, λ p. cc))
        λ process. search (quiet, expired-Quiet, output_of-Quiet) depth 14

  end_process-Quiet : (active : Option ℕ) → Quiet Any m (end_process active)
  unfolding Obeys
  end_process-Quiet none = search quiet
  end_process-Quiet (some process) = search (quiet, waited-Quiet) depth 14

  terminate_active_motion-Quiet : Quiet Any m terminate_active_motion
  unfolding terminate_active_motion
  terminate_active_motion-Quiet =
      Quiet-then _ _ (Quiet-op active_motion tt λ a. refl) end_process-Quiet

  pub stop_sport_motion-Quiet : (mock : Bool) → Quiet Any m (stop_sport_motion mock)
  unfolding stop_sport_motion Obeys
  stop_sport_motion-Quiet mock = Quiet-if mock _ _ (Quiet-pure null tt) (
      Quiet-then _ _
        (Quiet-then _ _ (Quiet-op set_cancel tt λ a. refl) λ a. terminate_active_motion-Quiet)
        λ a.
          Quiet-then _ _ (run_tiny_motion-Quiet _ _ _ 0 λ helper. (refl, refl, inl (refl, refl)))
            λ output. Quiet-pure _ tt)

  pub run_patrol_helper-Quiet :
      (distance turn_seconds : Float)
      → ((helper : Helper) → IsLimited (patrol helper distance turn_seconds))
      → Quiet Any m (run_patrol_helper distance turn_seconds)
  unfolding run_patrol_helper Obeys
  run_patrol_helper-Quiet distance turn_seconds h = Quiet-then _ _ action_helper-Quiet λ helper.
      Quiet-then _ _ (started-Quiet _ (h helper, λ p. cc))
        λ process. search (quiet, expired-Quiet, output_of-Quiet) depth 14

  module _ (settings : Settings) where
    lidar_timeout-Quiet : (distance : Float) → Quiet Any m (lidar_timeout settings distance)
    unfolding lidar_timeout Obeys
    lidar_timeout-Quiet distance = search (quiet, attempt_of-Quiet)

    -- The thread that navigates holds the claim.
    pub run_lidar_navigation-Quiet :
        (distance : Float)
        → IsSafe settings
        → IsDistance distance
        → m.holds ≡ true
        → Quiet Any m (run_lidar_navigation settings distance)
    unfolding run_lidar_navigation Obeys
    run_lidar_navigation-Quiet distance safe d h =
        Quiet-then _ _ (Quiet-op (is_file lidar_nav) tt λ a. refl) λ there.
          Quiet-then _ _ (Quiet-if there _ _ (Quiet-pure tt tt) (Quiet-raise _)) λ a.
            Quiet-then _ _ (started-Quiet _ ((d, safe.lidar_nav, safe.attempts), λ p. h)) λ process.
              search (quiet, lidar_timeout-Quiet, expired-Quiet, output_of-Quiet) depth 14

    pub run_obstacle_avoid_helper-Quiet :
        (action : String) (speed : Float) (duration_ms : ℕ)
        → IsBetween (5404319552844595 * 2 ^ 1019) (7205759403792794 * 2 ^ 1021) speed
        → (100 ≤ duration_ms) × (duration_ms ≤ 240000)
        → m.holds ≡ true
        → Quiet Any m (run_obstacle_avoid_helper action speed duration_ms)
    unfolding run_obstacle_avoid_helper Obeys
    run_obstacle_avoid_helper-Quiet action speed duration_ms s d h =
        Quiet-then _ _ (Quiet-op (is_file obstacle_avoid) tt λ a. refl) λ there.
          Quiet-then _ _ (Quiet-if there _ _ (Quiet-pure tt tt) (Quiet-raise _)) λ a.
            Quiet-then _ _
              (started-Quiet _ ((speed, s, one_way (action == "move_forward"), d.0, d.1), λ p. h))
              λ process. search (quiet, stopped-Quiet, output_of-Quiet) depth 14
      where
        one_way :
            (b : Bool)
            → ((if b then speed else negated speed) ≡ speed)
              ⊎ ((if b then speed else negated speed) ≡ negated speed)
        one_way true = inl refl
        one_way false = inr refl
