-- ===== src/Executor/Performed.antt =====
-- `execute_action` and `status` of adapters/go2/go2_bridge.py under the rules of Executor/Rules.antt.
use roc_robot_sdk.Base.{
  ◌⊎◌, inl, Option, none, some, inr, ℕ, ◌*◌, ◌^◌, ◌≤◌, String, ◌≡◌, refl, Bool, true, false, arith,
  if◌then◌else◌, ◌==◌,
}
use roc_robot_sdk.Base.Int.{pos}
use roc_robot_sdk.Py.Json.{
  lookup, get_or, get, null, bool, int, str, arr, obj, float, Dict, or_else, Json, truthy,
}
use roc_robot_sdk.Executor.Rules.{
  IsServing, Quiet-attempt, Stage, IsDistance, Obeys, OnReturn, Quiet, Any, Quiet-pure, Quiet-raise,
  Quiet-if, Quiet-op, Quiet-bind, Quiet-then,
}
use roc_robot_sdk.Executor.{
  bad_payload, sdk_action, tiny_move, obstacle_avoid, lidar_nav, camera_probe, is_file, read_state,
  read_sdk, action_running, no_executor, motion_is_active, action_done, Trouble, bad_number,
  bad_sleep, thread_refused, patrol_inspection, set_state, set_error, set_cancel, start_thread,
  sleep, read_error, error,
}
use roc_robot_sdk.Executor.Program.{raise, pure, Attempt, returned, raised}
use roc_robot_sdk.Executor.Actions.{
  dispatched, supported, normalized_of, reply, action_key, execute_action, is_named, patrol_action,
  immediate_action, robot_action, or_report, supported_action, is_linear, nap, distance_of,
  linear_action, start_patrol, mock_action, turn_of, report_action, status,
}
use roc_robot_sdk.Executor.Settings.{d_0_80, Settings}
use roc_robot_sdk.Executor.Quiet.{
  run_named_action-Quiet, run_tiny_motion-Quiet, stop_sport_motion-Quiet, attempt_of-Quiet,
}
use roc_robot_sdk.Py.Float.{of_ℕ, Float}
use roc_robot_sdk.Executor.Bounds.{clamp_float-IsBetween, clamp_int-le}
use roc_robot_sdk.Executor.Threads.{stop_quietly-Quiet, to_number-Quiet, queue_linear_motion-Quiet}
use roc_robot_sdk.Py.Arithmetic.{times, whole}
use roc_robot_sdk.Go2.Commands.{IsBetween}
use roc_robot_sdk.Py.Text.{PyText, upper}

-- The limits of a turn.
abbrev IsTurn : Float × ℕ → Type 0
IsTurn (rate, duration_ms) =
    IsBetween (7205759403792794 * 2 ^ 1018) (7205759403792794 * 2 ^ 1021) rate
    × (100 ≤ duration_ms)
    × (duration_ms ≤ 12000)

-- The codes of a response, and the status of the HTTP response that has it.
abbrev IsCode : ℕ → Type 0
IsCode code = (code ≡ 200) ⊎ ((code ≡ 400) ⊎ ((code ≡ 409) ⊎ (code ≡ 500)))

pub record IsReply (d : Dict) : Type 0 where
  pub code : ℕ
  pub is_code : IsCode code
  pub found : get "code" d ≡ int (pos code)

Quiet-reply :
    {m : Stage} (code : ℕ) (message : String) (rest : Dict)
    → IsCode code
    → Quiet IsReply m (pure (reply code message rest))
unfolding get get_or lookup
Quiet-reply code message rest h = Quiet-pure _ (record { code = code; is_code = h; found = refl })

module _ {m : Stage} where
  nap-Quiet : (seconds : Float) → Quiet Any m (nap seconds)
  unfolding nap Obeys
  nap-Quiet seconds = Quiet-if _ _ _ (Quiet-op (sleep seconds) tt λ a. refl) (Quiet-raise bad_sleep)

  start_patrol-Quiet :
      (settings : Settings) (meters seconds : Json)
      → IsServing m
      → Quiet Any m (start_patrol settings meters seconds)
  unfolding start_patrol
  start_patrol-Quiet settings meters seconds h =
      Quiet-then _ _ (Quiet-op (start_thread (patrol_inspection _ _)) h.starter λ a. refl)
        λ has_started. Quiet-if has_started _ _ (Quiet-pure tt tt) (Quiet-raise thread_refused)

  module _ (settings : Settings) where
    distance_of-Quiet : (meters : Json) → Quiet IsDistance m (distance_of settings meters)
    unfolding distance_of
    distance_of-Quiet meters =
        Quiet-then _ _ (to_number-Quiet settings (or_else meters (float (of_ℕ 1))))
          λ m. Quiet-pure _ (clamp_float-IsBetween _ _ m (omega arith))

    linear_action-Quiet :
        (message normalized : String) (meters seconds : Json)
        → IsServing m
        → Quiet IsReply m (linear_action settings message normalized meters seconds)
    unfolding linear_action
    linear_action-Quiet message normalized meters seconds h =
        Quiet-bind _ _ (distance_of-Quiet meters) λ distance d.
          Quiet-then _ _ (queue_linear_motion-Quiet normalized distance seconds d h) λ queued.
            Quiet-if queued _ _ (Quiet-reply 200 _ _ (inl refl))
              (Quiet-reply 409 _ _ (inr (inr (inl refl))))

    report_action-Quiet : (e : Trouble) → Quiet IsReply m (report_action settings e)
    unfolding report_action
    report_action-Quiet e = Quiet-then _ _ (Quiet-op (set_state error) tt λ a. refl) λ a.
        Quiet-then _ _ (Quiet-op (set_error _) tt λ a. refl) λ a.
          Quiet-then _ _ (stop_quietly-Quiet settings.mock) λ a.
            Quiet-then _ _ (Quiet-op read_error tt λ a. refl)
              λ message. Quiet-reply 500 _ _ (inr (inr (inr refl)))

    mock_action-Quiet :
        (normalized : String) (meters seconds : Json)
        → IsServing m
        → Quiet IsReply m (mock_action settings normalized meters seconds)
    unfolding mock_action
    mock_action-Quiet normalized meters seconds h =
        Quiet-if (normalized == "stop") _ _
          (Quiet-then _ _
            (Quiet-then _ _ (Quiet-op set_cancel tt λ a. refl)
              λ a. Quiet-op (set_state action_done) tt λ a. refl)
            λ a. Quiet-reply 200 _ _ (inl refl))
          (Quiet-if (is_linear normalized) _ _ (linear_action-Quiet _ normalized meters seconds h) (
            Quiet-if (normalized == "patrol_inspection") _ _
              (Quiet-then _ _ (start_patrol-Quiet settings meters seconds h)
                λ a. Quiet-reply 200 _ _ (inl refl))
              (Quiet-then _ _ (to_number-Quiet settings (or_else seconds (float (of_ℕ 2)))) λ s.
                Quiet-then _ _
                  (Quiet-then _ _ (nap-Quiet s) λ a. Quiet-op (set_state action_done) tt λ a. refl)
                  λ a. Quiet-reply 200 _ _ (inl refl))))

    turn_of-Quiet : (seconds yaw_rate : Json) → Quiet IsTurn m (turn_of settings seconds yaw_rate)
    unfolding turn_of
    turn_of-Quiet seconds yaw_rate =
        Quiet-then _ _ (to_number-Quiet settings (or_else yaw_rate (float d_0_80))) λ rate.
          Quiet-then _ _
            (Quiet-if (truthy seconds) _ _
              (Quiet-then _ _ (to_number-Quiet settings seconds)
                λ s. attempt_of-Quiet (whole (times s 1000)) bad_number)
              (Quiet-pure _ tt))
            λ duration. Quiet-pure _ (
              clamp_float-IsBetween _ _ rate (omega arith),
              (clamp_int-le 100 12000 duration (omega arith)).0,
              (clamp_int-le 100 12000 duration (omega arith)).1,
            )

    patrol_action-Quiet :
        (normalized : String) (meters seconds : Json)
        → IsServing m
        → Quiet IsReply m (patrol_action settings normalized meters seconds)
    unfolding patrol_action
    patrol_action-Quiet normalized meters seconds h =
        Quiet-then _ _ (Quiet-op motion_is_active tt λ a. refl) λ active.
          Quiet-if active _ _
            (Quiet-then _ _ (Quiet-op (set_state action_running) tt λ a. refl)
              λ a. Quiet-reply 409 _ _ (inr (inr (inl refl))))
            (Quiet-then _ _ (start_patrol-Quiet settings meters seconds h)
              λ a. Quiet-reply 200 _ _ (inl refl))

    immediate_action-Quiet :
        (normalized : String) (seconds yaw_rate : Json)
        → Quiet Any m (immediate_action settings normalized seconds yaw_rate)
    unfolding immediate_action
    immediate_action-Quiet normalized seconds yaw_rate =
        Quiet-if (normalized == "stop") _ _ (stop_sport_motion-Quiet settings.mock) (
          Quiet-if (normalized == "turn_around") _ _
            (Quiet-bind _ _ (turn_of-Quiet seconds yaw_rate) λ turn lim.
              Quiet-then _ _
                (run_tiny_motion-Quiet _ _ turn.0 turn.1 λ helper. (refl, refl, inr lim))
                λ output. Quiet-pure _ tt)
            (Quiet-if (is_named normalized) _ _
              (Quiet-then _ _ (run_named_action-Quiet normalized) λ output. Quiet-pure _ tt)
              (Quiet-raise no_executor)))

    robot_action-Quiet :
        (normalized : String) (meters seconds yaw_rate : Json)
        → IsServing m
        → Quiet IsReply m (robot_action settings normalized meters seconds yaw_rate)
    unfolding robot_action
    robot_action-Quiet normalized meters seconds yaw_rate h =
        Quiet-if (normalized == "patrol_inspection") _ _
          (patrol_action-Quiet normalized meters seconds h)
          (Quiet-if (is_linear normalized) _ _ (linear_action-Quiet _ normalized meters seconds h) (
            Quiet-then _ _ (immediate_action-Quiet normalized seconds yaw_rate) λ output.
              Quiet-then _ _ (Quiet-op (set_state action_done) tt λ a. refl)
                λ a. Quiet-reply 200 _ _ (inl refl)))

    or_report-Quiet :
        (r : Attempt Dict) → OnReturn IsReply r → Quiet IsReply m (or_report settings r)
    or_report-Quiet (returned d) h = Quiet-pure d h
    or_report-Quiet (raised e) h = report_action-Quiet e

    supported_action-Quiet :
        (normalized : String) (meters seconds yaw_rate : Json)
        → IsServing m
        → Quiet IsReply m (supported_action settings normalized meters seconds yaw_rate)
    unfolding supported_action
    supported_action-Quiet normalized meters seconds yaw_rate h =
        Quiet-then _ _ (Quiet-op (set_state action_running) tt λ a. refl) λ a.
          Quiet-then _ _ (Quiet-op (set_error "") tt λ a. refl) λ a.
            Quiet-attempt _ _
              (Quiet-if settings.mock _ _ (mock_action-Quiet normalized meters seconds h)
                (robot_action-Quiet normalized meters seconds yaw_rate h))
              λ r x. or_report-Quiet r x

    pub status-Quiet : Quiet Any m (status settings)
    unfolding status
    status-Quiet = Quiet-then _ _ (Quiet-op read_state tt λ a. refl) λ state.
        Quiet-then _ _ (Quiet-op read_sdk tt λ a. refl) λ sdk2.
          Quiet-then _ _ (Quiet-op (is_file sdk_action) tt λ a. refl) λ first.
            Quiet-then _ _
              (Quiet-if first _ _ (Quiet-pure true tt) (Quiet-op (is_file tiny_move) tt λ a. refl))
              λ ready. Quiet-then _ _ (Quiet-op motion_is_active tt λ a. refl) λ active.
                Quiet-then _ _ (Quiet-op (is_file obstacle_avoid) tt λ a. refl) λ obstacle.
                  Quiet-then _ _ (Quiet-op (is_file lidar_nav) tt λ a. refl) λ lidar.
                    Quiet-then _ _ (Quiet-op (is_file camera_probe) tt λ a. refl) λ camera.
                      Quiet-then _ _ (Quiet-op read_error tt λ a. refl) λ message. Quiet-pure _ tt

    module _ ⦃t : PyText⦄ where
      unnamed-Quiet : (b : Bool) → Quiet Any m (if b then raise bad_payload else pure (upper ""))
      unnamed-Quiet true = Quiet-raise bad_payload
      unnamed-Quiet false = Quiet-pure (upper "") tt

      action_key-Quiet : (action : Json) → Quiet Any m (action_key settings action)
      unfolding action_key
      action_key-Quiet (str action) = Quiet-pure _ tt
      action_key-Quiet null = unnamed-Quiet (truthy null)
      action_key-Quiet (bool b) = unnamed-Quiet (truthy (bool b))
      action_key-Quiet (int k) = unnamed-Quiet (truthy (int k))
      action_key-Quiet (float f) = unnamed-Quiet (truthy (float f))
      action_key-Quiet (arr xs) = unnamed-Quiet (truthy (arr xs))
      action_key-Quiet (obj d) = unnamed-Quiet (truthy (obj d))

      dispatched-Quiet :
          (action meters seconds yaw_rate : Json) (name : Option String)
          → IsServing m
          → Quiet IsReply m (dispatched settings action meters seconds yaw_rate name)
      unfolding dispatched
      dispatched-Quiet action meters seconds yaw_rate none h = Quiet-reply 400 _ _ (inr (inl refl))
      dispatched-Quiet action meters seconds yaw_rate (some normalized) h =
          supported_action-Quiet normalized meters seconds yaw_rate h

      -- At the stage of a request's thread and whatever other threads do, `execute_action` returns a
      -- dictionary with one of the codes 200, 400, 409 and 500, or raises; it keeps no claim on
      -- linear motions, sends no response itself, and starts only commands within the limits.
      pub execute_action-Quiet :
          (action meters seconds yaw_rate : Json)
          → IsServing m
          → Quiet IsReply m (execute_action settings action meters seconds yaw_rate)
      unfolding execute_action
      execute_action-Quiet action meters seconds yaw_rate h =
          Quiet-then _ _ (action_key-Quiet action)
            λ key. dispatched-Quiet action meters seconds yaw_rate (normalized_of supported key) h
