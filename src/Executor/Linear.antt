-- ===== src/Executor/Linear.antt =====
-- The two motion threads of adapters/go2/go2_bridge.py: `_queue_linear_motion`, `_run_linear_motion`
-- and `_run_patrol_inspection`.
use roc_robot_sdk.Base.{ℕ, zero, suc, ◌+◌, String, Bool, true, false, ltb, if◌then◌else◌, ◌==◌}
use roc_robot_sdk.Executor.{
  action_running, action_done, Trouble, bad_number, out_of_rounds, thread_refused, Task,
  linear_motion, patrol_inspection, set_state, set_error, clear_cancel, is_cancelled, claim_motion,
  release_motion, start_thread, clock, wait_cancel, error,
}
use roc_robot_sdk.Executor.Program.{
  Code, pure, raise, op, ◌>>=◌, ◌>>◌, attempt, finally, on_trouble,
}
use roc_robot_sdk.Executor.Helpers.{attempt_of}
use roc_robot_sdk.Executor.Motion.{
  stop_sport_motion, run_patrol_helper, run_lidar_navigation, run_obstacle_avoid_helper,
}
use roc_robot_sdk.Executor.Settings.{clamp_float, Settings}
use roc_robot_sdk.Py.Float.{Float, ltb_float, units, of_ℕ}
use roc_robot_sdk.Py.Arithmetic.{times, divided, plus, clamp_int, whole}
use roc_robot_sdk.Py.Json.{Json, float, truthy, or_else}
use roc_robot_sdk.Py.Number.{to_float}
use Prim.Native.Nat.{min}
use Prim.Native.String.{◌++◌ as text_append}
use roc_robot_sdk.Failure.{Result, ok, err}

-- `try: self._stop_sport_motion() except Exception: pass`
unfoldable pub stop_quietly : Bool → Code (Unit {0})
unfolding stop_sport_motion attempt
stop_quietly mock = attempt (stop_sport_motion mock) λ _. pure tt

-- The block of `except Exception` of a motion thread.
unfoldable pub report_motion : Settings → String → Trouble → Code (Unit {0})
unfolding stop_quietly ◌>>=◌
report_motion settings what e = do
  cancelled ← op is_cancelled
  if cancelled
      then op (set_state action_done) >> op (set_error "")
      else op (set_state error)
        >> op (set_error (text_append what (settings.describe e)))
        >> stop_quietly settings.mock

unfoldable pub queue_linear_motion : String → Float → Json → Code Bool
unfolding ◌>>=◌
queue_linear_motion action distance seconds = do
  op clear_cancel
  claimed ← op claim_motion
  if claimed
      then (op (start_thread (linear_motion action distance seconds)) >>= λ has_started.
          if has_started then pure true else op release_motion >> raise thread_refused)
      else pure false

-- `while time.monotonic() < mock_deadline and not self._cancel_requested.wait(0.05): pass`. Each
-- round takes 50 ms and the deadline is at most 2 s away, so that the 41st round is the last one at
-- most; what the model does without rounds is an exception of its own.
unfoldable pub mock_wait : ℕ → ℕ → Code (Unit {0})
unfolding ◌>>=◌
mock_wait zero mock_deadline = raise out_of_rounds
mock_wait (suc rounds) mock_deadline =
    let rest = mock_wait rounds mock_deadline in
    op clock >>= λ now.
    if ltb now mock_deadline
    then (op wait_cancel >>= λ cancelled. if cancelled then pure tt else rest)
    else pure tt

-- A number of the JSON value, as `float` makes it.
abbrev pub raised_as : {A : Type 0} → Trouble → Result A → Code A
raised_as e (ok a) = pure a
raised_as e (err why) = raise e

module _ (settings : Settings) where
  unfoldable pub to_number : Json → Code Float
  unfolding to_float
  to_number v = raised_as bad_number (to_float settings.parse_float v)

  abbrev pub speed_of : Float → Float
  speed_of distance =
      if ltb_float (of_ℕ 10) distance then settings.long_move_speed else settings.short_move_speed

  -- The milliseconds of a motion, before they are bounded.
  unfoldable pub milliseconds : Float → Json → Code Float
  unfolding to_number times divided plus truthy ◌>>=◌
  milliseconds distance seconds =
      if truthy seconds
      then (to_number seconds >>= λ s. pure (times s 1000))
      else pure (plus (times (divided distance (speed_of distance)) 1000) 800)

  unfoldable pub duration_ms_of : Float → Json → Code ℕ
  unfolding milliseconds whole clamp_int ◌>>=◌
  duration_ms_of distance seconds = do
    ms ← milliseconds distance seconds
    duration ← attempt_of (whole ms) bad_number
    pure (clamp_int 100 240000 duration)

  unfoldable pub mock_motion : ℕ → Code String
  unfolding mock_wait ◌>>=◌
  mock_motion duration_ms = do
    now ← op clock
    mock_wait 41 (now + min duration_ms 2000)
    pure "mock linear motion"

  unfoldable pub moved : String → Float → ℕ → Code String
  unfolding mock_motion run_lidar_navigation run_obstacle_avoid_helper
  moved action distance duration_ms =
      if settings.mock
      then mock_motion duration_ms
      else if action == "navigate_forward_avoid"
      then run_lidar_navigation settings distance
      else run_obstacle_avoid_helper action (speed_of distance) duration_ms

  -- The block of `try`.
  unfoldable pub linear_body : String → Float → Json → Code (Unit {0})
  unfolding duration_ms_of moved ◌>>=◌
  linear_body action distance seconds = do
    op (set_state action_running)
    op (set_error "")
    cancelled ← op is_cancelled
    if cancelled
        then op (set_state action_done)
        else (duration_ms_of distance seconds >>= λ duration_ms.
            moved action distance duration_ms >> op is_cancelled >>= λ _.
            op (set_state action_done) >> op (set_error ""))

  unfoldable pub run_linear_motion : String → Float → Json → Code (Unit {0})
  unfolding linear_body report_motion finally attempt ◌>>=◌
  run_linear_motion action distance seconds =
      finally
        (attempt (linear_body action distance seconds)
          (on_trouble (report_motion settings "Go2 linear motion failed: ")))
        (op release_motion)

  unfoldable pub patrol_body : Json → Json → Code (Unit {0})
  unfolding to_number or_else clamp_float run_patrol_helper ◌>>=◌
  patrol_body distance turn_seconds = do
    op (set_state action_running)
    op (set_error "")
    op clear_cancel
    metres ← to_number (or_else distance (float (of_ℕ 10)))
    let patrol_distance = clamp_float (units 1 1073) (of_ℕ 20) metres
    turn ← to_number (or_else turn_seconds (float (of_ℕ 9)))
    let patrol_turn_seconds = clamp_float (of_ℕ 1) (of_ℕ 12) turn
    run_patrol_helper patrol_distance patrol_turn_seconds
    op (set_state action_done)

  unfoldable pub run_patrol_inspection : Json → Json → Code (Unit {0})
  unfolding patrol_body report_motion attempt
  run_patrol_inspection distance turn_seconds =
      attempt (patrol_body distance turn_seconds)
        (on_trouble (report_motion settings "Go2 patrol inspection failed: "))

  -- What a thread runs; an exception that leaves it ends it.
  unfoldable pub run_task : Task → Code (Unit {0})
  unfolding run_linear_motion run_patrol_inspection
  run_task (linear_motion action distance seconds) = run_linear_motion action distance seconds
  run_task (patrol_inspection distance turn_seconds) = run_patrol_inspection distance turn_seconds
