-- ===== src/Executor/Actions.antt =====
-- `execute_action` and `status` of adapters/go2/go2_bridge.py.
use roc_robot_sdk.Base.{
  ℕ, ◌*◌, ◌/◌, ◌^◌, String, Bool, true, not, ◌&&◌, ◌||◌, Option, none, some, List, [], ◌∷◌,
  if◌then◌else◌, ◌==◌, strip,
}
use roc_robot_sdk.Executor.{
  Phase, idle, action_running, action_done, sdk_action, tiny_move, obstacle_avoid, lidar_nav,
  camera_probe, Trouble, no_executor, bad_number, bad_sleep, bad_payload, thread_refused,
  patrol_inspection, set_state, set_error, set_cancel, motion_is_active, start_thread, is_file,
  sleep, read_state, read_error, read_sdk, error,
}
use roc_robot_sdk.Executor.Program.{
  Attempt, returned, raised, Code, pure, raise, op, ◌>>=◌, ◌>>◌, attempt,
}
use roc_robot_sdk.Executor.Helpers.{attempt_of, needs_stand, run_named_action}
use roc_robot_sdk.Executor.Motion.{run_tiny_motion, stop_sport_motion}
use roc_robot_sdk.Executor.Linear.{stop_quietly, queue_linear_motion, to_number}
use roc_robot_sdk.Executor.Settings.{clamp_float, Settings, d_0_10, d_0_80}
use roc_robot_sdk.Py.Float.{Float, fin, ltb_float, of_ℕ}
use roc_robot_sdk.Py.Arithmetic.{times, clamp_int, whole}
use roc_robot_sdk.Base.Int.{pos}
use roc_robot_sdk.Py.Json.{
  Json, null, bool, int, float, str, obj, Dict, end, field, truthy, or_else,
}
use Prim.Native.String.{◌++◌ as text_append}
use roc_robot_sdk.Py.Text.{PyText, upper, to_text}

-- The names of the actions.
abbrev pub supported : List (String × String)
supported =
    ("DANCE", "dance1")
    ∷ ("DANCE_1", "dance1")
    ∷ ("DANCE1", "dance1")
    ∷ ("DANCE_2", "dance2")
    ∷ ("DANCE2", "dance2")
    ∷ ("MOVE_FORWARD", "move_forward")
    ∷ ("FORWARD", "move_forward")
    ∷ ("NAVIGATE_FORWARD_AVOID", "navigate_forward_avoid")
    ∷ ("MOVE_FORWARD_AVOID", "navigate_forward_avoid")
    ∷ ("SMART_FORWARD", "navigate_forward_avoid")
    ∷ ("MOVE_BACKWARD", "move_backward")
    ∷ ("BACKWARD", "move_backward")
    ∷ ("TURN_AROUND", "turn_around")
    ∷ ("STOP", "stop")
    ∷ ("DAMP", "stop")
    ∷ ("STAND_UP", "stand_up")
    ∷ ("STAND", "stand_up")
    ∷ ("HEART", "heart")
    ∷ ("LOVE", "heart")
    ∷ ("PATROL_INSPECTION", "patrol_inspection")
    ∷ ("INSPECTION_PATROL", "patrol_inspection")
    ∷ []

unfoldable pub normalized_of : List (String × String) → String → Option String
normalized_of [] key = none
normalized_of ((name, normalized) ∷ names) key =
    if name == key then some normalized else normalized_of names key

-- A response's dictionary.
abbrev pub reply : ℕ → String → Dict → Dict
reply code message rest = field "code" (int (pos code)) (field "message" (str message) rest)

abbrev pub with_data : Dict → Dict
with_data data_fields = field "data" (obj data_fields) end

abbrev pub action_field : String → Dict → Dict
action_field normalized rest = field "action" (str normalized) rest

abbrev pub busy : Dict
busy = reply 409 "A Go2 motion action is already running" end

abbrev pub is_linear : String → Bool
is_linear action =
    action == "move_forward" || (action == "move_backward" || action == "navigate_forward_avoid")

abbrev pub is_named : String → Bool
is_named action = action == "stand_up" || needs_stand action

-- `time.sleep`, which raises for a negative, a too large or no number.
unfoldable pub nap : Float → Code (Unit {0})
nap seconds =
    if not (ltb_float seconds (of_ℕ 0))
      && ltb_float seconds (fin (pos (2 ^ 63 * 2 ^ 1074 / 10 ^ 9)))
    then op (sleep seconds)
    else raise bad_sleep

module _ (settings : Settings) where
  -- The distance of a linear motion.
  unfoldable pub distance_of : Json → Code Float
  unfolding to_number or_else clamp_float ◌>>=◌
  distance_of meters = to_number settings (or_else meters (float (of_ℕ 1))) >>= λ m.
      pure (clamp_float d_0_10 (of_ℕ 60) m)

  unfoldable pub linear_action : String → String → Json → Json → Code Dict
  unfolding distance_of queue_linear_motion ◌>>=◌
  linear_action message normalized meters seconds = do
    distance ← distance_of meters
    queued ← queue_linear_motion normalized distance seconds
    if queued
        then pure (
            reply 200 message
              (with_data (action_field normalized (field "meters" (float distance) end))))
        else pure busy

  -- A patrol's thread, with its arguments.
  unfoldable pub start_patrol : Json → Json → Code (Unit {0})
  unfolding or_else ◌>>=◌
  start_patrol meters seconds =
      op (
        start_thread
          (patrol_inspection (or_else meters (float (of_ℕ 10))) (or_else seconds (float (of_ℕ 9)))))
      >>= λ has_started. if has_started then pure tt else raise thread_refused

  unfoldable pub mock_action : String → Json → Json → Code Dict
  unfolding linear_action start_patrol nap to_number or_else ◌>>=◌
  mock_action normalized meters seconds =
      if normalized == "stop"
      then op set_cancel
        >> op (set_state action_done)
        >> pure (reply 200 "Mock motion stopped" (with_data (action_field normalized end)))
      else if is_linear normalized
      then linear_action "Mock linear motion started" normalized meters seconds
      else if normalized == "patrol_inspection"
      then start_patrol meters seconds
        >> pure
            (reply 200 "Mock patrol inspection started" (with_data (action_field normalized end)))
      else (to_number settings (or_else seconds (float (of_ℕ 2))) >>= λ s.
          nap s
          >> op (set_state action_done)
          >> pure (
              reply 200 (text_append "Mock action " (text_append normalized " finished"))
                (with_data (action_field normalized end))))

  -- The rate and the duration of a turn.
  unfoldable pub turn_of : Json → Json → Code (Float × ℕ)
  unfolding to_number or_else clamp_float times whole truthy clamp_int ◌>>=◌
  turn_of seconds yaw_rate = do
    rate ← to_number settings (or_else yaw_rate (float d_0_80))
    duration ←
        if truthy seconds
        then (to_number settings seconds >>= λ s. attempt_of (whole (times s 1000)) bad_number)
        else pure (pos 4000)
    pure (clamp_float d_0_10 d_0_80 rate, clamp_int 100 12000 duration)

  unfoldable pub patrol_action : String → Json → Json → Code Dict
  unfolding start_patrol or_else ◌>>=◌
  patrol_action normalized meters seconds = do
    active ← op motion_is_active
    if active
        then op (set_state action_running) >> pure busy
        else start_patrol meters seconds
          >> pure (
              reply 200 "Go2 patrol inspection started" (
                with_data (
                  action_field normalized (
                    field "meters" (or_else meters (float (of_ℕ 10)))
                      (field "turnSeconds" (or_else seconds (float (of_ℕ 9))) end)))))

  -- The actions that end before the response, with their output.
  unfoldable pub immediate_action : String → Json → Json → Code Json
  unfolding stop_sport_motion turn_of run_tiny_motion run_named_action ◌>>=◌
  immediate_action normalized seconds yaw_rate =
      if normalized == "stop"
      then stop_sport_motion settings.mock
      else if normalized == "turn_around"
      then (turn_of seconds yaw_rate >>= λ turn.
          run_tiny_motion (of_ℕ 0) (of_ℕ 0) turn.0 turn.1 >>= λ output. pure (str output))
      else if is_named normalized
      then (run_named_action normalized >>= λ output. pure (str output))
      else raise no_executor

  unfoldable pub robot_action : String → Json → Json → Json → Code Dict
  unfolding patrol_action linear_action immediate_action ◌>>=◌
  robot_action normalized meters seconds yaw_rate =
      if normalized == "patrol_inspection"
      then patrol_action normalized meters seconds
      else if is_linear normalized
      then linear_action "Go2 linear motion started" normalized meters seconds
      else (immediate_action normalized seconds yaw_rate >>= λ output.
          op (set_state action_done)
          >> pure (
              reply 200 (text_append "Go2 action " (text_append normalized " finished"))
                (with_data (action_field normalized (field "output" output end)))))

  -- The block of `except Exception`: the response has the message as it then stands.
  unfoldable pub report_action : Trouble → Code Dict
  unfolding stop_quietly ◌>>=◌
  report_action e = do
    op (set_state error)
    op (set_error (text_append "Go2 action failed: " (settings.describe e)))
    stop_quietly settings.mock
    message ← op read_error
    pure (reply 500 message end)

  abbrev pub or_report : Attempt Dict → Code Dict
  or_report (returned d) = pure d
  or_report (raised e) = report_action e

  unfoldable pub supported_action : String → Json → Json → Json → Code Dict
  unfolding mock_action robot_action report_action attempt ◌>>=◌
  supported_action normalized meters seconds yaw_rate = do
    op (set_state action_running)
    op (set_error "")
    attempt
        (if settings.mock
          then mock_action normalized meters seconds
          else robot_action normalized meters seconds yaw_rate)
        or_report

  module _ ⦃t : PyText⦄ where
    -- `(action or '').strip().upper()`
    unfoldable pub action_key : Json → Code String
    unfolding truthy strip
    action_key (str action) = pure (upper (strip action))
    action_key action = if truthy action then raise bad_payload else pure (upper "")

    -- What is done for the action that the key names, if it names one.
    unfoldable pub dispatched : Json → Json → Json → Json → Option String → Code Dict
    unfolding supported_action to_text
    dispatched action meters seconds yaw_rate none =
        pure (reply 400 (text_append "Unsupported Go2 action: " (to_text action)) end)
    dispatched action meters seconds yaw_rate (some normalized) =
        supported_action normalized meters seconds yaw_rate

    unfoldable pub execute_action : Json → Json → Json → Json → Code Dict
    unfolding action_key normalized_of dispatched ◌>>=◌
    execute_action action meters seconds yaw_rate = action_key action >>= λ key.
        dispatched action meters seconds yaw_rate (normalized_of supported key)

-- `self.state` as a text.
abbrev phase_text : Phase → String
phase_text idle = "IDLE"
phase_text action_running = "ACTION_RUNNING"
phase_text action_done = "ACTION_DONE"
phase_text error = "ERROR"

abbrev origin : Dict
origin = field "x" (float (of_ℕ 0)) (field "y" (float (of_ℕ 0)) (field "yaw" (float (of_ℕ 0)) end))

-- `status`; the pose, the target and the battery never change.
unfoldable pub status : Settings → Code Dict
unfolding ◌>>=◌
status settings = do
  state ← op read_state
  sdk2 ← op read_sdk
  first ← op (is_file sdk_action)
  ready ← if first then pure true else op (is_file tiny_move)
  active ← op motion_is_active
  obstacle ← op (is_file obstacle_avoid)
  lidar ← op (is_file lidar_nav)
  camera ← op (is_file camera_probe)
  message ← op read_error
  let navigation = field "speed_mps" (float settings.lidar_nav_speed) (
      field "stop_distance_m" (float settings.lidar_stop_distance) (
        field "side_clearance_m" (float settings.lidar_side_clearance) (
          field "lateral_shift_m" (float settings.lidar_lateral_shift)
            (field "max_bypass_attempts" (int (pos settings.lidar_max_bypass_attempts)) end))))
  pure (
      field "status" (str (phase_text state)) (
        field "current_pose" (obj origin) (
          field "target_pose" null (
            field "battery" (int (pos 100)) (
              field "sdk2_initialized" (bool sdk2) (
                field "network_interface" (str settings.network_interface) (
                  field "action_helper_ready" (bool ready) (
                    field "motion_active" (bool active) (
                      field "short_move_speed_mps" (float settings.short_move_speed) (
                        field "long_move_speed_mps" (float settings.long_move_speed) (
                          field "linear_ramp_ms" (int (pos 800)) (
                            field "obstacle_avoidance_ready" (bool obstacle) (
                              field "lidar_navigation_ready" (bool lidar) (
                                field "camera_probe_ready" (bool camera) (
                                  field "lidar_navigation" (obj navigation)
                                    (field "error" (str message) end))))))))))))))))
