-- ===== src/Executor/Motion.antt =====
-- The motions of adapters/go2/go2_bridge.py: `_run_tiny_motion`, `_run_lidar_navigation`,
-- `_run_obstacle_avoid_helper`, `_run_patrol_helper`, `_terminate_active_motion` and
-- `_stop_sport_motion`.
use roc_robot_sdk.Base.{ℕ, ◌+◌, ◌/◌, String, Bool, none, some, ltb, if◌then◌else◌, ◌==◌, Option}
use roc_robot_sdk.Executor.{
  Helper, obstacle_avoid, lidar_nav, Command, tiny_motion, lidar_navigation, obstacle_move, patrol,
  helper_missing, helper_failed, patrol_cancelled, os_error, bad_number, set_cancel, is_cancelled,
  active_motion, register, unregister, is_file, launch, poll, terminate, communicate, wait,
}
use roc_robot_sdk.Executor.Program.{Code, pure, raise, op, ◌>>=◌, ◌>>◌, finally}
use roc_robot_sdk.Executor.Helpers.{attempt_of, action_helper, is_success, expired, stopped, waited}
use roc_robot_sdk.Executor.Settings.{Settings}
use roc_robot_sdk.Py.Float.{Float, of_ℕ}
use roc_robot_sdk.Py.Arithmetic.{times, divided, plus, negated, clamp_int, whole}
use roc_robot_sdk.Base.Int.{ℤ}
use roc_robot_sdk.Py.Json.{Json, null, str}
use Prim.Native.Nat.{max}

-- What the helper printed, if it succeeded.
abbrev pub output_of : Helper → ℤ × String → Code String
output_of helper (returncode, output) =
    if is_success returncode then pure output else raise (helper_failed helper returncode output)

-- `Popen`
unfoldable pub started : Command → Code ℕ
unfolding ◌>>=◌
started command = op (launch command) >>= λ process. attempt_of process os_error

unfoldable pub run_tiny_motion : Float → Float → Float → ℕ → Code String
unfolding action_helper started finally ◌>>=◌
run_tiny_motion vx vy vyaw duration_ms = do
  helper ← action_helper
  process ← started (tiny_motion helper vx vy vyaw duration_ms)
  if ltb 0 duration_ms then op (register process) else pure tt
  result ←
      finally
        (op (communicate process (max 8 (duration_ms / 1000 + 5))) >>= expired helper process 3)
        (op (unregister process))
  output_of helper result

-- The process of the active motion is ended, unless there is none or it has exited.
abbrev pub end_process : Option ℕ → Code (Unit {0})
end_process none = pure tt
end_process (some process) = op (poll process) >>= λ has_exited.
    if has_exited
    then pure tt
    else op (terminate process) >> (op (wait process 6) >>= waited process)

unfoldable pub terminate_active_motion : Code (Unit {0})
unfolding ◌>>=◌
terminate_active_motion = op active_motion >>= end_process

-- `_stop_sport_motion`; it returns nothing in mock mode.
unfoldable pub stop_sport_motion : Bool → Code Json
unfolding terminate_active_motion run_tiny_motion ◌>>=◌
stop_sport_motion mock =
    if mock
    then pure null
    else op set_cancel
      >> terminate_active_motion
      >> (run_tiny_motion (of_ℕ 0) (of_ℕ 0) (of_ℕ 0) 0 >>= λ output. pure (str output))

unfoldable pub run_patrol_helper : Float → Float → Code String
unfolding action_helper started finally ◌>>=◌
run_patrol_helper distance turn_seconds = do
  helper ← action_helper
  process ← started (patrol helper distance turn_seconds)
  op (register process)
  result ←
      finally (op (communicate process 180) >>= expired helper process 3) (op (unregister process))
  cancelled ← op is_cancelled
  if cancelled then raise patrol_cancelled else output_of helper result

-- There is no `kill` here.
unfoldable pub run_obstacle_avoid_helper : String → Float → ℕ → Code String
unfolding started finally negated ◌>>=◌
run_obstacle_avoid_helper action speed duration_ms = do
  there ← op (is_file obstacle_avoid)
  if there then pure tt else raise (helper_missing obstacle_avoid)
  let vx = if action == "move_forward" then speed else negated speed
  process ← started (obstacle_move vx duration_ms)
  op (register process)
  result ←
      finally
        (op (communicate process (max 12 (duration_ms / 1000 + 8)))
          >>= stopped obstacle_avoid process)
        (op (unregister process))
  output_of obstacle_avoid result

module _ (settings : Settings) where
  -- The seconds that the navigator may take.
  unfoldable pub lidar_timeout : Float → Code ℕ
  unfolding divided times plus whole clamp_int ◌>>=◌
  lidar_timeout distance =
      attempt_of (whole (plus (times (divided distance settings.lidar_nav_speed) 4) 130)) bad_number
      >>= λ seconds. pure (clamp_int 180 1300 seconds)

  unfoldable pub run_lidar_navigation : Float → Code String
  unfolding started finally lidar_timeout ◌>>=◌
  run_lidar_navigation distance = do
    there ← op (is_file lidar_nav)
    if there then pure tt else raise (helper_missing lidar_nav)
    process ← started (
        lidar_navigation distance settings.lidar_nav_speed settings.lidar_stop_distance
          settings.lidar_side_clearance settings.lidar_lateral_shift
          settings.lidar_max_bypass_attempts)
    op (register process)
    timeout_seconds ← lidar_timeout distance
    result ←
        finally (op (communicate process timeout_seconds) >>= expired lidar_nav process 5)
          (op (unregister process))
    output_of lidar_nav result
