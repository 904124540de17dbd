-- ===== src/Tests/Motions.antt =====
-- Concrete runs of the bridge of adapters/go2/go2_bridge.py, in mock mode and with a robot.
use roc_robot_sdk.Executor.Exclusion.{AllLimited, claims_of}
use roc_robot_sdk.Py.Json.{
  float, lookup, get_or, get, truthy, or_else, number_of, same_number, is_number, int, str, obj,
  Dict, end, field,
}
use roc_robot_sdk.Base.{
  ◌≤◌, ◌≡◌, refl, is_space, lstrip, rcons, rstrip, strip, mem, ℕ, Bool, true, false, none, some,
  List, [], ◌∷◌,
}
use roc_robot_sdk.Executor.{
  obstacle_move, json_body, perform, exited, unreachable, set_state, set_error, set_cancel,
  clear_cancel, is_cancelled, claim_motion, release_motion, motion_is_active, active_motion,
  register, unregister, start_thread, is_file, launch, poll, terminate, kill, communicate, wait,
  run_command, sleep, clock, wait_cancel, read_state, read_error, read_sdk, respond, forward,
}
use roc_robot_sdk.Executor.Program.{sequence, ◌>>=◌, attempt, finally}
use roc_robot_sdk.Executor.Settings.{
  d_0_22, clamp_float, env_speed, env_int, Environ, Settings, settings_of,
}
use roc_robot_sdk.Executor.Actions.{
  reply, with_data, action_field, busy, normalized_of, nap, distance_of, linear_action,
  start_patrol, mock_action, turn_of, patrol_action, immediate_action, robot_action, report_action,
  supported_action, action_key, dispatched, execute_action, status,
}
use roc_robot_sdk.Executor.Startup.{fresh}
use roc_robot_sdk.Executor.Pool.{
  AllDone, no_thread_left, ended, launching, Bridge, arrive, Reach, start, later,
}
use roc_robot_sdk.Executor.Safety.{Reach-launching, Reach-AllLimited}
use roc_robot_sdk.Executor.Schedule.{Reach-follow, run, advance, follow, Inputs}
use roc_robot_sdk.Py.Float.{of_ℕ, of_ℤ}
use roc_robot_sdk.Base.Int.{pos}
use roc_robot_sdk.Py.Arithmetic.{
  excess, nearest, rounded, times, divided, plus, negated, clamp_int, whole,
}
use roc_robot_sdk.Py.Number.{to_float}
use roc_robot_sdk.Executor.Helpers.{
  starts, contains, action_helper, run_once, preflight, retried, run_named_action,
}
use roc_robot_sdk.Executor.Motion.{
  started, run_tiny_motion, terminate_active_motion, stop_sport_motion, run_patrol_helper,
  run_obstacle_avoid_helper, lidar_timeout, run_lidar_navigation,
}
use roc_robot_sdk.Executor.Linear.{
  stop_quietly, report_motion, queue_linear_motion, mock_wait, to_number, milliseconds,
  duration_ms_of, mock_motion, moved, linear_body, run_linear_motion, patrol_body,
  run_patrol_inspection, run_task,
}
use roc_robot_sdk.Executor.Handler.{
  path_of, send, send_json, header, content_length, read_json, passed_on, unreachable_reply,
  passed_back, proxy, action_body, action_failure, cancel_body, do_get, do_post, Request, Server,
  handle_request,
}
use roc_robot_sdk.Executor.Bounds.{IsSafe, settings_of-IsSafe}
use roc_robot_sdk.Tests.Data.{caseless}

abbrev no_variables : Environ
no_variables = record {
  parse_float = λ s. none;
  parse_int = λ s. some (pos 60);
  variable = λ name. none;
}

abbrev pub settings : Bool → Settings
settings mock = settings_of no_variables mock "eth0" λ e. "trouble"

settings-IsSafe : (mock : Bool) → IsSafe (settings mock)
settings-IsSafe mock = settings_of-IsSafe no_variables mock "eth0" λ e. "trouble"

abbrev forward_payload : Dict
forward_payload = field "action" (str "MOVE_FORWARD") (field "meters" (int (pos 2)) end)

abbrev pub server : Bool → Server
server mock = record {
  settings = settings mock;
  parse_int = λ s. some (pos 60);
  parse_json = λ s. some (obj forward_payload);
  real_server_url = "http://127.0.0.1:8090";
  unsupported = λ method. "";
}

abbrev pub forward_request : Request
forward_request = record {
  method = "POST";
  target = "/api/v1/action";
  headers = ("Content-Length", "60") ∷ [];
  body = "{}";
}

-- Files are there, processes run and succeed, clients read, the clock stands still.
abbrev pub usual : Inputs
usual e claim_motion = false
usual e motion_is_active = false
usual e (start_thread task) = true
usual e (is_file helper) = true
usual e (launch command) = true
usual e (poll process) = false
usual e (communicate process seconds) = exited (pos 0) "done"
usual e (wait process seconds) = exited (pos 0) "done"
usual e (run_command command seconds) = exited (pos 0) "done"
usual e clock = 0
usual e wait_cancel = 0
usual e (respond status payload) = true
usual e (forward request) = unreachable
usual e (set_state phase) = tt
usual e (set_error message) = tt
usual e set_cancel = tt
usual e clear_cancel = tt
usual e is_cancelled = tt
usual e release_motion = tt
usual e active_motion = tt
usual e (register process) = tt
usual e (unregister process) = tt
usual e (terminate process) = tt
usual e (kill process) = tt
usual e (sleep seconds) = tt
usual e read_state = tt
usual e read_error = tt
usual e read_sdk = tt

-- Two requests to go forward, on a bridge that has just started.
abbrev two_requests : Bool → Bridge
two_requests mock = record {
  executor = fresh 0 (true, "");
  threads =
      handle_request (server mock) ⦃t = caseless⦄ forward_request
      ∷ handle_request (server mock) ⦃t = caseless⦄ forward_request
      ∷ [];
}

two_requests-Reach : (mock : Bool) → Reach (server mock) ⦃t = caseless⦄ (two_requests mock)
two_requests-Reach mock =
    later (later (start 0 (true, "")) (arrive forward_request)) (arrive forward_request)

-- The first request claims the motion; the second one is refused; the motion's thread goes on to
-- where it starts the helper.
abbrev order : List ℕ
order = 0 ∷ 0 ∷ 0 ∷ 0 ∷ 0 ∷ 2 ∷ 2 ∷ 2 ∷ 2 ∷ 2 ∷ 1 ∷ 1 ∷ 1 ∷ 1 ∷ 0 ∷ []

-- The helper is started and runs to its end.
abbrev to_the_end : List ℕ
to_the_end = 1 ∷ 1 ∷ 1 ∷ 1 ∷ 1 ∷ 1 ∷ 1 ∷ 1 ∷ []

abbrev at_launch : Bridge
at_launch = follow usual (server false) ⦃t = caseless⦄ order (two_requests false)

at_launch-Reach : Reach (server false) ⦃t = caseless⦄ at_launch
at_launch-Reach = Reach-follow usual (server false) ⦃t = caseless⦄ order (two_requests-Reach false)

abbrev at_end : Bridge
at_end = follow usual (server false) ⦃t = caseless⦄ to_the_end at_launch

at_end-Reach : Reach (server false) ⦃t = caseless⦄ at_end
at_end-Reach = Reach-follow usual (server false) ⦃t = caseless⦄ to_the_end at_launch-Reach

launching_test :
    (launching at_launch.threads ≡ 1) × (at_launch.executor.linear_motion_pending ≡ true)
unfolding perform started run_tiny_motion terminate_active_motion stop_sport_motion
    run_patrol_helper run_obstacle_avoid_helper lidar_timeout run_lidar_navigation normalized_of nap
    distance_of linear_action start_patrol mock_action turn_of patrol_action immediate_action
    robot_action report_action supported_action action_key dispatched execute_action status
    clamp_float env_speed env_int settings_of sequence ◌>>=◌ attempt finally path_of send send_json
    header content_length read_json passed_on unreachable_reply passed_back proxy action_body
    action_failure cancel_body do_get do_post handle_request starts contains action_helper run_once
    preflight retried run_named_action stop_quietly report_motion queue_linear_motion mock_wait
    to_number milliseconds duration_ms_of mock_motion moved linear_body run_linear_motion
    patrol_body run_patrol_inspection run_task run advance follow get get_or lookup or_else truthy
    is_number number_of same_number strip rstrip lstrip rcons is_space to_float mem times divided
    plus whole negated clamp_int rounded nearest excess of_ℤ
launching_test = (refl, refl)

-- The second request got the code 409, with the status 500.
responses_test : at_launch.executor.responses ≡ (
    (
      200,
      json_body (
          obj (
            reply 200 "Go2 linear motion started"
              (with_data (action_field "move_forward" (field "meters" (float (of_ℕ 2)) end))))),
    )
    ∷ (500, json_body (obj busy))
    ∷ [])
unfolding perform started run_tiny_motion terminate_active_motion stop_sport_motion
    run_patrol_helper run_obstacle_avoid_helper lidar_timeout run_lidar_navigation normalized_of nap
    distance_of linear_action start_patrol mock_action turn_of patrol_action immediate_action
    robot_action report_action supported_action action_key dispatched execute_action status
    clamp_float env_speed env_int settings_of sequence ◌>>=◌ attempt finally path_of send send_json
    header content_length read_json passed_on unreachable_reply passed_back proxy action_body
    action_failure cancel_body do_get do_post handle_request starts contains action_helper run_once
    preflight retried run_named_action stop_quietly report_motion queue_linear_motion mock_wait
    to_number milliseconds duration_ms_of mock_motion moved linear_body run_linear_motion
    patrol_body run_patrol_inspection run_task run advance follow get get_or lookup or_else truthy
    is_number number_of same_number strip rstrip lstrip rcons is_space to_float mem times divided
    plus whole negated clamp_int rounded nearest excess of_ℤ
responses_test = refl

-- 2 m at 0.22 m/s take 9.890 s with the ramp.
launched_test : at_end.executor.launched ≡ (obstacle_move d_0_22 9890 ∷ [])
unfolding perform started run_tiny_motion terminate_active_motion stop_sport_motion
    run_patrol_helper run_obstacle_avoid_helper lidar_timeout run_lidar_navigation normalized_of nap
    distance_of linear_action start_patrol mock_action turn_of patrol_action immediate_action
    robot_action report_action supported_action action_key dispatched execute_action status
    clamp_float env_speed env_int settings_of sequence ◌>>=◌ attempt finally path_of send send_json
    header content_length read_json passed_on unreachable_reply passed_back proxy action_body
    action_failure cancel_body do_get do_post handle_request starts contains action_helper run_once
    preflight retried run_named_action stop_quietly report_motion queue_linear_motion mock_wait
    to_number milliseconds duration_ms_of mock_motion moved linear_body run_linear_motion
    patrol_body run_patrol_inspection run_task run advance follow get get_or lookup or_else truthy
    is_number number_of same_number strip rstrip lstrip rcons is_space to_float mem times divided
    plus whole negated clamp_int rounded nearest excess of_ℤ
launched_test = refl

at_end-AllDone : AllDone at_end.threads
unfolding perform started run_tiny_motion terminate_active_motion stop_sport_motion
    run_patrol_helper run_obstacle_avoid_helper lidar_timeout run_lidar_navigation normalized_of nap
    distance_of linear_action start_patrol mock_action turn_of patrol_action immediate_action
    robot_action report_action supported_action action_key dispatched execute_action status
    clamp_float env_speed env_int settings_of sequence ◌>>=◌ attempt finally path_of send send_json
    header content_length read_json passed_on unreachable_reply passed_back proxy action_body
    action_failure cancel_body do_get do_post handle_request starts contains action_helper run_once
    preflight retried run_named_action stop_quietly report_motion queue_linear_motion mock_wait
    to_number milliseconds duration_ms_of mock_motion moved linear_body run_linear_motion
    patrol_body run_patrol_inspection run_task run advance follow get get_or lookup or_else truthy
    is_number number_of same_number strip rstrip lstrip rcons is_space to_float mem times divided
    plus whole negated clamp_int rounded nearest excess of_ℤ
at_end-AllDone = ended _ (ended _ (ended _ no_thread_left))

Reach-launching_example :
    launching at_launch.threads ≤ claims_of at_launch.executor.linear_motion_pending
Reach-launching_example =
    Reach-launching (server false) ⦃t = caseless⦄ (settings-IsSafe false) at_launch-Reach

Reach-AllLimited_example : AllLimited at_end.executor.launched
Reach-AllLimited_example =
    Reach-AllLimited (server false) ⦃t = caseless⦄ (settings-IsSafe false) at_end-Reach
