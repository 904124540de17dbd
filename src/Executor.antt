-- ===== src/Executor.antt =====
-- The state that the threads of adapters/go2/go2_bridge.py share (`RobotExecutor`), and the atomic
-- operations on it and on the processes, files and connections around it. What a thread does between
-- two of them touches nothing that another thread sees. Times are in milliseconds.
pub mod Program
pub mod Settings
pub mod Helpers
pub mod Motion
pub mod Linear
pub mod Actions
pub mod Handler
pub mod Rules
pub mod Bounds
pub mod Quiet
pub mod Threads
pub mod Performed
pub mod Requests
pub mod Startup
pub mod Pool
pub mod Exclusion
pub mod Preserved
pub mod Safety
pub mod Completion
pub mod Schedule
pub mod Queue
pub mod Delivery
use roc_robot_sdk.Base.{
  ℕ, suc, ◌+◌, String, Bool, true, false, not, ◌&&◌, ◌||◌, Option, none, some, List, [], ◌∷◌, eqb,
  if◌then◌else◌, length,
}
use roc_robot_sdk.Base.Int.{ℤ}
use roc_robot_sdk.Py.Json.{Json, Dict}
use roc_robot_sdk.Py.Float.{Float}

-- `self.state`
pub data Phase : Type 0 where
  idle action_running action_done error : Phase

-- The programs that the bridge starts.
pub data Helper : Type 0 where
  sdk_action tiny_move obstacle_avoid lidar_nav camera_probe : Helper

-- The command lines of the helpers.
pub data Command : Type 0 where
  named_action : Helper → String → Command
  -- vx, vy, vyaw and duration_ms
  tiny_motion : Helper → Float → Float → Float → ℕ → Command
  -- the distance, the speed, the stop distance, the side clearance, the lateral shift, the attempts
  lidar_navigation : Float → Float → Float → Float → Float → ℕ → Command
  -- vx and duration_ms
  obstacle_move : Float → ℕ → Command
  -- the distance and turn_seconds
  patrol : Helper → Float → Float → Command

-- What waiting for a process comes to: it exited with a code and an output, `TimeoutExpired`, or
-- another exception.
pub data Outcome : Type 0 where
  exited : ℤ → String → Outcome
  timed_out broken : Outcome

-- The exceptions: one constructor for each message of `RuntimeError`, and the others.
pub data Trouble : Type 0 where
  helper_missing helper_timed_out : Helper → Trouble
  helper_failed : Helper → ℤ → String → Trouble
  action_failed : ℤ → String → Trouble
  patrol_cancelled no_executor : Trouble
  timeout_expired os_error bad_number bad_sleep bad_payload bad_length : Trouble
  thread_refused client_gone upstream_unreachable : Trouble
  -- the model's own, for a waiting loop without rounds
  out_of_rounds : Trouble

-- What a motion thread runs: `_run_linear_motion` with the action, the distance and the seconds, or
-- `_run_patrol_inspection`.
pub data Task : Type 0 where
  linear_motion : String → Float → Json → Task
  patrol_inspection : Json → Json → Task

-- A response's body: JSON, or data with its content type.
pub data Body : Type 0 where
  json_body : Json → Body
  raw_body : String → String → Body

-- What the upstream service answers to a request that `_proxy` passes on: a status with the content
-- type and the data, an error status with these, or nothing.
pub data Upstream : Type 0 where
  answered http_error : ℕ → Option String → String → Upstream
  unreachable : Upstream

-- `_proxy`'s request: the method, the path, the headers and the body.
pub record Forwarded : Type 0 where
  pub method : String
  pub path : String
  pub headers : List (String × String)
  pub body : Option String

pub data Op : Type 0 where
  set_state : Phase → Op
  set_error : String → Op
  -- `_cancel_requested`
  set_cancel clear_cancel is_cancelled : Op
  -- the blocks under `_motion_process_lock`
  claim_motion release_motion motion_is_active active_motion : Op
  register unregister : ℕ → Op
  start_thread : Task → Op
  is_file : Helper → Op
  -- `Popen`, and the methods of the process, each with its timeout in seconds
  launch : Command → Op
  poll terminate kill : ℕ → Op
  communicate wait : ℕ → ℕ → Op
  -- `subprocess.run`
  run_command : Command → ℕ → Op
  sleep : Float → Op
  -- `time.monotonic()`, and `_cancel_requested.wait(0.05)`
  clock wait_cancel : Op
  read_state read_error read_sdk : Op
  -- a response to the client: its status and its body
  respond : ℕ → Body → Op
  forward : Forwarded → Op

-- What the code learns from an operation.
abbrev pub Answer : Op → Type 0
Answer is_cancelled = Bool
Answer claim_motion = Bool
Answer motion_is_active = Bool
Answer active_motion = Option ℕ
Answer (start_thread _) = Bool
Answer (is_file _) = Bool
Answer (launch _) = Option ℕ
Answer (poll _) = Bool
Answer (communicate _ _) = Outcome
Answer (wait _ _) = Outcome
Answer (run_command _ _) = Outcome
Answer clock = ℕ
Answer wait_cancel = Bool
Answer read_state = Phase
Answer read_error = String
Answer read_sdk = Bool
Answer (respond _ _) = Bool
Answer (forward _) = Upstream
Answer _ = Unit

-- What the environment decides: whether the process has exited, whether a thread or a process can be
-- started, whether a client still reads, how much time passes.
abbrev pub Input : Op → Type 0
Input claim_motion = Bool
Input motion_is_active = Bool
Input (start_thread _) = Bool
Input (is_file _) = Bool
Input (launch _) = Bool
Input (poll _) = Bool
Input (communicate _ _) = Outcome
Input (wait _ _) = Outcome
Input (run_command _ _) = Outcome
Input clock = ℕ
Input wait_cancel = ℕ
Input (respond _ _) = Bool
Input (forward _) = Upstream
Input _ = Unit

-- `launched` are the command lines of the processes, the last one first; a process is known by the
-- number of processes before it. `responses` are those that clients have read.
pub record RobotExecutor : Type 0 where
  pub state : Phase
  pub error_msg : String
  pub sdk2_initialized : Bool
  pub active_motion_process : Option ℕ
  pub linear_motion_pending : Bool
  pub cancel_requested : Bool
  pub launched : List Command
  pub responses : List (ℕ × Body)
  pub now : ℕ

-- `process is not None and process.poll() is None`
abbrev is_live : Option ℕ → Bool → Bool
is_live none has_exited = false
is_live (some p) has_exited = not has_exited

abbrev pub is_active : RobotExecutor → Bool → Bool
is_active e has_exited = e.linear_motion_pending || is_live e.active_motion_process has_exited

-- `if self._active_motion_process is process: self._active_motion_process = None`
abbrev pub without : ℕ → Option ℕ → Option ℕ
without p none = none
without p (some q) = if eqb q p then none else some q

unfoldable pub perform : (o : Op) → Input o → RobotExecutor → Answer o × RobotExecutor
perform (set_state phase) _ e = (tt, record e { state = phase })
perform (set_error message) _ e = (tt, record e { error_msg = message })
perform set_cancel _ e = (tt, record e { cancel_requested = true })
perform clear_cancel _ e = (tt, record e { cancel_requested = false })
perform is_cancelled _ e = (e.cancel_requested, e)
perform claim_motion has_exited e =
    if is_active e has_exited then (false, e) else (true, record e { linear_motion_pending = true })
perform release_motion _ e = (tt, record e { linear_motion_pending = false })
perform motion_is_active has_exited e = (is_active e has_exited, e)
perform active_motion _ e = (e.active_motion_process, e)
perform (register p) _ e = (tt, record e { active_motion_process = some p })
perform (unregister p) _ e =
    (tt, record e { active_motion_process = without p e.active_motion_process })
perform (start_thread task) started e = (started, e)
perform (is_file helper) found e = (found, e)
perform (launch command) works e =
    if works
    then (some (length e.launched), record e { launched = command ∷ e.launched })
    else (none, e)
perform (poll p) has_exited e = (has_exited, e)
perform (terminate p) _ e = (tt, e)
perform (kill p) _ e = (tt, e)
perform (communicate p seconds) outcome e = (outcome, e)
perform (wait p seconds) outcome e = (outcome, e)
perform (run_command command seconds) outcome e =
    (outcome, record e { launched = command ∷ e.launched })
perform (sleep seconds) _ e = (tt, e)
perform clock elapsed e = (e.now + elapsed, record e { now = e.now + elapsed })
perform wait_cancel late e = (
  e.cancel_requested,
  record e { now = if e.cancel_requested then e.now + late else e.now + 50 + late },
)
perform read_state _ e = (e.state, e)
perform read_error _ e = (e.error_msg, e)
perform read_sdk _ e = (e.sdk2_initialized, e)
perform (respond status payload) reads e =
    (reads, if reads then record e { responses = (status, payload) ∷ e.responses } else e)
perform (forward request) upstream e = (upstream, e)
