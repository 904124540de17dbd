-- ===== src/Cancel.antt =====
-- `cancel_active_job` and `verify_runtime_process` of roc_adapter_runtime.py: another process asks the
-- runtime that runs a job to cancel it.
pub mod Checked
use roc_robot_sdk.Base.{
  ℕ, zero, suc, ◌/◌, ◌^◌, String, Bool, false, ◌&&◌, ◌||◌, Option, none, some, List, [], ◌∷◌, eqb,
  if◌then◌else◌, mem,
}
use roc_robot_sdk.Py.Json.{
  float, Dict, end, field, get, or_else, is_text, Json, bool, int, str, arr, obj,
}
use roc_robot_sdk.Py.Float.{Float, fin}
use roc_robot_sdk.Failure.{
  no_runtime_state, wrong_job, job_not_active, no_valid_pid, lock_invalid, lock_of_other,
  cannot_signal, Failure, ◌>>=◌, ◌>>◌, not_linux, cannot_inspect, not_a_runtime, other_exception,
  Result, ok, err, require,
}
use roc_robot_sdk.Lock.{Content}
use roc_robot_sdk.Runtime.{read_state}
use roc_robot_sdk.Base.Int.{negsuc, ltb_ℤ, eqb_ℤ, ℤ, pos}
use Prim.Native.Char.{Char, code}
use roc_robot_sdk.Session.{StateFile, missing, unreadable, holds}
use roc_robot_sdk.Files.{FilePath}
use roc_robot_sdk.Discover.{same_path}

-- What the processes look like: the platform, the arguments of a process (none where they cannot be
-- read), the path that an argument resolves to (none where that raises), this program's own path,
-- `int` of a text (none where that raises), and whether SIGTERM can be sent.
pub record Processes : Type 0 where
  pub is_linux : Bool
  pub arguments : ℤ → Option (List String)
  pub resolve_argument : String → Option FilePath
  pub runtime_path : FilePath
  pub parse_int : String → Option ℤ
  pub can_signal : ℤ → Bool

abbrev active_states : List String
active_states = "RECEIVED" ∷ "VALIDATED" ∷ "STARTING" ∷ "RUNNING" ∷ "CANCELLING" ∷ []

-- `argument.startswith("-")`
abbrev is_option : String → Bool
is_option String.[] = false
is_option (String.◌∷◌ c s) = eqb (code c) 45

abbrev is_at : FilePath → Option FilePath → Bool
is_at path none = false
is_at path (some p) = same_path p path

-- An argument, other than an option, names the program.
unfoldable pub names_runtime : (String → Option FilePath) → FilePath → List String → Bool
unfolding same_path
names_runtime resolve path [] = false
names_runtime resolve path (argument ∷ arguments) =
    let rest = names_runtime resolve path arguments in
    if is_option argument then rest else is_at path (resolve argument) || rest

unfoldable pub check_arguments : Processes → Option (List String) → Result (Unit {0})
unfolding names_runtime mem
check_arguments ps none = err cannot_inspect
check_arguments ps (some arguments) =
    require (names_runtime ps.resolve_argument ps.runtime_path arguments && mem "run" arguments)
      not_a_runtime

-- `verify_runtime_process`
unfoldable pub verify_runtime_process : Processes → ℤ → Result (Unit {0})
unfolding check_arguments
verify_runtime_process ps pid = do
  require ps.is_linux not_linux
  check_arguments ps (ps.arguments pid)

-- `state in ACTIVE_STATES`
abbrev pub is_active : Json → Result Bool
is_active (str state) = ok (mem state active_states)
is_active (arr _) = err other_exception
is_active (obj _) = err other_exception
is_active _ = ok false

-- `-n`
abbrev pub negated : ℕ → ℤ
negated zero = pos 0
negated (suc n) = negsuc n

-- The integer part of a float, towards zero.
abbrev truncated : Float → Result ℤ
truncated (fin (pos n)) = ok (pos (n / 2 ^ 1074))
truncated (fin (negsuc n)) = ok (negated (suc n / 2 ^ 1074))
truncated _ = err other_exception

-- `int(v)`
unfoldable pub to_int : Processes → Json → Result ℤ
to_int ps (int k) = ok k
to_int ps (bool b) = ok (if b then pos 1 else pos 0)
to_int ps (float f) = truncated f
to_int ps (str s) = elim (ps.parse_int s) [ none ↦ err other_exception | some k ↦ ok k ]
to_int ps _ = err other_exception

-- The owner that the lock file names.
abbrev pub lock_owner : Option Content → Result ℤ
lock_owner none = err lock_invalid
lock_owner (some none) = err lock_invalid
lock_owner (some (some owner)) = ok owner

-- The state file, which must be there.
abbrev pub existing_state : StateFile → Result Dict
existing_state missing = err no_runtime_state
existing_state file = read_state file

-- The process that is to be signalled, after all checks.
unfoldable pub target : Processes → StateFile → Option Content → String → Result ℤ
unfolding to_int
target ps file lock job_id = do
  state ← existing_state file
  require (is_text job_id (get "jobId" state)) wrong_job
  active ← is_active (get "state" state)
  require active job_not_active
  pid ← to_int ps (or_else (get "pid" state) (int (pos 0)))
  require (ltb_ℤ (pos 0) pid) no_valid_pid
  owner ← lock_owner lock
  require (eqb_ℤ owner pid) lock_of_other
  verify_runtime_process ps pid
  ok pid

abbrev pub answer : String → ℤ → Dict
answer job_id pid =
    field "jobId" (str job_id) (field "pid" (int pid) (field "signal" (str "SIGTERM") end))

-- The result, and the processes that were sent SIGTERM.
abbrev pub send : Processes → String → Result ℤ → Result Dict × List ℤ
send ps job_id (err e) = (err e, [])
send ps job_id (ok pid) =
    if ps.can_signal pid then (ok (answer job_id pid), pid ∷ []) else (err cannot_signal, [])

-- `cancel_active_job`
unfoldable pub cancel_active_job :
    Processes → StateFile → Option Content → String → Result Dict × List ℤ
unfolding target verify_runtime_process
cancel_active_job ps file lock job_id = send ps job_id (target ps file lock job_id)
