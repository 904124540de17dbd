-- ===== src/Executor/Helpers.antt =====
-- How adapters/go2/go2_bridge.py runs its helper programs: the choice of a helper, `_run_named_action`,
-- and the waiting for a process that it has started.
use roc_robot_sdk.Executor.{
  wait, Helper, sdk_action, tiny_move, named_action, Outcome, exited, timed_out, broken, Trouble,
  helper_missing, helper_timed_out, action_failed, timeout_expired, os_error, is_file, terminate,
  kill, communicate, run_command, sleep,
}
use roc_robot_sdk.Base.{
  ℕ, Bool, true, false, not, ◌&&◌, ◌||◌, Option, none, some, eqb, if◌then◌else◌, ◌==◌, is_empty,
}
use roc_robot_sdk.Executor.Program.{Code, pure, raise, op, ◌>>=◌, ◌>>◌}
use roc_robot_sdk.Py.Float.{units, of_ℕ}
use roc_robot_sdk.Base.Int.{ℤ, pos, eqb_ℤ}
use Prim.Native.Char.{code}
use Prim.Native.String.{String}

-- `prefix` begins the text; `part in text`.
unfoldable pub starts : String → String → Bool
starts String.[] text = true
starts (String.◌∷◌ c part) String.[] = false
starts (String.◌∷◌ c part) (String.◌∷◌ d text) = eqb (code c) (code d) && starts part text

unfoldable pub contains : String → String → Bool
unfolding starts
contains part String.[] = is_empty part
contains part (String.◌∷◌ d text) = starts part (String.◌∷◌ d text) || contains part text

abbrev pub attempt_of : {A : Type 0} → Option A → Trouble → Code A
attempt_of none e = raise e
attempt_of (some a) e = pure a

-- What a finished process returned; other exceptions go on.
abbrev pub finished : Outcome → Code (ℤ × String)
finished (exited returncode output) = pure (returncode, output)
finished timed_out = raise timeout_expired
finished broken = raise os_error

-- The helper that exists, the SDK's first.
unfoldable pub action_helper : Code Helper
unfolding ◌>>=◌
action_helper = do
  found ← op (is_file sdk_action)
  let helper = if found then sdk_action else tiny_move
  there ← op (is_file helper)
  if there then pure helper else raise (helper_missing helper)

unfoldable pub run_once : Helper → String → Code (ℤ × String)
unfolding ◌>>=◌
run_once helper action = op (run_command (named_action helper action) 30) >>= finished

abbrev pub needs_stand : String → Bool
needs_stand action = action == "heart" || (action == "dance1" || action == "dance2")

abbrev pub is_success : ℤ → Bool
is_success returncode = eqb_ℤ returncode (pos 0)

-- The stand preflight of an action, or the recovery of the stand state before a retry.
unfoldable pub preflight : Helper → Code (Unit {0})
unfolding run_once ◌>>=◌
preflight helper = do
  stand_result ← run_once helper "stand_up"
  if is_success stand_result.0 then op (sleep (of_ℕ 1)) else pure tt

unfoldable pub retried : Helper → String → ℤ × String → Code (ℤ × String)
unfolding run_once ◌>>=◌
retried helper action result = do
  stand_result ← run_once helper "stand_up"
  if is_success stand_result.0
      then op (sleep (units 3 1073)) >> run_once helper action
      else pure result

unfoldable pub run_named_action : String → Code String
unfolding action_helper preflight run_once retried contains ◌>>=◌
run_named_action action = do
  helper ← action_helper
  if needs_stand action then preflight helper else pure tt
  first ← run_once helper action
  result ←
      if not (is_success first.0) && (contains "code=3104" first.1 && needs_stand action)
      then retried helper action first
      else pure first
  if is_success result.0 then pure result.1 else raise (action_failed result.0 result.1)

-- A process that `terminate` was not enough for.
abbrev pub killed : Helper → ℕ → Outcome → Code (ℤ × String)
killed helper p (exited returncode output) = raise (helper_timed_out helper)
killed helper p timed_out =
    op (kill p)
    >> (op (communicate p 3) >>= λ outcome.
        finished outcome >>= λ _. raise (helper_timed_out helper))
killed helper p broken = raise os_error

-- A process whose time is over: it is terminated, and killed after the grace.
abbrev pub expired : Helper → ℕ → ℕ → Outcome → Code (ℤ × String)
expired helper p grace timed_out =
    op (terminate p) >> (op (communicate p grace) >>= killed helper p)
expired helper p grace outcome = finished outcome

-- A process whose time is over and that is only terminated.
abbrev pub stopped : Helper → ℕ → Outcome → Code (ℤ × String)
stopped helper p timed_out =
    op (terminate p)
    >> (op (communicate p 3) >>= λ outcome.
        finished outcome >>= λ _. raise (helper_timed_out helper))
stopped helper p outcome = finished outcome

-- `process.wait` after `terminate`: a process that stays is killed.
abbrev pub waited : ℕ → Outcome → Code (Unit {0})
waited p (exited returncode output) = pure tt
waited p timed_out = op (kill p) >> (op (wait p 3) >>= λ outcome. finished outcome >>= λ _. pure tt)
waited p broken = raise os_error
