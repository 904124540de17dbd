-- ===== src/Run.antt =====
-- `JobRuntime.run` of roc_adapter_runtime.py around its `try` block (Runtime.antt): validation, the
-- replay of a finished request, the lock, the signal handlers, and the handling of exceptions.
pub mod Safety
pub mod Outcome
pub mod Cases
pub mod Promises
pub mod Twice
use roc_robot_sdk.Runtime.{Timing, is_terminal, cancel_payload, read_state, attempt}
use roc_robot_sdk.Base.{
  false, not, ◌&&◌, Option, is_some, ℕ, zero, suc, ◌+◌, ◌/◌, String, Bool, true, ◌||◌, none, some,
  List, [], ◌∷◌, leb, if◌then◌else◌, ◌==◌, mem, difference, sorted,
}
use roc_robot_sdk.Py.Json.{
  bool, is_text, Json, null, float, str, arr, obj, Items, nil, cons, Dict, end, field, get, or_else,
  as_dict,
}
use Prim.Native.Nat.{max}
use roc_robot_sdk.Py.Text.{PyText, upper_text}
use roc_robot_sdk.Py.Float.{Float}
use roc_robot_sdk.Failure.{
  Failure, Result, ok, err, bad_capabilities_response, missing_capabilities, invalid_job_state,
  cannot_read, json_object_required, other_exception, wrapped_exception, out_of_fuel,
}
use roc_robot_sdk.Manifest.{AdapterManifest}
use roc_robot_sdk.Discover.{Manifests}
use roc_robot_sdk.Select.{select_adapter}
use roc_robot_sdk.Job.{Job, to_dict, validate_job}
use roc_robot_sdk.Lock.{acquire_lock, release_lock}
use roc_robot_sdk.Process.{AdapterProcess, new_process, close_process}
use roc_robot_sdk.Session.{
  StateFile, missing, unreadable, holds, Handler, handle_signal, Session, Action, pure, lift, gets,
  modify, set_state, transition, call, cancelled, pause, ◌>>=◌, ◌>>◌,
}

-- The detail of the safety cancellation: whether it was attempted, and how it ended.
abbrev not_attempted : Dict
not_attempted = field "attempted" (bool false) end

abbrev cancel_succeeded : String → Dict
cancel_succeeded state =
    field "attempted" (bool true)
      (field "succeeded" (bool true) (field "adapterState" (str state) end))

abbrev cancel_failed : String → Dict
cancel_failed why =
    field "attempted" (bool true) (field "succeeded" (bool false) (field "error" (str why) end))

module _ ⦃t : PyText⦄ where
  abbrev cancel_detail : Result Dict → Session → Dict
  cancel_detail (ok response) s =
      cancel_succeeded (upper_text (or_else (get "state" response) (str "CANCELLED")))
  cancel_detail (err e) s = cancel_failed (s.host.message e)

  -- After an exception: a best-effort `job.cancel`, if the job may have been started.
  unfoldable pub safety_cancel : Session → Dict × Session
  safety_cancel s =
      let (r, s') = call "job.cancel" 5000 (cancel_payload s.job "runtime failure") s in
      if s.start_attempted && is_some s.adapter && not (is_terminal s.last_state)
      then (cancel_detail r s', s')
      else (not_attempted, s)

  -- After an exception: FAILED is recorded, unless a terminal state was reached.
  unfoldable pub record_failure : Failure → Dict → Session → Session
  record_failure e detail s =
      let fields = field "error" (str (s.host.message e)) (field "safetyCancel" (obj detail) end) in
      let (_, s') = transition "FAILED" (obj fields) s in if is_terminal s.last_state then s else s'

  unfoldable pub handle_failure : Failure → Session → Session
  unfolding safety_cancel record_failure
  handle_failure e s = let (detail, s') = safety_cancel s in record_failure e detail s'

  -- `raise` for a `RuntimeFailure`, and else `raise RuntimeFailure(str(exc)) from exc`
  abbrev pub wrapped : Failure → Failure
  wrapped other_exception = wrapped_exception
  wrapped e = e

  abbrev pub handled : Result Dict × Session → Result Dict × Session
  handled (ok d, s) = (ok d, s)
  handled (err e, s) = (err (wrapped e), handle_failure e s)

  abbrev pub close_adapter : Option AdapterProcess → Result (Unit {0}) × Option AdapterProcess
  close_adapter none = (ok tt, none)
  close_adapter (some p) = let (c, q) = close_process p in (c, some q)

  -- The rest of the `finally` clause, if `close` did not raise.
  abbrev pub restored :
      Handler × Handler → Result Dict → Result (Unit {0}) → Session → Result Dict × Session
  restored before r (ok u) s =
      (r, record s { handlers = before; lock = release_lock s.host.unlinks s.host.pid s.lock })
  restored before r (err e) s = (err e, s)

  -- The `finally` clause; `before` are the handlers that were installed before.
  unfoldable pub finish : Handler × Handler → Result Dict × Session → Result Dict × Session
  unfolding close_process
  finish before (r, s) =
      let (c, adapter) = close_adapter s.adapter in
      restored before r c (record s { adapter = adapter })

  -- The state in which the `try` statement is entered.
  unfoldable pub entered : Session → Session
  entered s = record s {
    handlers = (handle_signal, handle_signal);
    last_state = "RECEIVED";
    start_attempted = false;
    events = [];
  }

  -- The `try` statement, once the lock is taken.
  unfoldable pub run_locked : Manifests → String → Timing → Session → Result Dict × Session
  unfolding finish entered
  run_locked manifests adapter_id timing s =
      finish s.handlers (handled (attempt manifests adapter_id timing (entered s)))

  -- `state in TERMINAL_STATES`
  abbrev terminal_value : Json → Result Bool
  terminal_value (str state) = ok (is_terminal state)
  terminal_value (arr _) = err other_exception
  terminal_value (obj _) = err other_exception
  terminal_value _ = ok false

  abbrev replay_if : Dict → Result Bool → Result (Option Dict)
  replay_if d (ok b) = ok (if b then some d else none)
  replay_if d (err e) = err e

  abbrev recorded_result : Job → Result Dict → Result (Option Dict)
  recorded_result job (ok d) =
      if is_text job.idempotency_key (get "idempotencyKey" d)
      then replay_if d (terminal_value (get "state" d))
      else ok none
  recorded_result job (err e) = err e

  -- The result of the same request, if the state file holds one.
  unfoldable pub previous_result : Job → StateFile → Result (Option Dict)
  previous_result job missing = ok none
  previous_result job file = recorded_result job (read_state file)

  abbrev pub run_if_locked :
      Manifests → String → Timing → Session → Result (Unit {0}) → Result Dict × Session
  run_if_locked manifests adapter_id timing s (ok _) = run_locked manifests adapter_id timing s
  run_if_locked manifests adapter_id timing s (err e) = (err e, s)

  abbrev pub run_unless_done :
      Manifests → String → Timing → Session → Result (Option Dict) → Result Dict × Session
  run_unless_done manifests adapter_id timing s (err e) = (err e, s)
  run_unless_done manifests adapter_id timing s (ok (some d)) = (ok d, s)
  run_unless_done manifests adapter_id timing s (ok none) =
      let (r, lock) = acquire_lock s.host.alive s.host.pid s.lock in
      run_if_locked manifests adapter_id timing (record s { lock = lock }) r

  abbrev pub run_job : Manifests → String → Timing → Session → Result Job → Result Dict × Session
  run_job manifests adapter_id timing s (err e) = (err e, s)
  run_job manifests adapter_id timing s (ok job) =
      run_unless_done manifests adapter_id timing (record s { job = job })
        (previous_result job s.state_file)

  -- `run`
  unfoldable pub run : Manifests → Dict → String → Timing → Session → Result Dict × Session
  unfolding run_locked previous_result
  run manifests raw_job adapter_id timing s =
      run_job manifests adapter_id timing s (validate_job raw_job)
