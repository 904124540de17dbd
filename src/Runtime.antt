-- ===== src/Runtime.antt =====
-- The `try` block of `JobRuntime.run` in roc_adapter_runtime.py: from the first transition to the end of
-- the loop that watches the job. Run.antt has what surrounds it.
pub mod Order
pub mod States
pub mod Prepare
pub mod Watch
pub mod Guard
pub mod Time
pub mod Fuel
pub mod Record
pub mod Keeps
pub mod Account
use roc_robot_sdk.Base.{
  false, not, ◌&&◌, Option, is_some, ℕ, zero, suc, ◌+◌, ◌/◌, String, Bool, true, ◌||◌, none, some,
  List, [], ◌∷◌, leb, if◌then◌else◌, ◌==◌, mem, difference, sorted,
}
use roc_robot_sdk.Py.Json.{
  bool, is_text, Json, null, float, str, arr, obj, Items, nil, cons, Dict, end, field, get, or_else,
  as_dict,
}
use Prim.Native.Nat.{max}
use roc_robot_sdk.Py.Text.{PyText, upper_text}
use roc_robot_sdk.Py.Float.{Float}
use roc_robot_sdk.Failure.{
  Failure, Result, ok, err, bad_capabilities_response, missing_capabilities, invalid_job_state,
  cannot_read, json_object_required, other_exception, out_of_fuel,
}
use roc_robot_sdk.Manifest.{AdapterManifest}
use roc_robot_sdk.Discover.{Manifests}
use roc_robot_sdk.Select.{select_adapter}
use roc_robot_sdk.Job.{Job, to_dict, validate_job}
use roc_robot_sdk.Lock.{acquire_lock, release_lock}
use roc_robot_sdk.Process.{AdapterProcess, new_process}
use roc_robot_sdk.Session.{
  StateFile, missing, unreadable, holds, Handler, handle_signal, Session, Action, pure, lift, gets,
  modify, set_state, transition, call, cancelled, pause, ◌>>=◌, ◌>>◌,
}

abbrev pub terminal_states : List String
terminal_states = "SUCCEEDED" ∷ "FAILED" ∷ "CANCELLED" ∷ "TIMED_OUT" ∷ "REJECTED" ∷ []

unfoldable pub is_terminal : String → Bool
unfolding mem
is_terminal state = mem state terminal_states

-- The states that an adapter may report of a running job.
unfoldable pub is_reportable : String → Bool
unfolding is_terminal
is_reportable state = is_terminal state || state == "RUNNING"

-- `timeout` and `poll_interval` in milliseconds, and the timeout as it was given.
pub record Timing : Type 0 where
  pub timeout : ℕ
  pub poll_interval : ℕ
  pub timeout_seconds : Float

-- `set(reported)`, as far as texts are looked up in it; lists and dictionaries cannot be hashed.
unfoldable pub reported_texts : Items → Result (List String)
reported_texts nil = ok []
reported_texts (cons (str s) xs) = elim (reported_texts xs) [ ok ts ↦ ok (s ∷ ts) | err e ↦ err e ]
reported_texts (cons (arr _) xs) = err other_exception
reported_texts (cons (obj _) xs) = err other_exception
reported_texts (cons _ xs) = reported_texts xs

abbrev all_there : List String → Result (Unit {0})
all_there [] = ok tt
all_there (t ∷ ts) = err (missing_capabilities (sorted (t ∷ ts)))

-- The check of the response to `capabilities.get`.
unfoldable pub check_capabilities : List String → Json → Result (Unit {0})
unfolding reported_texts
check_capabilities required (arr xs) = elim (reported_texts xs) [
  | ok reported ↦ all_there (difference required reported)
  | err e ↦ err e
]
check_capabilities required _ = err bad_capabilities_response

abbrev pub require_reportable : String → Result (Unit {0})
require_reportable state = if is_reportable state then ok tt else err (invalid_job_state state)

unfoldable pub cancel_payload : Job → String → Dict
cancel_payload job reason = field "jobId" (str job.id) (field "reason" (str reason) end)

-- An exception of the `finally` clause takes the place of the other.
abbrev pub settle : Result (Unit {0}) → Result Dict → Result (Unit {0})
settle (err e) r = err e
settle (ok _) (ok d) = ok tt
settle (ok _) (err e) = err e

-- `try: m; finally: k`
unfoldable pub finally_do : Action Dict → Action (Unit {0}) → Action (Unit {0})
finally_do m k s = let (r, s') = m s in let (q, s'') = k s' in (settle q r, s'')

abbrev pub read_state : StateFile → Result Dict
read_state missing = err cannot_read
read_state unreadable = err cannot_read
read_state (holds v) = elim (as_dict v) [ none ↦ err json_object_required | some d ↦ ok d ]

module _ ⦃t : PyText⦄ where
  -- `str(response.get("state") or default).upper()`
  unfoldable pub reported_state : Dict → String → String
  reported_state response default = upper_text (or_else (get "state" response) (str default))

  -- Up to the transition to STARTING.
  unfoldable pub prepare : Manifests → String → Action (Unit {0})
  prepare manifests adapter_id = do
    transition "RECEIVED" null
    job ← gets (λ s. s.job)
    manifest ← lift (select_adapter manifests job adapter_id)
    modify (λ s. record s { manifest = some manifest })
    set_state "VALIDATED"
    transition "VALIDATED" null
    modify (λ s. record s {
      adapter = some (new_process manifest s.host.spawns s.host.script s.host.child);
    })
    capabilities ← call "capabilities.get" 10000 end
    lift (check_capabilities job.required (get "capabilities" capabilities))
    set_state "STARTING"
    transition "STARTING" null

  -- The request `job.start` and its answer.
  unfoldable pub launch : Action (Unit {0})
  unfolding reported_state
  launch = do
    modify (λ s. record s { start_attempted = true })
    job ← gets (λ s. s.job)
    response ← call "job.start" 10000 (field "job" (obj (to_dict job)) end)
    set_state (reported_state response "RUNNING")
    lift (require_reportable (reported_state response "RUNNING"))
    transition (reported_state response "RUNNING") (get "data" response)

  -- What the loop does about a signal.
  unfoldable pub cancel_job : Action (Unit {0})
  unfolding reported_state
  cancel_job = do
    transition "CANCELLING" (obj (field "reason" (str "runtime signal") end))
    job ← gets (λ s. s.job)
    response ← call "job.cancel" 10000 (cancel_payload job "runtime signal")
    let reported = reported_state response "CANCELLED"
    let state = if is_terminal reported then reported else "CANCELLED"
    set_state state
    transition state (get "data" response)

  -- What the loop does at the deadline.
  unfoldable pub time_out : Timing → Action (Unit {0})
  unfolding finally_do
  time_out timing = do
    job ← gets (λ s. s.job)
    finally_do (call "job.cancel" 5000 (cancel_payload job "runtime timeout")) (
        set_state "TIMED_OUT"
        >> transition "TIMED_OUT" (obj (field "timeoutSeconds" (float timing.timeout_seconds) end)))

  -- A new state that is not the last one is recorded.
  unfoldable pub note_state : String → Json → Action (Unit {0})
  note_state state detail = do
    last ← gets (λ s. s.last_state)
    if state == last then pure tt else (set_state state >> transition state detail)

  -- One request `job.status`.
  unfoldable pub poll_status : Action (Unit {0})
  unfolding reported_state note_state
  poll_status = do
    job ← gets (λ s. s.job)
    response ← call "job.status" 10000 (field "jobId" (str job.id) end)
    lift (require_reportable (reported_state response "RUNNING"))
    note_state (reported_state response "RUNNING") (get "data" response)

  -- A wait for the signal or the next poll; `rest` is the loop's next round.
  unfoldable pub wait_and_poll : Timing → Action (Unit {0}) → Action (Unit {0})
  wait_and_poll timing rest = do
    pause (max 50 timing.poll_interval)
    stop ← gets cancelled
    if stop then rest else (poll_status >> rest)

  -- One round of the `while` loop.
  unfoldable pub watch_round : Timing → ℕ → Action (Unit {0}) → Action (Unit {0})
  watch_round timing deadline rest = do
    last ← gets (λ s. s.last_state)
    stop ← gets cancelled
    late ← gets (λ s. leb deadline s.now)
    if is_terminal last
        then pure tt
        else if stop
        then cancel_job
        else if late
        then time_out timing
        else wait_and_poll timing rest

  -- The `while` loop, for so many rounds at most; `exhausted` is the model's, and is not reached.
  unfoldable pub watch : Action (Unit {0}) → ℕ → Timing → ℕ → Action (Unit {0})
  watch exhausted zero timing deadline = exhausted
  watch exhausted (suc fuel) timing deadline =
      let rest = watch exhausted fuel timing deadline in watch_round timing deadline rest

  -- A wait takes at least as long as its least length, unless a signal ends it.
  abbrev pub fuel_for : Timing → ℕ
  fuel_for timing = timing.timeout / max 50 timing.poll_interval + 3

  -- The body of the `try` statement.
  unfoldable pub attempt : Manifests → String → Timing → Action Dict
  attempt manifests adapter_id timing = do
    prepare manifests adapter_id
    launch
    started ← gets (λ s. s.now)
    watch (lift (err out_of_fuel)) (fuel_for timing) timing (started + timing.timeout)
    file ← gets (λ s. s.state_file)
    lift (read_state file)
