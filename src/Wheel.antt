-- ===== src/Wheel.antt =====
-- adapters/mock-wheel/adapter.py, the reference implementation of the adapter protocol. Its clock
-- counts in units of 2 ^ -1074 seconds, as Float does, so that a deadline is an exact sum.
pub mod Reports
pub mod Running
pub mod Duration
use roc_robot_sdk.Py.Number.{to_float}
use roc_robot_sdk.Base.{
  not, ◌||◌, ℕ, ◌+◌, ◌-◌, ◌^◌, String, Bool, true, false, ◌&&◌, Option, none, some, List, [], ◌∷◌,
  leb, if◌then◌else◌, ◌==◌, is_empty, mem, subset,
}
use roc_robot_sdk.Py.Json.{
  is_text, py_eq, Json, bool, int, float, str, arr, obj, Items, nil, cons, Dict, end, field, get_or,
  get, keys, truthy, or_else, as_dict, of_texts,
}
use roc_robot_sdk.Py.Text.{PyText, upper_text}
use roc_robot_sdk.Failure.{Failure, other_exception, Result, ok, err, ◌>>=◌}
use roc_robot_sdk.Py.Float.{Float, fin, is_finite, min_float, max_float, units, of_ℕ, of_ℤ}
use roc_robot_sdk.Base.Int.{pos, pos_part, neg_part}

abbrev pub wheel_protocol : String
wheel_protocol = "roc.adapter.jsonl.v1"

abbrev pub wheel_capabilities : List String
wheel_capabilities =
    "incident.status" ∷ "job.cancel" ∷ "motion.linear" ∷ "navigation.obstacle-avoidance" ∷ "patrol"
    ∷ "status.robot" ∷ "telemetry.basic" ∷ []

abbrev pub wheel_job_types : List String
wheel_job_types = "DELIVERY" ∷ "INSPECTION" ∷ "PATROL" ∷ "STOP" ∷ []

-- `current_job`
pub record WheelJob : Type 0 where
  pub id : Json
  pub job_type : String
  pub state : String
  pub deadline : ℕ

-- A response with its fields after the first three.
unfoldable pub respond : Dict → Bool → Dict → Dict
respond request positive payload =
    field "protocol" (str wheel_protocol)
      (field "requestId" (get "requestId" request) (field "ok" (bool positive) payload))

unfoldable pub refuse : Dict → String → Dict
unfolding respond
refuse request why = respond request false (field "error" (str why) end)

-- What `refresh_state` does to a job.
unfoldable pub refreshed : ℕ → WheelJob → WheelJob
refreshed now job =
    if job.state == "RUNNING" && leb job.deadline now
    then record job { state = "SUCCEEDED" }
    else job

-- `refresh_state`
unfoldable pub refresh_state : ℕ → Option WheelJob → String × Option WheelJob
unfolding refreshed
refresh_state now none = ("IDLE", none)
refresh_state now (some job) = let j = refreshed now job in (j.state, some j)

-- `set(items).issubset(CAPABILITIES)`; a list or a dictionary cannot be hashed.
unfoldable pub items_known : Items → Result Bool
unfolding mem
items_known nil = ok true
items_known (cons (arr _) xs) = err other_exception
items_known (cons (obj _) xs) = err other_exception
items_known (cons (str s) xs) = elim (items_known xs) [
  | ok b ↦ ok (mem s wheel_capabilities && b)
  | err e ↦ err e
]
items_known (cons _ xs) = elim (items_known xs) [ ok b ↦ ok false | err e ↦ err e ]

-- `set(value or []).issubset(CAPABILITIES)`: the set of a text has its characters, none of which is a
-- capability; a number and `True` have no elements to iterate over.
unfoldable pub required_known : Json → Result Bool
unfolding items_known
required_known (arr xs) = items_known xs
required_known (obj d) = ok (subset (keys d) wheel_capabilities)
required_known (str s) = ok (is_empty s)
required_known v = if truthy v then err other_exception else ok true

abbrev data_of : String → Dict
data_of job_type = field "simulated" (bool true) (field "jobType" (str job_type) end)

abbrev pub report : String → Dict → Dict
report state detail = field "state" (str state) (field "data" (obj detail) end)

-- The capabilities and job types, with the adapter's name.
abbrev description : Dict
description = field "capabilities" (arr (of_texts wheel_capabilities)) (
    field "jobTypes" (arr (of_texts wheel_job_types)) (
      field "adapter" (obj (field "id" (str "mock-wheel") (field "version" (str "1.0.0") end)))
        end))

abbrev pub telemetry : String → Dict
telemetry state =
    let zero_pose = float (fin (pos 0)) in
    field "telemetry"
      (obj (
        field "batteryPercent" (int (pos 100)) (
          field "motionState" (str state) (
            field "pose"
              (obj (field "x" zero_pose (field "y" zero_pose (field "yaw" zero_pose end))))
              (field "simulated" (bool true) end)))))
      end

abbrev pub units_of : Float → ℕ
units_of (fin (pos n)) = n
units_of _ = 0

-- At least 0.01 and at most 30.0 seconds.
unfoldable pub clamped : Float → Result ℕ
clamped duration =
    if is_finite duration
    then ok (units_of (max_float (units 5764607523034235 1015) (min_float duration (of_ℕ 30))))
    else err other_exception

-- `(job.get("parameters") or {}).get("durationSeconds", 0.2)`
unfoldable pub parameter_of : Dict → Result Json
parameter_of job = elim (as_dict (or_else (get "parameters" job) (obj end))) [
  | none ↦ err other_exception
  | some parameters ↦ ok (get_or "durationSeconds" (float (units 3602879701896397 1020)) parameters)
]

module _ (parse_float : String → Option Float) where
  unfoldable pub duration_of : String → Dict → Result ℕ
  unfolding parameter_of to_float clamped
  duration_of job_type job =
      if job_type == "STOP"
      then ok 0
      else (parameter_of job >>= λ v. to_float parse_float v >>= λ duration. clamped duration)

abbrev pub of_duration :
    ℕ → Dict → Json → String → Option WheelJob → Result ℕ → Result Dict × Option WheelJob
of_duration now request id job_type wheel (err e) = (err e, wheel)
of_duration now request id job_type wheel (ok duration) =
    let state = if job_type == "STOP" then "SUCCEEDED" else "RUNNING" in
    (
      ok (respond request true (report state (data_of job_type))),
      some (record { id = id; job_type = job_type; state = state; deadline = now + duration }),
    )

-- The message `job.status`.
unfoldable pub status : ℕ → Dict → Option WheelJob → Result Dict × Option WheelJob
unfolding respond refuse refreshed
status now request none = (ok (refuse request "Job not found"), none)
status now request (some job) =
    let j = refreshed now job in
    if py_eq (get "jobId" request) job.id
    then (ok (respond request true (report j.state (data_of job.job_type))), some j)
    else (ok (refuse request "Job not found"), some job)

-- The message `job.cancel`.
unfoldable pub cancel : Dict → Option WheelJob → Result Dict × Option WheelJob
unfolding respond refuse
cancel request none = (ok (refuse request "Job not found"), none)
cancel request (some job) =
    if py_eq (get "jobId" request) job.id
    then (
      ok (respond request true (report "CANCELLED" (field "simulated" (bool true) end))),
      some (record job { state = "CANCELLED" }),
    )
    else (ok (refuse request "Job not found"), some job)

-- The answer of the main loop to a request; `message` is `str` of an exception.
abbrev pub answered :
    (Failure → String) → Dict → Result Dict × Option WheelJob → Dict × Option WheelJob
answered message request (ok d, wheel) = (d, wheel)
answered message request (err e, wheel) = (refuse request (message e), wheel)

module _ ⦃t : PyText⦄ (parse_float : String → Option Float) (now : ℕ) where
  -- `job.start` once the required capabilities are known to be there or not.
  unfoldable pub start_job : Dict → Dict → Bool → Option WheelJob → Result Dict × Option WheelJob
  unfolding mem refuse respond refresh_state
  start_job request job fits wheel =
      let job_type = upper_text (or_else (get "type" job) (str "")) in
      let (state, wheel') = refresh_state now wheel in
      let begun =
        of_duration now request (get "id" job) job_type wheel'
          (duration_of parse_float job_type job) in
      if not (truthy (get "id" job)) || not (mem job_type wheel_job_types)
      then (ok (refuse request "Unsupported or invalid job"), wheel)
      else if not fits
      then (ok (refuse request "Required capability is not available"), wheel)
      else if state == "RUNNING"
      then (ok (refuse request "Another job is already running"), wheel')
      else begun

  abbrev pub with_required :
      Dict → Dict → Result Bool → Option WheelJob → Result Dict × Option WheelJob
  with_required request job (err e) wheel = (err e, wheel)
  with_required request job (ok fits) wheel = start_job request job fits wheel

  abbrev pub with_job : Dict → Option Dict → Option WheelJob → Result Dict × Option WheelJob
  with_job request none wheel = (err other_exception, wheel)
  with_job request (some job) wheel =
      with_required request job (required_known (get "requiredCapabilities" job)) wheel

  -- The message `job.start`.
  unfoldable pub start : Dict → Option WheelJob → Result Dict × Option WheelJob
  unfolding start_job required_known
  start request wheel = with_job request (as_dict (or_else (get "job" request) (obj end))) wheel

  -- `handle`
  unfoldable pub handle : Dict → Option WheelJob → Result Dict × Option WheelJob
  unfolding start status cancel
  handle request wheel =
      let (state, wheel') = refresh_state now wheel in
      if not (is_text wheel_protocol (get "protocol" request))
      then (ok (refuse request "Unsupported protocol"), wheel)
      else if is_text "capabilities.get" (get "type" request)
      then (ok (respond request true description), wheel)
      else if is_text "telemetry.get" (get "type" request)
      then (ok (respond request true (telemetry state)), wheel')
      else if is_text "incidents.get" (get "type" request)
      then (ok (respond request true (field "incidents" (arr nil) end)), wheel)
      else if is_text "job.start" (get "type" request)
      then start request wheel
      else if is_text "job.status" (get "type" request)
      then status now request wheel
      else if is_text "job.cancel" (get "type" request)
      then cancel request wheel
      else (ok (refuse request "Unsupported message type"), wheel)

  -- One line of the main loop: no JSON, or a value; none where the loop itself raises, because
  -- `respond` is given a value that is no dictionary.
  unfoldable pub serve_line :
      (Failure → String) → Option Json → Option WheelJob → Option (Dict × Option WheelJob)
  unfolding handle refuse respond
  serve_line message none wheel = some (answered message end (err other_exception, wheel))
  serve_line message (some v) wheel = elim (as_dict v) [
    | none ↦ none
    | some request ↦ some (answered message request (handle request wheel))
  ]
