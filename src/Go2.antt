-- ===== src/Go2.antt =====
-- adapters/go2/runtime_adapter.py, the adapter that turns jobs into calls of the Go2 bridge. Its
-- capabilities and job types are those of the mock adapter.
pub mod Commands
pub mod Motion
use roc_robot_sdk.Bridge.{
  BridgeCall, get_status, post_cancel, Go2Job, Go2, bridge_request, with_response, is_running,
  stop_active_job, command_of,
}
use roc_robot_sdk.Failure.{Failure, other_exception, Result, ok, err, ◌>>=◌}
use roc_robot_sdk.Base.{
  not, ◌&&◌, ◌||◌, [], mem, ℕ, String, Bool, true, false, Option, none, some, List, ◌∷◌,
  if◌then◌else◌, length, ◌==◌,
}
use roc_robot_sdk.Py.Json.{
  arr, Items, nil, cons, truthy, or_else, is_text, as_dict, of_texts, py_eq, Json, null, bool,
  float, str, obj, Dict, end, field, get_or, get, is_number,
}
use roc_robot_sdk.Py.Text.{PyText, to_text, upper_text}
use roc_robot_sdk.Wheel.{
  wheel_capabilities, wheel_job_types, required_known, status, wheel_protocol,
}
use roc_robot_sdk.Py.Float.{Float, is_finite, min_float, max_float, units, of_ℕ}
use roc_robot_sdk.Py.Number.{to_float}

abbrev go2_reply : Dict → Bool → Dict → Dict
go2_reply request positive payload =
    field "protocol" (str wheel_protocol)
      (field "requestId" (get "requestId" request) (field "ok" (bool positive) payload))

abbrev go2_refuse : Dict → String → Dict
go2_refuse request why = go2_reply request false (field "error" (str why) end)

abbrev go2_report : String → Dict → Dict
go2_report state detail = field "state" (str state) (field "data" (obj detail) end)

-- The data of a response about a job; `bridge_url` is the configured address.
abbrev url_data : String → Dict
url_data bridge_url = field "bridgeUrl" (str bridge_url) end

-- The job that has been started, and the response.
abbrev pub started : String → Dict → Json → String → Result Dict × Go2 → Result Dict × Go2
started bridge_url request id job_type (err e, s) = (err e, s)
started bridge_url request id job_type (ok _, s) =
    let state = if job_type == "STOP" then "SUCCEEDED" else "RUNNING" in
    (
      ok (
          go2_reply request true (
            go2_report state
              (field "bridgeUrl" (str bridge_url) (field "jobType" (str job_type) end)))),
      record s { current_job = some (record { id = id; job_type = job_type; state = state }) },
    )

abbrev pub send_command :
    String → Dict → Json → String → Go2 → Result BridgeCall → Result Dict × Go2
send_command bridge_url request id job_type s (err e) = (err e, s)
send_command bridge_url request id job_type s (ok c) =
    started bridge_url request id job_type (bridge_request c s)

module _ ⦃t : PyText⦄ where
  -- `map_bridge_state`
  unfoldable pub map_bridge_state : Dict → String
  unfolding mem
  map_bridge_state value =
      let raw = upper_text (or_else (or_else (get "status" value) (get "state" value)) (str "")) in
      if mem raw ("ACTION_RUNNING" ∷ "RUNNING" ∷ "STARTING" ∷ [])
      then "RUNNING"
      else if mem raw ("ERROR" ∷ "FAILED" ∷ [])
      then "FAILED"
      else if mem raw ("ACTION_DONE" ∷ "DONE" ∷ "SUCCEEDED" ∷ "IDLE" ∷ [])
      then "SUCCEEDED"
      else "RUNNING"

  abbrev pub telemetry_reply : Dict → Dict → Go2 → Result Dict × Go2
  telemetry_reply request status s = (
    ok (
        go2_reply request true (
          field "telemetry"
            (obj (
              field "batteryPercent" (get "battery" status) (
                field "motionState" (str (map_bridge_state status)) (
                  field "pose" (get "current_pose" status)
                    (field "controllerReady" (get "sdk2_initialized" status) end)))))
            end)),
    s,
  )

  abbrev incidents_of : Dict → Items
  incidents_of status =
      if mem (upper_text (or_else (get "status" status) (str ""))) ("ERROR" ∷ "FAILED" ∷ [])
      then cons
          (obj (
            field "code" (str "CONTROLLER_ERROR") (
              field "severity" (str "ERROR") (
                field "message"
                  (str (to_text (or_else (get "error" status) (str "Go2 controller error"))))
                  end))))
          nil
      else nil

  abbrev pub incidents_reply : Dict → Dict → Go2 → Result Dict × Go2
  incidents_reply request status s =
      (ok (go2_reply request true (field "incidents" (arr (incidents_of status)) end)), s)

  -- The answer to `job.status` once the bridge's status is known.
  abbrev pub status_reply : Dict → Go2Job → Dict → Go2 → Result Dict × Go2
  status_reply request job bridge_status s =
      let state = if job.state == "RUNNING" then map_bridge_state bridge_status else job.state in
      (
        ok (
            go2_reply request true
              (go2_report state (field "bridgeStatus" (obj bridge_status) end))),
        record s { current_job = some (record job { state = state }) },
      )

  -- The message `job.status`.
  abbrev pub go2_status : Dict → Option Go2Job → Go2 → Result Dict × Go2
  go2_status request none s = (ok (go2_refuse request "Job not found"), s)
  go2_status request (some job) s =
      let asked = with_response (bridge_request get_status s) (status_reply request job) in
      if not (py_eq (get "jobId" request) job.id)
      then (ok (go2_refuse request "Job not found"), s)
      else if job.state == "RUNNING"
      then asked
      else status_reply request job end s

  abbrev pub cancel_reply : String → Dict → Go2Job → Dict → Go2 → Result Dict × Go2
  cancel_reply bridge_url request job _ s = (
    ok (go2_reply request true (go2_report "CANCELLED" (url_data bridge_url))),
    record s { current_job = some (record job { state = "CANCELLED" }) },
  )

  -- The message `job.cancel`.
  abbrev pub go2_cancel : String → Dict → Option Go2Job → Go2 → Result Dict × Go2
  go2_cancel bridge_url request none s = (ok (go2_refuse request "Job not found"), s)
  go2_cancel bridge_url request (some job) s =
      let asked =
        with_response (bridge_request post_cancel s) (cancel_reply bridge_url request job) in
      if not (py_eq (get "jobId" request) job.id)
      then (ok (go2_refuse request "Job not found"), s)
      else asked

  module _ (parse_float : String → Option Float) (bridge_url : String) where
    -- `job.start` once the required capabilities are known to be there or not.
    unfoldable pub go2_start_job : Dict → Dict → Bool → Go2 → Result Dict × Go2
    unfolding mem command_of
    go2_start_job request job fits s =
        let job_type = upper_text (or_else (get "type" job) (str "")) in
        let parameters = or_else (get "parameters" job) (obj end) in
        if not (truthy (get "id" job)) || not (mem job_type wheel_job_types)
        then (ok (go2_refuse request "Unsupported or invalid Go2 job"), s)
        else if not fits
        then (ok (go2_refuse request "Required capability is not available"), s)
        else if not (job_type == "STOP") && is_running s.current_job
        then (ok (go2_refuse request "Another job is already running"), s)
        else send_command bridge_url request (get "id" job) job_type s
            (command_of parse_float job_type parameters)

    abbrev pub go2_with_required : Dict → Dict → Result Bool → Go2 → Result Dict × Go2
    go2_with_required request job (err e) s = (err e, s)
    go2_with_required request job (ok fits) s = go2_start_job request job fits s

    -- The message `job.start`.
    abbrev pub go2_start : Dict → Option Dict → Go2 → Result Dict × Go2
    go2_start request none s = (err other_exception, s)
    go2_start request (some job) s =
        go2_with_required request job (required_known (get "requiredCapabilities" job)) s

    -- `handle`
    unfoldable pub go2_handle : Dict → Go2 → Result Dict × Go2
    unfolding bridge_request map_bridge_state go2_start_job required_known
    go2_handle request s =
        if not (is_text wheel_protocol (get "protocol" request))
        then (ok (go2_refuse request "Unsupported protocol"), s)
        else if is_text "capabilities.get" (get "type" request)
        then (
          ok (
              go2_reply request true (
                field "capabilities" (arr (of_texts wheel_capabilities)) (
                  field "jobTypes" (arr (of_texts wheel_job_types)) (
                    field "adapter"
                      (obj (field "id" (str "go2") (field "version" (str "1.1.0") end))) end)))),
          s,
        )
        else if is_text "telemetry.get" (get "type" request)
        then with_response (bridge_request get_status s) (telemetry_reply request)
        else if is_text "incidents.get" (get "type" request)
        then with_response (bridge_request get_status s) (incidents_reply request)
        else if is_text "job.start" (get "type" request)
        then go2_start request (as_dict (or_else (get "job" request) (obj end))) s
        else if is_text "job.status" (get "type" request)
        then go2_status request s.current_job s
        else if is_text "job.cancel" (get "type" request)
        then go2_cancel bridge_url request s.current_job s
        else (ok (go2_refuse request "Unsupported message type"), s)

    -- The answer of the main loop to a request; `message` is `str` of an exception.
    abbrev go2_answered : (Failure → String) → Dict → Result Dict × Go2 → Dict × Go2
    go2_answered message request (ok d, s) = (d, s)
    go2_answered message request (err e, s) = (go2_refuse request (message e), s)

    -- One line of the main loop: no JSON, or a value; none where the loop itself raises, because
    -- `respond` is given a value that is no dictionary.
    unfoldable pub go2_serve_line : (Failure → String) → Option Json → Go2 → Option (Dict × Go2)
    unfolding go2_handle
    go2_serve_line message none s = some (go2_answered message end (err other_exception, s))
    go2_serve_line message (some v) s = elim (as_dict v) [
      | none ↦ none
      | some request ↦ some (go2_answered message request (go2_handle request s))
    ]

    -- The lines of the input, up to the end or to an exception of the loop: the answers and the state.
    unfoldable pub go2_serve : (Failure → String) → List (Option Json) → Go2 → List Dict × Go2
    unfolding go2_serve_line
    go2_serve message [] s = ([], s)
    go2_serve message (line ∷ lines) s = elim (go2_serve_line message line s) [
      | none ↦ ([], s)
      | some (d, s') ↦ let (ds, s'') = go2_serve message lines s' in (d ∷ ds, s'')
    ]

    -- `main`
    unfoldable pub go2_main : (Failure → String) → List (Option Json) → Go2 → List Dict × Go2
    unfolding go2_serve stop_active_job
    go2_main message lines s = let (ds, s') = go2_serve message lines s in (ds, stop_active_job s')
