-- ===== src/Go2/Motion.antt =====
-- The calls of the bridge that adapters/go2/runtime_adapter.py makes for a request.
use roc_robot_sdk.Bridge.{
  BridgeCall, get_status, post_cancel, Go2Job, Go2, bridge_request, with_response, is_running,
  after_stop, stop_active_job, command_of,
}
use roc_robot_sdk.Go2.{
  started, send_command, telemetry_reply, incidents_reply, status_reply, go2_status, cancel_reply,
  go2_cancel, go2_start_job, go2_with_required, go2_start, go2_handle, go2_serve, go2_main,
}
use roc_robot_sdk.Base.{
  ◌⊎◌, List, [], String, ◌≡◌, refl, inl, inr, Bool, true, false, not, ◌&&◌, ◌||◌, Option, none,
  some, ◌∷◌, arith, Bool-cases, ◌==◌, mem,
}
use roc_robot_sdk.Failure.{Failure, Result, ok, err, Ensures}
use roc_robot_sdk.Py.Json.{Json, str, obj, Dict, end, get, truthy, or_else, is_text, as_dict, py_eq}
use roc_robot_sdk.Py.Text.{PyText, upper_text}
use roc_robot_sdk.Py.Float.{Float}
use roc_robot_sdk.Wheel.{wheel_protocol, wheel_job_types, required_known}
use roc_robot_sdk.Wheel.Reports.{if-either}
use roc_robot_sdk.Go2.Commands.{IsLimited, is_motion, Commands, command_of-IsFit}

quiet : {s : Go2} {r : Result Dict} → Commands s (r, s)
quiet = record { cases = inl refl }

answered-Commands :
    (s : Go2) (c : BridgeCall) (r : Result Dict) (k : Dict → Go2 → Result Dict × Go2)
    → IsLimited c
    → is_motion c ≡ false
    → ((d : Dict) (s' : Go2) → (k d s').1.calls ≡ s'.calls)
    → Commands s (with_response (r, record s { calls = c ∷ s.calls }) k)
answered-Commands s c (err e) k l m same = record { cases = inr (c, refl, l, λ h. m) }
answered-Commands s c (ok d) k l m same = record { cases = inr (c, same d _, l, λ h. m) }

-- A request that asks the bridge for one thing that is no motion.
asks :
    (s : Go2) (c : BridgeCall) (k : Dict → Go2 → Result Dict × Go2)
    → IsLimited c
    → is_motion c ≡ false
    → ((d : Dict) (s' : Go2) → (k d s').1.calls ≡ s'.calls)
    → Commands s (with_response (bridge_request c s) k)
unfolding bridge_request
asks s c k l m same = answered-Commands s c _ k l m same

started-Commands :
    (bridge_url : String) (request : Dict) (id : Json) (job_type : String) (s : Go2)
    (c : BridgeCall) (r : Result Dict)
    → IsLimited c
    → (is_running s.current_job ≡ true → is_motion c ≡ false)
    → Commands s (started bridge_url request id job_type (r, record s { calls = c ∷ s.calls }))
started-Commands bridge_url request id job_type s c (err e) l m = record {
  cases = inr (c, refl, l, m);
}
started-Commands bridge_url request id job_type s c (ok d) l m = record {
  cases = inr (c, refl, l, m);
}

send_command-Commands :
    (bridge_url : String) (request : Dict) (id : Json) (job_type : String) (s : Go2)
    (r : Result BridgeCall)
    → Ensures (λ c. IsLimited c × (is_running s.current_job ≡ true → is_motion c ≡ false)) r
    → Commands s (send_command bridge_url request id job_type s r)
unfolding bridge_request
send_command-Commands bridge_url request id job_type s (err e) h = quiet
send_command-Commands bridge_url request id job_type s (ok c) h =
    started-Commands bridge_url request id job_type s c _ (h.of_ok c refl).0 (h.of_ok c refl).1

module _ ⦃t : PyText⦄ where
  go2_status-Commands :
      (request : Dict) (o : Option Go2Job) (s : Go2) → Commands s (go2_status request o s)
  go2_status-Commands request none s = quiet
  go2_status-Commands request (some job) s =
      if-either (Commands s) (not (py_eq (get "jobId" request) job.id)) quiet (
        if-either (Commands s) (job.state == "RUNNING")
          (asks s get_status (status_reply request job) tt refl (λ d s'. refl))
          (record { cases = inl refl }))

  go2_cancel-Commands :
      (bridge_url : String) (request : Dict) (o : Option Go2Job) (s : Go2)
      → Commands s (go2_cancel bridge_url request o s)
  go2_cancel-Commands bridge_url request none s = quiet
  go2_cancel-Commands bridge_url request (some job) s =
      if-either (Commands s) (not (py_eq (get "jobId" request) job.id)) quiet
        (asks s post_cancel (cancel_reply bridge_url request job) tt refl (λ d s'. refl))

  module _ (parse_float : String → Option Float) (bridge_url : String) where
    -- A command that passes the guard against a second job.
    guarded-IsFit :
        (job_type : String) (parameters : Json) (s : Go2)
        → (not (job_type == "STOP") && is_running s.current_job) ≡ false
        → Ensures
            (λ c. IsLimited c × (is_running s.current_job ≡ true → is_motion c ≡ false))
            (command_of parse_float job_type parameters)
    guarded-IsFit job_type parameters s free = record {
      of_ok = λ c p.
          let fit = (command_of-IsFit parse_float job_type parameters).of_ok c p in
          (
            fit.0,
            λ running. fit.1 (stops (job_type == "STOP") (is_running s.current_job) free running),
          );
    }
      where
        stops : (a b : Bool) → (not a && b) ≡ false → b ≡ true → a ≡ true
        stops a b f r = ground arith

    go2_start_job-Commands :
        (request job : Dict) (fits : Bool) (s : Go2)
        → Commands s (go2_start_job parse_float bridge_url request job fits s)
    unfolding go2_start_job
    go2_start_job-Commands request job fits s =
        let job_type = upper_text (or_else (get "type" job) (str "")) in
        if-either (Commands s) (not (truthy (get "id" job)) || not (mem job_type wheel_job_types))
          quiet
          (if-either (Commands s) (not fits) quiet
            (elim (Bool-cases (not (job_type == "STOP") && is_running s.current_job)) [
              | inl e ↦ rw e quiet
              | inr e ↦ rw e (
                  send_command-Commands bridge_url request (get "id" job) job_type s
                    (command_of parse_float job_type (or_else (get "parameters" job) (obj end)))
                    (guarded-IsFit job_type _ s e))
            ]))

    go2_start-Commands :
        (request : Dict) (o : Option Dict) (s : Go2)
        → Commands s (go2_start parse_float bridge_url request o s)
    go2_start-Commands request none s = quiet
    go2_start-Commands request (some job) s =
        fitting (required_known (get "requiredCapabilities" job))
      where
        fitting :
            (r : Result Bool)
            → Commands s (go2_with_required parse_float bridge_url request job r s)
        fitting (err e) = quiet
        fitting (ok fits) = go2_start_job-Commands request job fits s

    -- Whatever the request and the bridge's replies: `handle` makes at most one call of the bridge; a
    -- distance or time that it commands is within its limits, and while a job is running it commands
    -- no motion.
    pub go2_handle-Commands :
        (request : Dict) (s : Go2) → Commands s (go2_handle parse_float bridge_url request s)
    unfolding go2_handle
    go2_handle-Commands request s =
        if-either (Commands s) (not (is_text wheel_protocol (get "protocol" request))) quiet (
          if-either (Commands s) (is_text "capabilities.get" (get "type" request)) quiet (
            if-either (Commands s) (is_text "telemetry.get" (get "type" request))
              (asks s get_status (telemetry_reply request) tt refl (λ d s'. refl))
              (if-either (Commands s) (is_text "incidents.get" (get "type" request))
                (asks s get_status (incidents_reply request) tt refl (λ d s'. refl))
                (if-either (Commands s) (is_text "job.start" (get "type" request))
                  (go2_start-Commands request (as_dict (or_else (get "job" request) (obj end))) s)
                  (if-either (Commands s) (is_text "job.status" (get "type" request))
                    (go2_status-Commands request s.current_job s)
                    (if-either (Commands s) (is_text "job.cancel" (get "type" request))
                      (go2_cancel-Commands bridge_url request s.current_job s) quiet))))))

-- The call that was made last.
abbrev pub last_call : List BridgeCall → Option BridgeCall
last_call [] = none
last_call (c ∷ cs) = some c

after_stop_lem :
    (r : Result Dict) (s : Go2) (o : Option Go2Job)
    → (is_running (after_stop (r, s) o).current_job ≡ false)
      ⊎ (last_call (after_stop (r, s) o).calls ≡ last_call s.calls)
after_stop_lem (ok d) s none = inr refl
after_stop_lem (ok d) s (some job) = inl refl
after_stop_lem (err e) s o = inr refl

stop_active_job_lem :
    (s : Go2)
    → (is_running (stop_active_job s).current_job ≡ false)
      ⊎ (last_call (stop_active_job s).calls ≡ some post_cancel)
unfolding stop_active_job bridge_request
stop_active_job_lem s = elim (Bool-cases (is_running s.current_job)) [
  | inl e ↦ rw e (
      after_stop_lem (bridge_request post_cancel s).0 (bridge_request post_cancel s).1
        s.current_job)
  | inr e ↦ rw e (inl e)
]

-- The Go2 adapter ends with no job running, or with a cancellation as its last call of the bridge,
-- whatever lines it is given and even if its loop raises.
pub go2_main_lem :
    ⦃t : PyText⦄ (parse_float : String → Option Float) (bridge_url : String)
    (message : Failure → String) (lines : List (Option Json)) (s : Go2)
    → (is_running (go2_main parse_float bridge_url message lines s).1.current_job ≡ false)
      ⊎ (last_call (go2_main parse_float bridge_url message lines s).1.calls ≡ some post_cancel)
unfolding go2_main
go2_main_lem parse_float bridge_url message lines s =
    stop_active_job_lem (go2_serve parse_float bridge_url message lines s).1
