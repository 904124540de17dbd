-- ===== src/Wheel/Reports.antt =====
-- The answers of adapters/mock-wheel/adapter.py.
use roc_robot_sdk.Py.Json.{
  obj, end, as_dict, truthy, or_else, is_text, py_eq, Json, null, str, Dict, lookup, get_or, get,
}
use roc_robot_sdk.Base.{
  not, ◌||◌, mem, ℕ, String, ◌≡◌, refl, ◌⊎◌, inl, inr, Bool, true, false, ◌&&◌, Option, none, some,
  leb, if◌then◌else◌, Bool-cases, ◌==◌,
}
use roc_robot_sdk.Py.Text.{upper_text, PyText}
use roc_robot_sdk.Failure.{Failure, ok-injective, Result, ok, err}
use roc_robot_sdk.Wheel.{
  wheel_protocol, wheel_job_types, WheelJob, respond, refuse, refreshed, refresh_state,
  required_known, report, of_duration, start_job, with_required, with_job, start, status, cancel,
  handle,
}
use roc_robot_sdk.Py.Float.{Float}
use mathlib.Core.Path.{subst}
use roc_robot_sdk.Runtime.{is_reportable}
use roc_robot_sdk.Manifest.{protocol}

pub if-either {ℓ κ} :
    {A : Type ℓ} (P : A → Type κ) (b : Bool) {x y : A} → P x → P y → P (if b then x else y)
if-either P true p q = p
if-either P false p q = q

-- The job, if there is one, is in a state that the runtime accepts.
abbrev IsKnown : Option WheelJob → Type 0
IsKnown none = Unit
IsKnown (some job) = is_reportable job.state ≡ true

-- A response with the protocol and the request's id; a state that it names is accepted.
pub record IsConforming (request d : Dict) : Type 0 where
  pub of_protocol : get "protocol" d ≡ str protocol
  pub of_request : get "requestId" d ≡ get "requestId" request
  pub state :
      (get "state" d ≡ null) ⊎ ((s : String) × (get "state" d ≡ str s) × (is_reportable s ≡ true))

-- What `handle` returns: a conforming response or an exception, and a known job.
pub record IsReport (request : Dict) (x : Result Dict × Option WheelJob) : Type 0 where
  pub conforms : (d : Dict) → x.0 ≡ ok d → IsConforming request d
  pub known : IsKnown x.1

reports :
    {request d : Dict} {wheel : Option WheelJob}
    → IsConforming request d
    → IsKnown wheel
    → IsReport request (ok d, wheel)
reports {request} c k = record {
  conforms = λ d p. subst (IsConforming request) (ok-injective p) c;
  known = k;
}

raises :
    {request : Dict} {e : Failure} {wheel : Option WheelJob}
    → IsKnown wheel
    → IsReport request (err e, wheel)
raises k = record { conforms = λ d p. cc; known = k }

refuse-IsConforming : (request : Dict) (why : String) → IsConforming request (refuse request why)
unfolding refuse get get_or lookup
refuse-IsConforming request why = record { of_protocol = refl; of_request = refl; state = inl refl }

report-IsConforming :
    (request : Dict) (state : String) (detail : Dict)
    → is_reportable state ≡ true
    → IsConforming request (respond request true (report state detail))
unfolding respond get get_or lookup
report-IsConforming request state detail r = record {
  of_protocol = refl;
  of_request = refl;
  state = inr (state, refl, r);
}

refreshed-IsKnown :
    (now : ℕ) (job : WheelJob) → IsKnown (some job) → IsKnown (some (refreshed now job))
unfolding refreshed is_reportable
refreshed-IsKnown now job k = elim (Bool-cases (job.state == "RUNNING" && leb job.deadline now)) [
  | inl e ↦ rw e refl
  | inr e ↦ rw e k
]

refresh_state-IsKnown :
    (now : ℕ) (wheel : Option WheelJob) → IsKnown wheel → IsKnown (refresh_state now wheel).1
unfolding refresh_state
refresh_state-IsKnown now none k = k
refresh_state-IsKnown now (some job) k = refreshed-IsKnown now job k

of_duration-IsReport :
    (now : ℕ) (request : Dict) (id : Json) (job_type : String) (wheel : Option WheelJob)
    (r : Result ℕ)
    → IsKnown wheel
    → IsReport request (of_duration now request id job_type wheel r)
unfolding is_reportable
of_duration-IsReport now request id job_type wheel (err e) k = raises k
of_duration-IsReport now request id job_type wheel (ok n) k =
    reports (report-IsConforming request _ _ begun) begun
  where
    begun : is_reportable (if job_type == "STOP" then "SUCCEEDED" else "RUNNING") ≡ true
    begun = if-either (λ s. is_reportable s ≡ true) (job_type == "STOP") refl refl

refuses :
    (request : Dict) (why : String) {wheel : Option WheelJob}
    → IsKnown wheel
    → IsReport request (ok (refuse request why), wheel)
refuses request why k = reports (refuse-IsConforming request why) k

status-IsReport :
    (now : ℕ) (request : Dict) (wheel : Option WheelJob)
    → IsKnown wheel
    → IsReport request (status now request wheel)
unfolding status
status-IsReport now request none k = refuses request _ k
status-IsReport now request (some job) k =
    if-either (IsReport request) (py_eq (get "jobId" request) job.id)
      (reports (report-IsConforming request _ _ (refreshed-IsKnown now job k))
        (refreshed-IsKnown now job k))
      (refuses request _ k)

cancel-IsReport :
    (request : Dict) (wheel : Option WheelJob)
    → IsKnown wheel
    → IsReport request (cancel request wheel)
unfolding cancel is_reportable
cancel-IsReport request none k = refuses request _ k
cancel-IsReport request (some job) k =
    if-either (IsReport request) (py_eq (get "jobId" request) job.id)
      (reports (report-IsConforming request "CANCELLED" _ refl) refl) (refuses request _ k)

module _ ⦃t : PyText⦄ (parse_float : String → Option Float) (now : ℕ) where
  start_job-IsReport :
      (request job : Dict) (fits : Bool) (wheel : Option WheelJob)
      → IsKnown wheel
      → IsReport request (start_job parse_float now request job fits wheel)
  unfolding start_job
  start_job-IsReport request job fits wheel k =
      let job_type = upper_text (or_else (get "type" job) (str "")) in
      if-either (IsReport request)
        (not (truthy (get "id" job)) || not (mem job_type wheel_job_types))
        (refuses request "Unsupported or invalid job" k)
        (if-either (IsReport request) (not fits)
          (refuses request "Required capability is not available" k)
          (if-either (IsReport request) ((refresh_state now wheel).0 == "RUNNING")
            (refuses request "Another job is already running" (refresh_state-IsKnown now wheel k))
            (of_duration-IsReport now request _ _ _ _ (refresh_state-IsKnown now wheel k))))

  with_job-IsReport :
      (request : Dict) (o : Option Dict) (wheel : Option WheelJob)
      → IsKnown wheel
      → IsReport request (with_job parse_float now request o wheel)
  with_job-IsReport request none wheel k = raises k
  with_job-IsReport request (some job) wheel k =
      fitting (required_known (get "requiredCapabilities" job))
    where
      fitting :
          (r : Result Bool) → IsReport request (with_required parse_float now request job r wheel)
      fitting (err e) = raises k
      fitting (ok fits) = start_job-IsReport request job fits wheel k

  plain-IsConforming :
      (request payload : Dict)
      → get "state" payload ≡ null
      → IsConforming request (respond request true payload)
  unfolding respond get get_or lookup
  plain-IsConforming request payload q = record {
    of_protocol = refl;
    of_request = refl;
    state = inl q;
  }

  -- From a state in which the job's state is one that the runtime accepts, `handle` leaves such a
  -- state, and what it answers has the runtime's protocol and the request's id, and names no state
  -- that the runtime would refuse.
  pub handle-IsReport :
      (request : Dict) (wheel : Option WheelJob)
      → IsKnown wheel
      → IsReport request (handle parse_float now request wheel)
  unfolding handle start get get_or lookup
  handle-IsReport request wheel k =
      if-either (IsReport request) (not (is_text wheel_protocol (get "protocol" request)))
        (refuses request "Unsupported protocol" k)
        (if-either (IsReport request) (is_text "capabilities.get" (get "type" request))
          (reports (plain-IsConforming request _ refl) k)
          (if-either (IsReport request) (is_text "telemetry.get" (get "type" request))
            (reports (plain-IsConforming request _ refl) (refresh_state-IsKnown now wheel k))
            (if-either (IsReport request) (is_text "incidents.get" (get "type" request))
              (reports (plain-IsConforming request _ refl) k)
              (if-either (IsReport request) (is_text "job.start" (get "type" request))
                (with_job-IsReport request (as_dict (or_else (get "job" request) (obj end))) wheel
                  k)
                (if-either (IsReport request) (is_text "job.status" (get "type" request))
                  (status-IsReport now request wheel k)
                  (if-either (IsReport request) (is_text "job.cancel" (get "type" request))
                    (cancel-IsReport request wheel k)
                    (refuses request "Unsupported message type" k)))))))
