-- ===== src/Wheel/Running.antt =====
-- A running job of adapters/mock-wheel/adapter.py.
use roc_robot_sdk.Py.Float.{Float}
use roc_robot_sdk.Wheel.{
  wheel_protocol, wheel_job_types, WheelJob, refreshed, refresh_state, required_known, status,
  cancel, start_job, with_required, with_job, start, handle,
}
use roc_robot_sdk.Failure.{Result, ok, err}
use roc_robot_sdk.Base.{
  ◌∙◌, true, false, eq_iff, if◌then◌else◌, ℕ, ◌<◌, String, ◌≡◌, refl, ap, ◌⊎◌, inl, inr, Bool, not,
  ◌&&◌, ◌||◌, Option, none, some, arith, leb, Bool-cases, ◌==◌, mem,
}
use roc_robot_sdk.Py.Json.{str, obj, Dict, end, get, truthy, or_else, is_text, as_dict, py_eq}
use roc_robot_sdk.Py.Text.{PyText, upper_text}
use roc_robot_sdk.Wheel.Reports.{if-either}

-- The job is as it was, or cancelled.
abbrev pub IsKept : WheelJob → Option WheelJob → Type 0
IsKept job wheel = (wheel ≡ some job) ⊎ (wheel ≡ some (record job { state = "CANCELLED" }))

if-holds {ℓ κ} :
    {A : Type ℓ} (P : A → Type κ) (b : Bool) {x : A} (y : A)
    → b ≡ true
    → P x
    → P (if b then x else y)
if-holds P true y h p = p
if-holds P false y h p = absurd (cc h)

abbrev Leaves : WheelJob → Result Dict × Option WheelJob → Type 0
Leaves job x = IsKept job x.1

module _ (now : ℕ) (job : WheelJob) (early : now < job.deadline) where
  refreshed_lem : refreshed now job ≡ job
  unfolding refreshed
  refreshed_lem = elim (Bool-cases (job.state == "RUNNING" && leb job.deadline now)) [
    | inl e ↦ absurd (ground arith)
    | inr e ↦ rw e refl
  ]

  status-IsKept : (request : Dict) → Leaves job (status now request (some job))
  unfolding status
  status-IsKept request =
      if-either (Leaves job) (py_eq (get "jobId" request) job.id)
        (inl (ap (λ (j : WheelJob). some j) refreshed_lem)) (inl refl)

  cancel-IsKept : (request : Dict) → Leaves job (cancel request (some job))
  unfolding cancel
  cancel-IsKept request =
      if-either (Leaves job) (py_eq (get "jobId" request) job.id) (inr refl) (inl refl)

  module _ ⦃t : PyText⦄ (parse_float : String → Option Float)
      (running : job.state ≡ "RUNNING") where
    start_job-IsKept :
        (request d : Dict) (fits : Bool)
        → Leaves job (start_job parse_float now request d fits (some job))
    unfolding start_job refresh_state
    start_job-IsKept request d fits =
        let kind = upper_text (or_else (get "type" d) (str "")) in
        if-either (Leaves job) (not (truthy (get "id" d)) || not (mem kind wheel_job_types))
          (inl refl)
          (if-either (Leaves job) (not fits) (inl refl) (
            if-holds (Leaves job) ((refreshed now job).state == "RUNNING") _ still
              (inl (ap (λ (j : WheelJob). some j) refreshed_lem))))
      where
        still : ((refreshed now job).state == "RUNNING") ≡ true
        still =
            (eq_iff (refreshed now job).state "RUNNING").1
              (ap (λ (j : WheelJob). j.state) refreshed_lem ∙ running)

    with_job-IsKept :
        (request : Dict) (o : Option Dict)
        → Leaves job (with_job parse_float now request o (some job))
    with_job-IsKept request none = inl refl
    with_job-IsKept request (some d) = fitting (required_known (get "requiredCapabilities" d))
      where
        fitting :
            (r : Result Bool) → Leaves job (with_required parse_float now request d r (some job))
        fitting (err e) = inl refl
        fitting (ok fits) = start_job-IsKept request d fits

    -- While a job runs and its time is not over, no request displaces it: `handle` leaves the job as it
    -- is, or cancelled.
    pub handle-IsKept : (request : Dict) → IsKept job (handle parse_float now request (some job)).1
    unfolding handle start refresh_state
    handle-IsKept request =
        if-either (Leaves job) (not (is_text wheel_protocol (get "protocol" request))) (inl refl) (
          if-either (Leaves job) (is_text "capabilities.get" (get "type" request)) (inl refl) (
            if-either (Leaves job) (is_text "telemetry.get" (get "type" request))
              (inl (ap (λ (j : WheelJob). some j) refreshed_lem))
              (if-either (Leaves job) (is_text "incidents.get" (get "type" request)) (inl refl) (
                if-either (Leaves job) (is_text "job.start" (get "type" request))
                  (with_job-IsKept request (as_dict (or_else (get "job" request) (obj end))))
                  (if-either (Leaves job) (is_text "job.status" (get "type" request))
                    (status-IsKept request)
                    (if-either (Leaves job) (is_text "job.cancel" (get "type" request))
                      (cancel-IsKept request) (inl refl)))))))
