-- ===== src/Wheel/Duration.antt =====
-- The deadlines of the jobs of adapters/mock-wheel/adapter.py.
use roc_robot_sdk.Py.Float.{min_float, max_float, nan, neg_inf, pos_inf, fin, Float}
use roc_robot_sdk.Base.Int.{ℤ, pos, negsuc, ltb_ℤ}
use roc_robot_sdk.Wheel.{
  units_of, wheel_protocol, wheel_job_types, WheelJob, refreshed, refresh_state, required_known,
  clamped, duration_of, parameter_of, of_duration, status, cancel, start_job, with_required,
  with_job, start, handle,
}
use native.Mathlib.Nat.{le_refl}
use roc_robot_sdk.Py.Number.{to_float}
use roc_robot_sdk.Failure.{
  Result, ok, err, other_exception, Ensures, Ensures-ok, Ensures-err, Ensures-bind,
}
use roc_robot_sdk.Base.{
  false, ℕ, ◌+◌, ◌*◌, ◌^◌, ◌≤◌, String, ◌≡◌, refl, eq_iff, ◌⊎◌, inl, inr, Bool, not, ◌&&◌, ◌||◌,
  Option, none, some, arith, leb, Bool-cases, ◌==◌, mem,
}
use roc_robot_sdk.Py.Json.{str, obj, Dict, end, get, truthy, or_else, is_text, as_dict, py_eq, Json}
use roc_robot_sdk.Py.Text.{PyText, upper_text}
use roc_robot_sdk.Wheel.Reports.{if-either}

between :
    (lo hi : ℕ) (k : ℤ)
    → lo ≤ hi
    → let n = units_of (max_float (fin (pos lo)) (min_float (fin k) (fin (pos hi)))) in
      (lo ≤ n) × (n ≤ hi)
between lo hi (pos m) h = elim (Bool-cases (ltb_ℤ (pos hi) (pos m))) [
  | inl e ↦ elim (Bool-cases (ltb_ℤ (pos lo) (pos hi))) [
    | inl f ↦ rw (e, f) (h, le_refl hi)
    | inr f ↦ rw (e, f) (le_refl lo, h)
  ]
  | inr e ↦ elim (Bool-cases (ltb_ℤ (pos lo) (pos m))) [
    | inl f ↦ rw (e, f) (ground arith, ground arith)
    | inr f ↦ rw (e, f) (le_refl lo, h)
  ]
]
between lo hi (negsuc m) h =
    let not_above : ltb_ℤ (pos hi) (negsuc m) ≡ false = ground arith in
    let not_over : ltb_ℤ (pos lo) (negsuc m) ≡ false = ground arith in
    rw (not_above, not_over) (le_refl lo, h)

-- Between 0.01 and 30.0 seconds.
abbrev IsDuration : ℕ → Type 0
IsDuration n = (5764607523034235 * 2 ^ 1015 ≤ n) × (n ≤ 30 * 2 ^ 1074)

clamped-IsDuration : (duration : Float) → Ensures IsDuration (clamped duration)
unfolding clamped
clamped-IsDuration (fin k) =
    Ensures-ok _ (between (5764607523034235 * 2 ^ 1015) (30 * 2 ^ 1074) k (omega arith))
clamped-IsDuration nan = Ensures-err other_exception
clamped-IsDuration neg_inf = Ensures-err other_exception
clamped-IsDuration pos_inf = Ensures-err other_exception

-- The deadline is that of the job of before.
abbrev IsOld : Option WheelJob → ℕ → Type 0
IsOld none deadline = ⊥
IsOld (some job) deadline = deadline ≡ job.deadline

-- A job that is no longer the one of before is a STOP, which is over, or runs from now on for at least
-- 0.01 and at most 30.0 seconds.
abbrev pub IsTimed : ℕ → Option WheelJob → Option WheelJob → Type 0
IsTimed now wheel none = Unit
IsTimed now wheel (some job) =
    IsOld wheel job.deadline
    ⊎ ((job.job_type ≡ "STOP") × (job.state ≡ "SUCCEEDED"))
    ⊎ ((job.state ≡ "RUNNING")
        × (now + 5764607523034235 * 2 ^ 1015 ≤ job.deadline)
        × (job.deadline ≤ now + 30 * 2 ^ 1074))

module _ (now : ℕ) where
  abbrev Leaves : Option WheelJob → Result Dict × Option WheelJob → Type 0
  Leaves wheel x = IsTimed now wheel x.1

  kept-IsTimed : (wheel : Option WheelJob) → IsTimed now wheel wheel
  kept-IsTimed none = tt
  kept-IsTimed (some job) = inl refl

  refreshed-deadline : (job : WheelJob) → (refreshed now job).deadline ≡ job.deadline
  unfolding refreshed
  refreshed-deadline job = elim (Bool-cases (job.state == "RUNNING" && leb job.deadline now)) [
    | inl e ↦ rw e refl
    | inr e ↦ rw e refl
  ]

  refresh_state-IsTimed : (wheel : Option WheelJob) → IsTimed now wheel (refresh_state now wheel).1
  unfolding refresh_state
  refresh_state-IsTimed none = tt
  refresh_state-IsTimed (some job) = inl (refreshed-deadline job)

  status-IsTimed :
      (request : Dict) (wheel : Option WheelJob) → Leaves wheel (status now request wheel)
  unfolding status
  status-IsTimed request none = tt
  status-IsTimed request (some job) =
      if-either (Leaves (some job)) (py_eq (get "jobId" request) job.id)
        (inl (refreshed-deadline job)) (inl refl)

  cancel-IsTimed : (request : Dict) (wheel : Option WheelJob) → Leaves wheel (cancel request wheel)
  unfolding cancel
  cancel-IsTimed request none = tt
  cancel-IsTimed request (some job) =
      if-either (Leaves (some job)) (py_eq (get "jobId" request) job.id) (inl refl) (inl refl)

  module _ ⦃t : PyText⦄ (parse_float : String → Option Float) where
    duration_of-IsDuration :
        (job_type : String) (job : Dict)
        → (job_type == "STOP") ≡ false
        → Ensures IsDuration (duration_of parse_float job_type job)
    unfolding duration_of
    duration_of-IsDuration job_type job e = rw e (
        Ensures-bind (parameter_of job) _
          λ v p. Ensures-bind (to_float parse_float v) _ λ duration q. clamped-IsDuration duration)

    of_duration-IsTimed :
        (request : Dict) (id : Json) (job_type : String) (job : Dict) (wheel : Option WheelJob)
        → Leaves wheel (
            of_duration now request id job_type
              (refresh_state now wheel).1
              (duration_of parse_float job_type job))
    unfolding duration_of
    of_duration-IsTimed request id job_type job wheel = elim (Bool-cases (job_type == "STOP")) [
      | inl stop ↦ rw stop (inr (inl ((eq_iff job_type "STOP").0 stop, rw stop refl)))
      | inr moves ↦
          running (duration_of parse_float job_type job) moves
            (duration_of-IsDuration job_type job moves)
    ]
      where
        running :
            (r : Result ℕ)
            → (job_type == "STOP") ≡ false
            → Ensures IsDuration r
            → Leaves wheel (of_duration now request id job_type (refresh_state now wheel).1 r)
        running (err e) moves h = refresh_state-IsTimed wheel
        running (ok n) moves h =
            let fits = h.of_ok n refl in
            rw moves (inr (inr (refl, omega (arith, fits.0), omega (arith, fits.1))))

    start_job-IsTimed :
        (request job : Dict) (fits : Bool) (wheel : Option WheelJob)
        → Leaves wheel (start_job parse_float now request job fits wheel)
    unfolding start_job
    start_job-IsTimed request job fits wheel =
        let kind = upper_text (or_else (get "type" job) (str "")) in
        if-either (Leaves wheel) (not (truthy (get "id" job)) || not (mem kind wheel_job_types))
          (kept-IsTimed wheel)
          (if-either (Leaves wheel) (not fits) (kept-IsTimed wheel) (
            if-either (Leaves wheel) ((refresh_state now wheel).0 == "RUNNING")
              (refresh_state-IsTimed wheel)
              (of_duration-IsTimed request (get "id" job) kind job wheel)))

    with_job-IsTimed :
        (request : Dict) (o : Option Dict) (wheel : Option WheelJob)
        → Leaves wheel (with_job parse_float now request o wheel)
    with_job-IsTimed request none wheel = kept-IsTimed wheel
    with_job-IsTimed request (some job) wheel =
        fitting (required_known (get "requiredCapabilities" job))
      where
        fitting :
            (r : Result Bool) → Leaves wheel (with_required parse_float now request job r wheel)
        fitting (err e) = kept-IsTimed wheel
        fitting (ok fits) = start_job-IsTimed request job fits wheel

    -- Whatever the request is, and whichever job there was: the job after `handle` has the deadline of
    -- the one of before, or it is a STOP, which is over, or it runs from now on for at least 0.01 and at
    -- most 30.0 seconds.
    pub handle-IsTimed :
        (request : Dict) (wheel : Option WheelJob)
        → IsTimed now wheel (handle parse_float now request wheel).1
    unfolding handle start
    handle-IsTimed request wheel =
        if-either (Leaves wheel) (not (is_text wheel_protocol (get "protocol" request)))
          (kept-IsTimed wheel)
          (if-either (Leaves wheel) (is_text "capabilities.get" (get "type" request))
            (kept-IsTimed wheel)
            (if-either (Leaves wheel) (is_text "telemetry.get" (get "type" request))
              (refresh_state-IsTimed wheel)
              (if-either (Leaves wheel) (is_text "incidents.get" (get "type" request))
                (kept-IsTimed wheel)
                (if-either (Leaves wheel) (is_text "job.start" (get "type" request))
                  (with_job-IsTimed request (as_dict (or_else (get "job" request) (obj end))) wheel)
                  (if-either (Leaves wheel) (is_text "job.status" (get "type" request))
                    (status-IsTimed request wheel)
                    (if-either (Leaves wheel) (is_text "job.cancel" (get "type" request))
                      (cancel-IsTimed request wheel) (kept-IsTimed wheel)))))))
