-- ===== src/Tests/Adapters.antt =====
-- Tests of the mock adapter, and the theorems at its requests.
use roc_robot_sdk.Base.{
  ◌+◌, ◌*◌, ◌^◌, ◌≡◌, refl, none, some, arith, dedup, dedup_from, difference, insert_sorted,
  is_space, lstrip, mem, rcons, rstrip, sorted, strip, subset, text_leb,
}
use roc_robot_sdk.Tests.Data.{caseless}
use roc_robot_sdk.Py.Json.{
  int, str, arr, obj, nil, cons, Dict, end, field, get, get_or, is_number, is_text, is_true, keys,
  lookup, number_of, of_texts, or_else, put, same_number, size, texts_of, truthy,
}
use roc_robot_sdk.Py.Float.{of_ℤ}
use roc_robot_sdk.Wheel.{
  wheel_protocol, WheelJob, cancel, clamped, duration_of, handle, items_known, parameter_of,
  refresh_state, refreshed, refuse, required_known, respond, serve_line, start, start_job, status,
}
use roc_robot_sdk.Wheel.Reports.{IsReport, handle-IsReport}
use roc_robot_sdk.Wheel.Running.{IsKept, handle-IsKept}
use roc_robot_sdk.Wheel.Duration.{IsTimed, handle-IsTimed}
use roc_robot_sdk.Base.Int.{pos}
use roc_robot_sdk.Failure.{◌>>=◌ as bind_result}
use roc_robot_sdk.Py.Number.{to_float}
use roc_robot_sdk.Py.Text.{to_text, upper_text}

abbrev start_request : Dict
start_request = field "protocol" (str wheel_protocol) (
    field "requestId" (str "r1") (
      field "type" (str "job.start") (
        field "job"
          (obj (
            field "id" (str "j1") (
              field "type" (str "DELIVERY") (
                field "requiredCapabilities" (arr (cons (str "patrol") nil))
                  (field "parameters" (obj (field "durationSeconds" (int (pos 90)) end)) end)))))
          end)))

abbrev ride : WheelJob
ride = record {
  id = str "j1";
  job_type = "DELIVERY";
  state = "RUNNING";
  deadline = 1000 + 30 * 2 ^ 1074;
}

start_test : (handle ⦃t = caseless⦄ (λ s. none) 1000 start_request none).1 ≡ some ride
unfolding is_space lstrip rcons rstrip strip mem dedup_from dedup subset difference text_leb
    insert_sorted sorted to_float lookup get_or get put keys truthy or_else is_text is_true
    number_of same_number is_number texts_of of_texts size to_text upper_text of_ℤ bind_result
    respond refuse refreshed refresh_state items_known required_known clamped parameter_of
    duration_of status cancel start_job start handle serve_line
start_test = refl

handle-IsReport_example :
    IsReport start_request (handle ⦃t = caseless⦄ (λ s. none) 1000 start_request none)
handle-IsReport_example = handle-IsReport ⦃t = caseless⦄ (λ s. none) 1000 start_request none tt

handle-IsKept_example :
    IsKept ride (handle ⦃t = caseless⦄ (λ s. none) 2000 start_request (some ride)).1
handle-IsKept_example =
    handle-IsKept 2000 ride (omega arith) ⦃t = caseless⦄ (λ s. none) refl start_request

handle-IsTimed_example :
    IsTimed 1000 none (handle ⦃t = caseless⦄ (λ s. none) 1000 start_request none).1
handle-IsTimed_example = handle-IsTimed 1000 ⦃t = caseless⦄ (λ s. none) start_request none
