-- ===== src/Tests/Robots.antt =====
-- Tests of the Go2 adapter, and the theorems at its requests.
use roc_robot_sdk.Base.{
  String, ◌≡◌, refl, ◌⊎◌, false, none, some, [], ◌∷◌, dedup, dedup_from, difference, insert_sorted,
  is_space, lstrip, mem, rcons, rstrip, sorted, strip, subset, text_leb,
}
use roc_robot_sdk.Tests.Data.{caseless}
use roc_robot_sdk.Py.Json.{
  int, str, obj, Dict, end, field, get, get_or, is_number, is_text, is_true, keys, lookup,
  number_of, of_texts, or_else, put, same_number, size, texts_of, truthy,
}
use roc_robot_sdk.Py.Float.{of_ℕ, of_ℤ}
use roc_robot_sdk.Wheel.{
  wheel_protocol, cancel, clamped, duration_of, handle, items_known, parameter_of, refresh_state,
  refreshed, refuse, required_known, respond, serve_line, start, start_job, status,
}
use roc_robot_sdk.Bridge.{
  post_cancel, patrol_inspection, replied, Go2, is_running, bounded_parameter, bounded_value,
  bridge_request, command_of, stop_active_job,
}
use roc_robot_sdk.Go2.Commands.{Commands}
use roc_robot_sdk.Go2.Motion.{go2_handle-Commands, last_call, go2_main_lem}
use roc_robot_sdk.Base.Int.{pos}
use roc_robot_sdk.Py.Number.{to_float}
use roc_robot_sdk.Py.Text.{to_text, upper_text}
use roc_robot_sdk.Failure.{◌>>=◌ as bind_result}
use roc_robot_sdk.Go2.{
  go2_handle, go2_main, go2_serve, go2_serve_line, go2_start_job, map_bridge_state,
}

abbrev go2_request : String → Dict → Dict
go2_request kind rest =
    field "protocol" (str wheel_protocol)
      (field "requestId" (str "r1") (field "type" (str kind) rest))

abbrev patrol_request : Dict
patrol_request = go2_request "job.start" (
    field "job"
      (obj (
        field "id" (str "j1") (
          field "type" (str "PATROL")
            (field "parameters" (obj (field "distanceMeters" (int (pos 90)) end)) end))))
      end)

-- A bridge that takes every call.
abbrev willing : Go2
willing = record { current_job = none; replies = λ n. replied (obj end); calls = [] }

abbrev walking : Go2
walking = record willing {
  current_job = some (record { id = str "j0"; job_type = "PATROL"; state = "RUNNING" });
}

-- A distance of 90 metres is cut to 20.
patrol_test :
    (go2_handle ⦃t = caseless⦄ (λ s. none) "" patrol_request willing).1.calls
    ≡ patrol_inspection (of_ℕ 20) (of_ℕ 9) ∷ []
unfolding is_space lstrip rcons rstrip strip mem dedup_from dedup subset difference text_leb
    insert_sorted sorted to_float lookup get_or get put keys truthy or_else is_text is_true
    number_of same_number is_number texts_of of_texts size to_text upper_text of_ℤ bind_result
    respond refuse refreshed refresh_state items_known required_known clamped parameter_of
    duration_of status cancel start_job start handle serve_line bridge_request bounded_value
    stop_active_job bounded_parameter command_of map_bridge_state go2_start_job go2_handle
    go2_serve_line go2_serve go2_main
patrol_test = refl

busy_test : (go2_handle ⦃t = caseless⦄ (λ s. none) "" patrol_request walking).1.calls ≡ []
unfolding is_space lstrip rcons rstrip strip mem dedup_from dedup subset difference text_leb
    insert_sorted sorted to_float lookup get_or get put keys truthy or_else is_text is_true
    number_of same_number is_number texts_of of_texts size to_text upper_text of_ℤ bind_result
    respond refuse refreshed refresh_state items_known required_known clamped parameter_of
    duration_of status cancel start_job start handle serve_line bridge_request bounded_value
    stop_active_job bounded_parameter command_of map_bridge_state go2_start_job go2_handle
    go2_serve_line go2_serve go2_main
busy_test = refl

go2_handle-Commands_example :
    Commands willing (go2_handle ⦃t = caseless⦄ (λ s. none) "" patrol_request willing)
go2_handle-Commands_example =
    go2_handle-Commands ⦃t = caseless⦄ (λ s. none) "" patrol_request willing

go2_main_lem_example :
    (is_running
        (go2_main ⦃t = caseless⦄
          (λ s. none)
          ""
          (λ e. "")
          (some (obj patrol_request) ∷ [])
          willing).1.current_job
      ≡ false)
    ⊎ (last_call
          (go2_main ⦃t = caseless⦄
            (λ s. none)
            ""
            (λ e. "")
            (some (obj patrol_request) ∷ [])
            willing).1.calls
        ≡ some post_cancel)
go2_main_lem_example =
    go2_main_lem ⦃t = caseless⦄ (λ s. none) "" (λ e. "") (some (obj patrol_request) ∷ []) willing
