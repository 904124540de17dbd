-- ===== src/Tests/Functions.antt =====
-- Single functions of adapters/go2/go2_bridge.py at concrete inputs.
use roc_robot_sdk.Executor.Exclusion.{serving}
use roc_robot_sdk.Failure.{◌>>=◌ as bind_result}
use roc_robot_sdk.Py.Json.{Json, null, int, str, obj, end, field}
use roc_robot_sdk.Base.{
  String, Option, ltb, if◌then◌else◌, ◌==◌, ◌≡◌, refl, true, false, none, some,
}
use roc_robot_sdk.Executor.{RobotExecutor}
use roc_robot_sdk.Executor.Settings.{Environ, settings_of}
use roc_robot_sdk.Executor.Actions.{execute_action}
use roc_robot_sdk.Executor.Rules.{Follows, Quiet}
use roc_robot_sdk.Executor.Performed.{IsReply, execute_action-Quiet}
use roc_robot_sdk.Executor.Requests.{Answers, handle_request-Answers}
use roc_robot_sdk.Executor.Startup.{
  has_address, no_address, Network, wait_rounds, wait_for_network_interface, fresh,
}
use roc_robot_sdk.Py.Float.{nan, pos_inf}
use roc_robot_sdk.Base.Int.{negsuc, pos}
use roc_robot_sdk.Executor.Handler.{handle_request}
use roc_robot_sdk.Executor.Bounds.{IsSafe, settings_of-IsSafe}
use roc_robot_sdk.Tests.Data.{caseless}
use roc_robot_sdk.Tests.Motions.{settings, server, forward_request}

-- Variables that hold no number, infinity and -3.
abbrev wild_variable : String → Option String
wild_variable name =
    if name == "ROC_GO2_SHORT_MOVE_SPEED"
    then some "nan"
    else if name == "ROC_GO2_LONG_MOVE_SPEED"
    then some "inf"
    else some "-3"

abbrev wild_variables : Environ
wild_variables = record {
  parse_float = λ s. if s == "nan" then some nan else if s == "inf" then some pos_inf else none;
  parse_int = λ s. some (negsuc 2);
  variable = wild_variable;
}

settings_of-IsSafe_example : IsSafe (settings_of wild_variables false "eth0" λ e. "")
settings_of-IsSafe_example = settings_of-IsSafe wild_variables false "eth0" λ e. ""

abbrev ready : RobotExecutor
ready = fresh 0 (true, "")

-- An address appears at the third probe.
abbrev slow_network : Network
slow_network = record { probe = λ i. if ltb i 2 then no_address else has_address; took = λ i. 10 }

wait_for_network_interface_test : wait_for_network_interface slow_network 90 0 ≡ (true, 4030)
unfolding wait_for_network_interface wait_rounds
wait_for_network_interface_test = refl

execute_action-Quiet_example :
    Quiet IsReply serving
      (execute_action (settings false) ⦃t = caseless⦄ (str "TURN_AROUND") null (int (pos 3)) null)
execute_action-Quiet_example =
    execute_action-Quiet (settings false) ⦃t = caseless⦄ (str "TURN_AROUND") null (int (pos 3)) null
      (record { free = refl; starter = refl })

handle_request-Answers_example :
    Follows (Answers serving) serving (handle_request (server false) ⦃t = caseless⦄ forward_request)
handle_request-Answers_example =
    handle_request-Answers (server false) ⦃t = caseless⦄ refl forward_request
      (record { free = refl; starter = refl })

abbrev delivery_parameters : Json
delivery_parameters = obj (field "distanceMeters" (int (pos 2)) end)
