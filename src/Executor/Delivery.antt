-- ===== src/Executor/Delivery.antt =====
-- The Go2 adapter and the bridge together: from a delivery in adapters/go2/runtime_adapter.py to the
-- motion that adapters/go2/go2_bridge.py starts.
use roc_robot_sdk.Base.{false, ◌≡◌, true}
use roc_robot_sdk.Bridge.{get_status, post_cancel, navigate_forward, patrol_inspection, BridgeCall}
use roc_robot_sdk.Executor.{
  action_running, linear_motion, patrol_inspection, claim_motion, start_thread, RobotExecutor,
  is_active,
}
use roc_robot_sdk.Executor.Program.{Code}
use roc_robot_sdk.Executor.Actions.{execute_action}
use roc_robot_sdk.Executor.Schedule.{Inputs}
use roc_robot_sdk.Py.Json.{Json, null, str, Dict, end, field, get, float}
use roc_robot_sdk.Executor.Settings.{Settings}
use roc_robot_sdk.Py.Float.{Float}
use roc_robot_sdk.Py.Text.{PyText}

-- The payload that the adapter posts to /api/v1/action.
unfoldable pub payload_of : BridgeCall → Dict
payload_of (navigate_forward meters) =
    field "action" (str "NAVIGATE_FORWARD_AVOID") (field "meters" (float meters) end)
payload_of (patrol_inspection meters seconds) =
    field "action" (str "PATROL_INSPECTION")
      (field "meters" (float meters) (field "seconds" (float seconds) end))
payload_of get_status = end
payload_of post_cancel = end

-- `execute_action` with the fields of a payload.
abbrev pub executed : Settings → ⦃t : PyText⦄ → Dict → Code Dict
executed settings payload =
    execute_action settings (get "action" payload) (get "meters" payload) (get "seconds" payload)
      (get "yawRate" payload)

module _ (inputs : Inputs) (e : RobotExecutor) where
  abbrev pub asked : RobotExecutor
  asked = record e { state = action_running; error_msg = ""; cancel_requested = false }

  abbrev pub going : RobotExecutor
  going = record e {
    state = action_running;
    error_msg = "";
    cancel_requested = false;
    linear_motion_pending = true;
  }

  abbrev Starts : Float → Type 0
  Starts meters =
      (is_active e (inputs asked claim_motion) ≡ false)
      × (inputs going (start_thread (linear_motion "navigate_forward_avoid" meters null)) ≡ true)
