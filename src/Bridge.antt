-- ===== src/Bridge.antt =====
-- The Go2 bridge as adapters/go2/runtime_adapter.py calls it: `bridge_request`, `bounded_parameter`,
-- `stop_active_job`, and the command that starts a job.
use roc_robot_sdk.Failure.{other_exception, Result, ok, err, ◌>>=◌}
use roc_robot_sdk.Base.{
  ℕ, String, Bool, true, false, Option, none, some, List, ◌∷◌, if◌then◌else◌, length, ◌==◌,
}
use roc_robot_sdk.Py.Json.{Json, null, float, obj, Dict, get_or, get, is_number}
use roc_robot_sdk.Py.Float.{Float, is_finite, min_float, max_float, units, of_ℕ}
use roc_robot_sdk.Py.Number.{to_float}

-- A call of the bridge: the path with the fields of its payload.
pub data BridgeCall : Type 0 where
  get_status post_cancel : BridgeCall
  navigate_forward : Float → BridgeCall
  patrol_inspection : Float → Float → BridgeCall

-- What a call comes to: no JSON, or a value.
pub data BridgeReply : Type 0 where
  no_reply : BridgeReply
  replied : Json → BridgeReply

pub record Go2Job : Type 0 where
  pub id : Json
  pub job_type : String
  pub state : String

-- `replies` is the environment's: the reply to each call, by its number. `calls` are the calls that
-- were made, the last one first.
pub record Go2 : Type 0 where
  pub current_job : Option Go2Job
  pub replies : ℕ → BridgeReply
  pub calls : List BridgeCall

abbrev accepted_code : Json → Bool
accepted_code null = true
accepted_code v = is_number 200 v

abbrev judge_reply : BridgeReply → Result Dict
judge_reply no_reply = err other_exception
judge_reply (replied (obj d)) = if accepted_code (get "code" d) then ok d else err other_exception
judge_reply (replied _) = err other_exception

-- `bridge_request`
unfoldable pub bridge_request : BridgeCall → Go2 → Result Dict × Go2
bridge_request c s = (judge_reply (s.replies (length s.calls)), record s { calls = c ∷ s.calls })

-- The value is at least the first bound and at most the second.
unfoldable pub bounded_value : Float → Float → Float → Result Float
bounded_value minimum maximum value =
    if is_finite value
    then ok (max_float minimum (min_float value maximum))
    else err other_exception

-- What goes on with the response of a bridge call.
abbrev pub with_response : Result Dict × Go2 → (Dict → Go2 → Result Dict × Go2) → Result Dict × Go2
with_response (err e, s) k = (err e, s)
with_response (ok d, s) k = k d s

abbrev pub is_running : Option Go2Job → Bool
is_running none = false
is_running (some job) = job.state == "RUNNING"

-- `stop_active_job`, without its result; an exception leaves the job as it is.
abbrev pub after_stop : Result Dict × Go2 → Option Go2Job → Go2
after_stop (ok _, s) (some job) = record s {
  current_job = some (record job { state = "CANCELLED" });
}
after_stop (_, s) _ = s

unfoldable pub stop_active_job : Go2 → Go2
unfolding bridge_request
stop_active_job s =
    if is_running s.current_job then after_stop (bridge_request post_cancel s) s.current_job else s

module _ (parse_float : String → Option Float) where
  -- `bounded_parameter`
  unfoldable pub bounded_parameter : Json → String → Float → Float → Float → Result Float
  unfolding to_float bounded_value
  bounded_parameter (obj parameters) name default minimum maximum =
      to_float parse_float (get_or name (float default) parameters) >>= λ value.
      bounded_value minimum maximum value
  bounded_parameter _ name default minimum maximum = err other_exception

  -- The call that starts a job, from the job's parameters.
  unfoldable pub command_of : String → Json → Result BridgeCall
  unfolding bounded_parameter
  command_of job_type parameters =
      if job_type == "STOP"
      then ok post_cancel
      else if job_type == "DELIVERY"
      then (bounded_parameter parameters "distanceMeters" (of_ℕ 1) (units 3602879701896397 1019)
            (of_ℕ 60)
          >>= λ meters. ok (navigate_forward meters))
      else (bounded_parameter parameters "distanceMeters" (of_ℕ 10) (units 1 1073) (of_ℕ 20)
          >>= λ meters.
              bounded_parameter parameters "turnSeconds" (of_ℕ 9) (of_ℕ 1) (of_ℕ 12) >>= λ seconds.
              ok (patrol_inspection meters seconds))
