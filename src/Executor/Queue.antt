-- ===== src/Executor/Queue.antt =====
-- Threads of adapters/go2/go2_bridge.py that no other thread disturbs: `_queue_linear_motion`, and the
-- waiting loop of a motion in mock mode.
use roc_robot_sdk.Base.{ℕ, ◌≤◌, ◌≡◌, ◌⊎◌, true, false}
use roc_robot_sdk.Executor.Settings.{Settings}
use roc_robot_sdk.Executor.{RobotExecutor}
use roc_robot_sdk.Py.Float.{Float}
use roc_robot_sdk.Py.Json.{Json}
use roc_robot_sdk.Executor.Schedule.{Inputs}

module _ (inputs : Inputs) (e : RobotExecutor) where
  -- Without the request to cancel, which queueing withdraws first.
  abbrev uncancelled : RobotExecutor
  uncancelled = record e { cancel_requested = false }

  abbrev claimed : RobotExecutor
  claimed = record e { cancel_requested = false; linear_motion_pending = true }

-- A waiting loop has come to its end: it was cancelled, or its time is over.
abbrev IsOver : ℕ → RobotExecutor → Type 0
IsOver deadline e = (e.cancel_requested ≡ true) ⊎ (deadline ≤ e.now)
