-- ===== src/Executor/Pool.antt =====
-- The bridge of adapters/go2/go2_bridge.py as `ThreadingHTTPServer` runs it: a thread for each request
-- and each motion, whose operations interleave in any order.
use roc_robot_sdk.Executor.Startup.{fresh}
use roc_robot_sdk.Base.{ℕ, suc, if◌then◌else◌, String, Bool, true, false, List, [], ◌∷◌, ◌++◌}
use roc_robot_sdk.Executor.{launch, Op, start_thread, Answer, Input, RobotExecutor, perform}
use roc_robot_sdk.Executor.Program.{done, Attempt, act, Code}
use roc_robot_sdk.Executor.Rules.{is_linear_command}
use roc_robot_sdk.Executor.Linear.{run_task}
use roc_robot_sdk.Executor.Handler.{Request, Server, handle_request}
use roc_robot_sdk.Py.Text.{PyText}

-- What each thread has left to do.
pub record Bridge : Type 0 where
  pub executor : RobotExecutor
  pub threads : List (Code (Unit {0}))

module _ (server : Server) ⦃t : PyText⦄ where
  -- The thread that an operation starts.
  abbrev pub begun : (o : Op) → Answer o → List (Code (Unit {0}))
  begun (start_thread task) true = run_task server.settings task ∷ []
  begun o a = []

  -- One thread does its next operation, for an input of the environment.
  pub data Turn
      : RobotExecutor
        → List (Code (Unit {0}))
        → RobotExecutor
        → List (Code (Unit {0}))
        → Type 0 where
    own :
        {e : RobotExecutor} {ts : List (Code (Unit {0}))} (o : Op) (k : Answer o → Code (Unit {0}))
        (input : Input o)
        → Turn e
            (act o k ∷ ts)
            (perform o input e).1
            (k (perform o input e).0 ∷ (begun o (perform o input e).0 ++ ts))
    other :
        {e e' : RobotExecutor} {ts ts' : List (Code (Unit {0}))} (thread : Code (Unit {0}))
        → Turn e ts e' ts'
        → Turn e (thread ∷ ts) e' (thread ∷ ts')

  pub data Step : Bridge → Bridge → Type 0 where
    arrive :
        {e : RobotExecutor} {ts : List (Code (Unit {0}))} (request : Request)
        → Step
            (record { executor = e; threads = ts })
            (record { executor = e; threads = handle_request server request ∷ ts })
    turn :
        {e e' : RobotExecutor} {ts ts' : List (Code (Unit {0}))}
        → Turn e ts e' ts'
        → Step (record { executor = e; threads = ts }) (record { executor = e'; threads = ts' })

  pub data Reach : Bridge → Type 0 where
    -- The bridge as it is once `RobotExecutor.__init__` has returned.
    start :
        (now : ℕ) (sdk : Bool × String) → Reach (record { executor = fresh now sdk; threads = [] })
    later : {b c : Bridge} → Reach b → Step b c → Reach c

  -- Turns of threads, while no request arrives.
  pub data Turns
      : RobotExecutor
        → List (Code (Unit {0}))
        → RobotExecutor
        → List (Code (Unit {0}))
        → Type 0 where
    stay : {e : RobotExecutor} {ts : List (Code (Unit {0}))} → Turns e ts e ts
    and_then :
        {e f g : RobotExecutor} {ts us vs : List (Code (Unit {0}))}
        → Turn e ts f us
        → Turns f us g vs
        → Turns e ts g vs

-- Each thread has ended.
pub data AllDone : List (Code (Unit {0})) → Type 0 where
  no_thread_left : AllDone []
  ended :
      {ts : List (Code (Unit {0}))} (r : Attempt (Unit {0})) → AllDone ts → AllDone (done r ∷ ts)

-- The threads whose next operation starts a linear motion's command.
abbrev pub is_launching : Code (Unit {0}) → Bool
is_launching (act (launch c) k) = is_linear_command c
is_launching p = false

abbrev pub launching : List (Code (Unit {0})) → ℕ
launching [] = 0
launching (thread ∷ ts) = if is_launching thread then suc (launching ts) else launching ts
