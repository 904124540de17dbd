-- ===== src/Executor/Completion.antt =====
-- The ends of the threads of adapters/go2/go2_bridge.py, and a run of the threads to there.
use roc_robot_sdk.Base.{◌≡◌, false, List, [], ◌∷◌}
use roc_robot_sdk.Executor.Pool.{turn, Reach, later, other, Turns, stay, and_then, AllDone}
use roc_robot_sdk.Executor.Exclusion.{Ends}
use roc_robot_sdk.Executor.{Op, Input, RobotExecutor}
use roc_robot_sdk.Executor.Program.{done, Attempt, Code}
use roc_robot_sdk.Executor.Handler.{Server}
use roc_robot_sdk.Executor.Rules.{Stage, Follows}
use roc_robot_sdk.Executor.Bounds.{IsSafe}
use roc_robot_sdk.Py.Text.{PyText}

-- Threads that start no other threads; those that have ended are some.
data Workers : List (Code (Unit {0})) → Type 0 where
  no_worker : Workers []
  worker :
      {thread : Code (Unit {0})} {ts : List (Code (Unit {0}))} (m : Stage)
      → m.starts ≡ false
      → Follows Ends m thread
      → Workers ts
      → Workers (thread ∷ ts)

module _ (server : Server) ⦃t : PyText⦄ where
  pub Turns-other :
      {e f : RobotExecutor} {ts us : List (Code (Unit {0}))} (thread : Code (Unit {0}))
      → Turns server e ts f us
      → Turns server e (thread ∷ ts) f (thread ∷ us)
  Turns-other thread stay = stay
  Turns-other thread (and_then s r) = and_then (other thread s) (Turns-other thread r)

  pub Reach-Turns :
      {e f : RobotExecutor} {ts us : List (Code (Unit {0}))}
      → Reach server (record { executor = e; threads = ts })
      → Turns server e ts f us
      → Reach server (record { executor = f; threads = us })
  Reach-Turns r stay = r
  Reach-Turns r (and_then s q) = Reach-Turns (later r (turn s)) q

module _ (server : Server) ⦃t : PyText⦄ (safe : IsSafe server.settings) where
  -- The environment's inputs, which may depend on the state.
  module _ (inputs : RobotExecutor → (o : Op) → Input o) where
    -- A run to where the first thread has ended and the others satisfy a property.
    record Ended (P : List (Code (Unit {0})) → Type 0) (e : RobotExecutor)
        (ts : List (Code (Unit {0}))) : Type 0 where
      last : RobotExecutor
      result : Attempt (Unit {0})
      others : List (Code (Unit {0}))
      turns : Turns server e ts last (done result ∷ others)
      after : P others

    -- A run to where each thread has ended.
    pub record AllEnded (e : RobotExecutor) (ts : List (Code (Unit {0}))) : Type 0 where
      pub last : RobotExecutor
      pub threads : List (Code (Unit {0}))
      pub turns : Turns server e ts last threads
      pub all_done : AllDone threads
