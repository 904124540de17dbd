-- ===== src/Executor/Schedule.antt =====
-- Runs of the code of adapters/go2/go2_bridge.py: a thread alone, and threads in a given order.
use roc_robot_sdk.Base.{ℕ, zero, suc, List, [], ◌∷◌, ◌++◌}
use roc_robot_sdk.Executor.{Op, Input, RobotExecutor, perform}
use roc_robot_sdk.Executor.Program.{Program, done, act, Code}
use roc_robot_sdk.Executor.Handler.{Server}
use roc_robot_sdk.Executor.Pool.{Bridge, begun, own, Reach, Turns, stay, and_then}
use roc_robot_sdk.Executor.Completion.{Turns-other, Reach-Turns}
use roc_robot_sdk.Py.Text.{PyText}

abbrev pub Inputs : Type 0
Inputs = RobotExecutor → (o : Op) → Input o

module _ (inputs : Inputs) where
  -- A thread alone.
  unfoldable pub run : {A : Type 0} → Program A → RobotExecutor → A × RobotExecutor
  unfolding perform
  run (done a) e = (a, e)
  run (act o k) e = run (k (perform o (inputs e o) e).0) (perform o (inputs e o) e).1

  module _ (server : Server) ⦃t : PyText⦄ where
    abbrev pub Threads : Type 0
    Threads = List (Code (Unit {0}))

    -- The thread with this number does its next operation, unless it has ended.
    unfoldable pub advance : ℕ → RobotExecutor → Threads → RobotExecutor × Threads
    advance i e [] = (e, [])
    advance zero e (done r ∷ ts) = (e, done r ∷ ts)
    advance zero e (act o k ∷ ts) = (
      (perform o (inputs e o) e).1,
      k (perform o (inputs e o) e).0 ∷ (begun server o (perform o (inputs e o) e).0 ++ ts),
    )
    advance (suc i) e (thread ∷ ts) = let rest = advance i e ts in (rest.0, thread ∷ rest.1)

    advance-Turns :
        (i : ℕ) (e : RobotExecutor) (ts : Threads)
        → Turns server e ts (advance i e ts).0 (advance i e ts).1
    unfolding advance
    advance-Turns i e [] = stay
    advance-Turns zero e (done r ∷ ts) = stay
    advance-Turns zero e (act o k ∷ ts) = and_then (own o k (inputs e o)) stay
    advance-Turns (suc i) e (thread ∷ ts) = Turns-other server thread (advance-Turns i e ts)

    -- The threads in this order.
    unfoldable pub follow : List ℕ → Bridge → Bridge
    unfolding advance
    follow [] b = b
    follow (i ∷ order) b =
        let next_one = advance i b.executor b.threads in
        follow order (record { executor = next_one.0; threads = next_one.1 })

    pub Reach-follow :
        (order : List ℕ) {b : Bridge} → Reach server b → Reach server (follow order b)
    unfolding follow
    Reach-follow [] r = r
    Reach-follow (i ∷ order) {b} r =
        Reach-follow order (Reach-Turns server r (advance-Turns i b.executor b.threads))
