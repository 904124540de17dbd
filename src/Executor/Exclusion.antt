-- ===== src/Executor/Exclusion.antt =====
-- The claims on linear motions that the threads of adapters/go2/go2_bridge.py hold, and the commands
-- that were started: the invariant of the bridge's state.
use roc_robot_sdk.Base.{ℕ, suc, ◌≡◌, refl, ap, Bool, true, false, List, [], ◌∷◌}
use roc_robot_sdk.Executor.{Command, Task, linear_motion, patrol_inspection}
use roc_robot_sdk.Executor.Program.{Program, done, act, Attempt, returned, raised, Code}
use roc_robot_sdk.Executor.Linear.{run_task}
use roc_robot_sdk.Executor.Settings.{Settings}
use roc_robot_sdk.Executor.Handler.{Request, Server, handle_request}
use roc_robot_sdk.Executor.Rules.{Stage, next, IsDistance, IsLimited, Obeys, Follows}
use roc_robot_sdk.Executor.Bounds.{IsSafe}
use roc_robot_sdk.Executor.Threads.{run_patrol_inspection-Quiet, run_linear_motion-Frees}
use roc_robot_sdk.Executor.Requests.{Answers, handle_request-Answers}
use roc_robot_sdk.Executor.Pool.{Bridge}
use roc_robot_sdk.Py.Text.{PyText}

-- The end of a thread: it holds no claim.
abbrev pub Ends : Stage → Attempt (Unit {0}) → Type 0
Ends m r = m.holds ≡ false

-- The threads, of which so many hold the claim.
pub data Claims : ℕ → List (Code (Unit {0})) → Type 0 where
  no_thread : Claims 0 []
  free :
      {n : ℕ} {thread : Code (Unit {0})} {ts : List (Code (Unit {0}))} (m : Stage)
      → m.holds ≡ false
      → Follows Ends m thread
      → Claims n ts
      → Claims n (thread ∷ ts)
  holder :
      {n : ℕ} {thread : Code (Unit {0})} {ts : List (Code (Unit {0}))} (m : Stage)
      → m.holds ≡ true
      → Follows Ends m thread
      → Claims n ts
      → Claims (suc n) (thread ∷ ts)

pub data AllLimited : List Command → Type 0 where
  no_command : AllLimited []
  and_limited :
      {c : Command} {cs : List Command} → IsLimited c → AllLimited cs → AllLimited (c ∷ cs)

-- The claims that a state of the flag allows.
abbrev pub claims_of : Bool → ℕ
claims_of true = 1
claims_of false = 0

pub record Inv (b : Bridge) : Type 0 where
  pub claims : Claims (claims_of b.executor.linear_motion_pending) b.threads
  pub limited : AllLimited b.executor.launched

-- A motion thread begins with the claim if its motion is linear, and is allowed to do all it does.
abbrev pub task_stage : Task → Stage
task_stage (linear_motion action distance seconds) = record {
  holds = true;
  answers = 0;
  starts = false;
}
task_stage (patrol_inspection distance turn_seconds) = record {
  holds = false;
  answers = 0;
  starts = false;
}

abbrev pub IsFit : Task → Type 0
IsFit (linear_motion action distance seconds) = IsDistance distance
IsFit (patrol_inspection distance turn_seconds) = Unit

module _ {A : Type 0} {Q R : Stage → A → Type 0} where
  Obeys-weaken :
      (p : Program A) (m : Stage)
      → ((m' : Stage) (a : A) → Q m' a → R m' a)
      → Obeys Q m p
      → Obeys R m p
  unfolding Obeys
  Obeys-weaken (done a) m h o = h m a o
  Obeys-weaken (act o k) m h (allowed, rest) =
      (allowed, λ a. Obeys-weaken (k a) (next m o a) h (rest a))

  Follows-weaken :
      {m : Stage} (p : Program A)
      → ((m' : Stage) (a : A) → Q m' a → R m' a)
      → Follows Q m p
      → Follows R m p
  Follows-weaken {m} p h f = record { obeys = Obeys-weaken p m h f.obeys }

pub run_task-Ends :
    (settings : Settings) (task : Task)
    → IsSafe settings
    → IsFit task
    → Follows Ends (task_stage task) (run_task settings task)
unfolding run_task
run_task-Ends settings (linear_motion action distance seconds) safe fit =
    Follows-weaken _ (λ m' r q. ap Stage.holds q)
      (run_linear_motion-Frees settings action distance seconds safe fit refl)
run_task-Ends settings (patrol_inspection distance turn_seconds) safe fit =
    Follows-weaken _ (λ m' r q. ap Stage.holds q.0)
      (run_patrol_inspection-Quiet settings distance turn_seconds)

abbrev pub serving : Stage
serving = record { holds = false; answers = 0; starts = true }

module _ (server : Server) ⦃t : PyText⦄ where
  pub handle_request-Ends :
      (request : Request) → Follows Ends serving (handle_request server request)
  handle_request-Ends request =
      Follows-weaken _ freed
        (handle_request-Answers server refl request (record { free = refl; starter = refl }))
    where
      freed : (m' : Stage) (r : Attempt (Unit {0})) → Answers serving m' r → m'.holds ≡ false
      freed m' (returned a) q = ap Stage.holds q
      freed m' (raised e) q = ap Stage.holds q
