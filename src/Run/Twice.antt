-- ===== src/Run/Twice.antt =====
-- Two runs of `JobRuntime.run` of roc_adapter_runtime.py for the same request.
use mathlib.Core.Path.{subst}
use roc_robot_sdk.Failure.{Result, ok, err, ok-injective}
use roc_robot_sdk.Base.{String, ◌≡◌, refl, ap, ◌∙◌, Option, none, some, eq_refl}
use roc_robot_sdk.Py.Json.{str, Dict, is_text}
use roc_robot_sdk.Job.{Job, validate_job}
use roc_robot_sdk.Session.{StateFile, Handler, Session}
use roc_robot_sdk.Process.{AdapterProcess}
use roc_robot_sdk.Session.Triple.{Post}
use roc_robot_sdk.Runtime.{Timing, attempt}
use roc_robot_sdk.Runtime.Order.{MayFail}
use roc_robot_sdk.Runtime.States.{Stands-fresh, Ended}
use roc_robot_sdk.Runtime.Watch.{attempt-Ended}
use roc_robot_sdk.Runtime.Record.{IsRecord, Has, attempt-Recorded}
use roc_robot_sdk.Run.{
  handled, close_adapter, restored, finish, entered, run_locked, previous_result, run_if_locked,
  run_unless_done, run_job, run,
}
use roc_robot_sdk.Run.Cases.{Untouched}
use roc_robot_sdk.Lock.{Content, acquire_lock}
use roc_robot_sdk.Py.Text.{PyText}
use roc_robot_sdk.Discover.{Manifests}

module _ ⦃t : PyText⦄ (manifests : Manifests) (adapter_id : String) (timing : Timing) where
  -- The state file holds the result of the job, and the result is final.
  abbrev IsFinal : Job → StateFile → Dict → Type 0
  IsFinal job file d = previous_result job file ≡ ok (some d)

  record-IsFinal :
      (job : Job) (s : Session) (d : Dict) → IsRecord job s d → Ended s → IsFinal job s.state_file d
  unfolding previous_result is_text
  record-IsFinal job s d r e = rw r.written (
      rw r.key
        (rw (eq_refl job.idempotency_key) (rw (r.state ∙ ap str e.emitted) (rw e.terminal refl))))

  handled-IsFinal :
      (job : Job) (d : Dict) (x : Result Dict × Session)
      → Post (λ _. Ended) MayFail x
      → Post (λ d s. IsRecord job s d) (Has job) x
      → (handled x).0 ≡ ok d
      → IsFinal job (handled x).1.state_file d
  handled-IsFinal job d (ok d', s) e r h =
      subst (IsFinal job s.state_file) (ok-injective h) (record-IsFinal job s d' r e)
  handled-IsFinal job d (err f, s) e r h = cc

  finish-IsFinal :
      (job : Job) (d : Dict) (before : Handler × Handler) (x : Result Dict × Session)
      → (x.0 ≡ ok d → IsFinal job x.1.state_file d)
      → (finish before x).0 ≡ ok d
      → IsFinal job (finish before x).1.state_file d
  unfolding finish
  finish-IsFinal job d before (r, s) f h = kept (close_adapter s.adapter) h
    where
      kept :
          (c : Result (Unit {0}) × Option AdapterProcess)
          → (restored before r c.0 (record s { adapter = c.1 })).0 ≡ ok d
          → IsFinal job (restored before r c.0 (record s { adapter = c.1 })).1.state_file d
      kept (ok u, a) h = f h
      kept (err e, a) h = absurd (cc h)

  locked-IsFinal :
      (s : Session) (d : Dict)
      → (run_locked manifests adapter_id timing s).0 ≡ ok d
      → IsFinal s.job (run_locked manifests adapter_id timing s).1.state_file d
  unfolding run_locked entered
  locked-IsFinal s d =
      finish-IsFinal s.job d s.handlers (handled (attempt manifests adapter_id timing (entered s)))
        (handled-IsFinal s.job d (attempt manifests adapter_id timing (entered s))
          ((attempt-Ended manifests adapter_id timing).at _
            (Stands-fresh _ (record { silent = refl; received = refl })))
          ((attempt-Recorded s.job manifests adapter_id timing).at _ refl))

  unless_locked-IsFinal :
      (s : Session) (d : Dict)
      → (run_unless_done manifests adapter_id timing s (ok none)).0 ≡ ok d
      → IsFinal s.job (run_unless_done manifests adapter_id timing s (ok none)).1.state_file d
  unless_locked-IsFinal s d h = entering (acquire_lock s.host.alive s.host.pid s.lock) h
    where
      entering :
          (x : Result (Unit {0}) × Option Content)
          → (run_if_locked manifests adapter_id timing (record s { lock = x.1 }) x.0).0 ≡ ok d
          → IsFinal s.job
              (run_if_locked manifests adapter_id timing (record s { lock = x.1 }) x.0).1.state_file
              d
      entering (ok u, l) h = locked-IsFinal (record s { lock = l }) d h
      entering (err e, l) h = cc

  unless_done-IsFinal :
      (s : Session) (d : Dict) (r : Result (Option Dict))
      → previous_result s.job s.state_file ≡ r
      → (run_unless_done manifests adapter_id timing s r).0 ≡ ok d
      → IsFinal s.job (run_unless_done manifests adapter_id timing s r).1.state_file d
  unless_done-IsFinal s d (err e) p h = cc
  unless_done-IsFinal s d (ok (some d')) p h = p ∙ ap (λ x. ok (some x)) (ok-injective h)
  unless_done-IsFinal s d (ok none) p h = unless_locked-IsFinal s d h

  -- After a run of a job that returns, its result is the state file's.
  run_job-IsFinal :
      (s : Session) (job : Job) (d : Dict)
      → (run_job manifests adapter_id timing s (ok job)).0 ≡ ok d
      → IsFinal job (run_job manifests adapter_id timing s (ok job)).1.state_file d
  run_job-IsFinal s job d h = unless_done-IsFinal (record s { job = job }) d _ refl h

-- A run that returned can be repeated: where the state file is the one it left, any later run of the
-- same job document, with whatever adapters, limits and state otherwise, returns the same result and
-- touches nothing.
pub run-run :
    ⦃t : PyText⦄ (manifests manifests' : Manifests) (raw_job : Dict)
    (adapter_id adapter_id' : String) (timing timing' : Timing) (s s' : Session) (d : Dict)
    → (run manifests raw_job adapter_id timing s).0 ≡ ok d
    → s'.state_file ≡ (run manifests raw_job adapter_id timing s).1.state_file
    → ((run manifests' raw_job adapter_id' timing' s').0 ≡ ok d)
      × Untouched s' (run manifests' raw_job adapter_id' timing' s').1
unfolding run
run-run manifests manifests' raw_job adapter_id adapter_id' timing timing' s s' d h same =
    with_job (validate_job raw_job) h same
  where
    with_job :
        (r : Result Job)
        → (run_job manifests adapter_id timing s r).0 ≡ ok d
        → s'.state_file ≡ (run_job manifests adapter_id timing s r).1.state_file
        → ((run_job manifests' adapter_id' timing' s' r).0 ≡ ok d)
          × Untouched s' (run_job manifests' adapter_id' timing' s' r).1
    with_job (err e) h same = absurd (cc h)
    with_job (ok job) h same =
        rw (ap (previous_result job) same ∙ run_job-IsFinal manifests adapter_id timing s job d h) (
          refl,
          record {
            same_events = refl;
            same_lock = refl;
            same_handlers = refl;
            same_file = refl;
            same_outbox = refl;
            same_adapter = refl;
          },
        )
