-- ===== src/Run/Promises.antt =====
-- The paths through `JobRuntime.run` of roc_adapter_runtime.py, and what the lock's holder does on each.
use mathlib.Core.Path.{subst}
use roc_robot_sdk.Base.{
  sym, refl, Bool, Option, ℕ, String, ◌≡◌, ◌∙◌, ◌⊎◌, inl, inr, true, false, none, some, [], arith,
  mem,
}
use roc_robot_sdk.Py.Json.{Dict}
use roc_robot_sdk.Session.{Session}
use roc_robot_sdk.Runtime.{Timing}
use roc_robot_sdk.Runtime.Order.{Legal}
use roc_robot_sdk.Run.{run_locked, run}
use roc_robot_sdk.Run.Outcome.{IsUnclosed, IsOutcome, run_locked-IsOutcome}
use roc_robot_sdk.Run.Safety.{IsSettled}
use roc_robot_sdk.Run.Cases.{Untouched, Enters, Passes, run-cases}
use roc_robot_sdk.Lock.{Content, is_held, release_lock}
use roc_robot_sdk.Py.Text.{PyText}
use roc_robot_sdk.Discover.{Manifests}
use roc_robot_sdk.Base.Int.{pos}
use roc_robot_sdk.Failure.{Result, err, other_exception}

-- The lock was taken by this process, from no process that it could reach.
abbrev own : Session → Option Content
own s = some (some (pos s.host.pid))

-- The signal handlers and the lock after a run. Either the handlers are the ones of before, and the
-- lock is as it was, or it was taken and then removed, unless it could not be removed. Or `close` of
-- the adapter raised: then the run raises this, and the lock stays.
pub record IsReleased (s : Session) (x : Result Dict × Session) : Type 0 where
  pub cases :
      ((x.1.handlers ≡ s.handlers)
        × ((x.1.lock ≡ s.lock)
            ⊎ ((is_held s.host.alive s.host.pid s.lock ≡ false)
                × ((x.1.lock ≡ none) ⊎ ((s.host.unlinks ≡ false) × (x.1.lock ≡ own s))))))
      ⊎ ((x.0 ≡ err other_exception)
          × IsUnclosed x.1.adapter
          × (is_held s.host.alive s.host.pid s.lock ≡ false)
          × (x.1.lock ≡ own s))

release_own :
    (unlinks : Bool) (pid : ℕ)
    → (release_lock unlinks pid (some (some (pos pid))) ≡ none)
      ⊎ ((unlinks ≡ false)
          × (release_lock unlinks pid (some (some (pos pid))) ≡ some (some (pos pid))))
unfolding release_lock
release_own true pid = inl (ground arith)
release_own false pid = inr (refl, ground arith)

module _ ⦃t : PyText⦄ (manifests : Manifests) (raw_job : Dict) (adapter_id : String)
    (timing : Timing) where
  -- A run that starts without events emits the states of its job in a legal order, whether it
  -- returns or raises and wherever the disk fails: RECEIVED, VALIDATED, STARTING, then RUNNING or a
  -- terminal state, CANCELLING only after RUNNING, FAILED from any state that is not terminal, and
  -- nothing after a terminal state.
  pub run-Legal :
      (s : Session)
      → s.events ≡ []
      → s.adapter ≡ none
      → Legal (run manifests raw_job adapter_id timing s).1.events
  unfolding Legal
  run-Legal s silent idle = elim (run-cases manifests adapter_id timing raw_job s) [
    | inl u ↦ rw (u.same_events ∙ silent) tt
    | inr p ↦ rw p.runs (outcome p).legal
  ]
    where
      outcome :
          (p : Passes manifests adapter_id timing s (run manifests raw_job adapter_id timing s))
          → IsOutcome p.start (run_locked manifests adapter_id timing p.start)
      outcome p =
          run_locked-IsOutcome manifests adapter_id timing p.start (p.enters.same_adapter ∙ idle)

  -- No run leaves a started job running unnoticed: after a run of a runtime without adapter, if
  -- `job.start` was sent to the adapter, then the job is in a terminal state or `job.cancel` was sent.
  pub run-IsSettled :
      (s : Session) → s.adapter ≡ none → IsSettled (run manifests raw_job adapter_id timing s).1
  unfolding mem
  run-IsSettled s idle = elim (run-cases manifests adapter_id timing raw_job s) [
    | inl u ↦ λ start. absurd (cc (rw (u.same_adapter ∙ idle) at start))
    | inr p ↦
        rw p.runs
          (run_locked-IsOutcome manifests adapter_id timing p.start
            (p.enters.same_adapter ∙ idle)).settled
  ]

  -- After every run, whether it returns or raises: the signal handlers are the ones of before, and the
  -- lock is as it was, or was taken from no process that could be reached and is removed, unless it
  -- could not be removed. The only other way is that closing the adapter's process raised, because
  -- closing its standard input did or because SIGKILL did not end it in time: then the run raises this
  -- exception, and the lock stays.
  pub run-IsReleased :
      (s : Session) → s.adapter ≡ none → IsReleased s (run manifests raw_job adapter_id timing s)
  run-IsReleased s idle = elim (run-cases manifests adapter_id timing raw_job s) [
    | inl u ↦ record { cases = inl (u.same_handlers, inl u.same_lock) }
    | inr p ↦ subst (IsReleased s) (sym p.runs) (
        released p.start p.enters
          (run_locked-IsOutcome manifests adapter_id timing p.start (p.enters.same_adapter ∙ idle)))
  ]
    where
      removed :
          (start : Session) {lock : Option Content}
          → Enters s start
          → lock ≡ release_lock start.host.unlinks start.host.pid start.lock
          → (lock ≡ none) ⊎ ((s.host.unlinks ≡ false) × (lock ≡ own s))
      removed start e q = elim (release_own s.host.unlinks s.host.pid) [
        | inl gone ↦ inl (q ∙ rw (e.same_host, e.owned) gone)
        | inr kept ↦ inr (kept.0, q ∙ rw (e.same_host, e.owned) kept.1)
      ]

      released :
          (start : Session) {x : Result Dict × Session}
          → Enters s start
          → IsOutcome start x
          → IsReleased s x
      released start e o = elim o.leaves [
        | inl done ↦ record {
          cases = inl (done.1 ∙ e.same_handlers, inr (e.was_free, removed start e done.0));
        }
        | inr raised ↦ record { cases = inr (raised.0, raised.1, e.was_free, raised.2 ∙ e.owned) }
      ]

  -- While the lock names a process that `os.kill(pid, 0)` reaches, a run touches nothing: no event, no
  -- file, no handler, no adapter.
  pub run-Untouched :
      (s : Session)
      → is_held s.host.alive s.host.pid s.lock ≡ true
      → Untouched s (run manifests raw_job adapter_id timing s).1
  run-Untouched s held = elim (run-cases manifests adapter_id timing raw_job s) [
    | inl u ↦ u
    | inr p ↦ absurd (cc (held, p.enters.was_free))
  ]
