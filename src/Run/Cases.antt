-- ===== src/Run/Cases.antt =====
-- The two ways of `JobRuntime.run`: without the `try` statement, or through it with the lock taken.
use roc_robot_sdk.Base.{Option, none, Bool-cases, String, ◌≡◌, refl, ◌⊎◌, inl, inr, false, some}
use roc_robot_sdk.Run.{run_unless_done, run_job, run_locked, run}
use roc_robot_sdk.Lock.{acquire_lock_lem, is_held}
use roc_robot_sdk.Job.{Job, validate_job}
use roc_robot_sdk.Failure.{Result, ok, err}
use roc_robot_sdk.Py.Json.{Dict}
use roc_robot_sdk.Session.{Session}
use roc_robot_sdk.Runtime.{Timing}
use roc_robot_sdk.Py.Text.{PyText}
use roc_robot_sdk.Discover.{Manifests}
use roc_robot_sdk.Base.Int.{pos}

-- Nothing has been touched but the runtime's own job.
pub record Untouched (s s' : Session) : Type 0 where
  pub same_events : s'.events ≡ s.events
  pub same_lock : s'.lock ≡ s.lock
  pub same_handlers : s'.handlers ≡ s.handlers
  pub same_file : s'.state_file ≡ s.state_file
  pub same_outbox : s'.outbox ≡ s.outbox
  pub same_adapter : s'.adapter ≡ s.adapter

unchanged : (s : Session) → Untouched s s
unchanged s = record {
  same_events = refl;
  same_lock = refl;
  same_handlers = refl;
  same_file = refl;
  same_outbox = refl;
  same_adapter = refl;
}

-- The state in which `run_locked` starts.
pub record Enters (s s' : Session) : Type 0 where
  pub same_host : s'.host ≡ s.host
  pub same_handlers : s'.handlers ≡ s.handlers
  pub same_adapter : s'.adapter ≡ s.adapter
  pub was_free : is_held s.host.alive s.host.pid s.lock ≡ false
  pub owned : s'.lock ≡ some (some (pos s.host.pid))

module _ ⦃t : PyText⦄ (manifests : Manifests) (adapter_id : String) (timing : Timing) where
  pub record Passes (s : Session) (x : Result Dict × Session) : Type 0 where
    pub start : Session
    pub runs : x ≡ run_locked manifests adapter_id timing start
    pub enters : Enters s start

  abbrev Way : Session → Result Dict × Session → Type 0
  Way s x = Untouched s x.1 ⊎ Passes s x

  unless_locked : (s : Session) → Way s (run_unless_done manifests adapter_id timing s (ok none))
  unless_locked s =
      rw (acquire_lock_lem s.host.alive s.host.pid s.lock)
        (elim (Bool-cases (is_held s.host.alive s.host.pid s.lock)) [
          | inl held ↦ inl (rw held (unchanged s))
          | inr free ↦ inr (
              rw free (record {
                start = record s { lock = some (some (pos s.host.pid)) };
                runs = refl;
                enters = record {
                  same_host = refl;
                  same_handlers = refl;
                  same_adapter = refl;
                  was_free = free;
                  owned = refl;
                };
              }))
        ])

  unless_done :
      (s : Session) (r : Result (Option Dict))
      → Way s (run_unless_done manifests adapter_id timing s r)
  unless_done s (err e) = inl (unchanged s)
  unless_done s (ok (some d)) = inl (unchanged s)
  unless_done s (ok none) = unless_locked s

  with_job : (s : Session) (r : Result Job) → Way s (run_job manifests adapter_id timing s r)
  with_job s (err e) = inl (unchanged s)
  with_job s (ok job) = moved (unless_done (record s { job = job }) _)
    where
      moved : {x : Result Dict × Session} → Way (record s { job = job }) x → Way s x
      moved (inl u) = inl (record {
        same_events = u.same_events;
        same_lock = u.same_lock;
        same_handlers = u.same_handlers;
        same_file = u.same_file;
        same_outbox = u.same_outbox;
        same_adapter = u.same_adapter;
      })
      moved (inr p) = inr (record {
        start = p.start;
        runs = p.runs;
        enters = record {
          same_host = p.enters.same_host;
          same_handlers = p.enters.same_handlers;
          same_adapter = p.enters.same_adapter;
          was_free = p.enters.was_free;
          owned = p.enters.owned;
        };
      })

  pub run-cases :
      (raw_job : Dict) (s : Session)
      → Untouched s (run manifests raw_job adapter_id timing s).1
        ⊎ Passes s (run manifests raw_job adapter_id timing s)
  unfolding run
  run-cases raw_job s = with_job s (validate_job raw_job)
