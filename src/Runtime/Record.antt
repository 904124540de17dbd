-- ===== src/Runtime/Record.antt =====
-- The state file of `JobRuntime` in roc_adapter_runtime.py and the last event.
use roc_robot_sdk.Base.{◌∙◌, ℕ, zero, suc, String, ◌≡◌, refl, Option, none, some, ◌==◌}
use roc_robot_sdk.Session.{
  StateFile, Disk, works, state_fails, outbox_fails, holds, Session, Action, ◌>>=◌, lift, gets,
  set_state, state_record, wrote_state, emitted, transition_on, transition, call_on, call, pause,
}
use roc_robot_sdk.Runtime.{
  read_state, is_terminal, Timing, prepare, launch, cancel_job, time_out, note_state, poll_status,
  wait_and_poll, watch_round, watch, attempt,
}
use mathlib.Core.Path.{subst}
use roc_robot_sdk.Failure.{Result, ok, err, out_of_fuel, ok-injective}
use roc_robot_sdk.Py.Json.{Json, str, obj, Dict, lookup, get_or, get}
use roc_robot_sdk.Job.{Job}
use roc_robot_sdk.Session.Triple.{
  Predicate, Post, Triple, Triple-pure, Triple-lift, Triple-gets, Triple-if, Triple-modify,
  Triple-bind, Triple-weaken,
}
use roc_robot_sdk.Runtime.Order.{latest}
use roc_robot_sdk.Runtime.Watch.{finally_do-Triple}
use roc_robot_sdk.Process.{AdapterProcess, request}
use roc_robot_sdk.Py.Text.{PyText}
use roc_robot_sdk.Discover.{Manifests}

-- The file's dictionary names the job's key and the state of the last event.
pub record IsRecord (j : Job) (s : Session) (d : Dict) : Type 0 where
  pub written : s.state_file ≡ holds (obj d)
  pub key : get "idempotencyKey" d ≡ str j.idempotency_key
  pub state : get "state" d ≡ str (latest s.events)

pub record Recorded (j : Job) (s : Session) : Type 0 where
  pub job_kept : s.job ≡ j
  pub content : Dict
  pub is_record : IsRecord j s content

module _ (j : Job) where
  abbrev pub Has : Predicate
  Has s = s.job ≡ j

  -- An action that keeps the record unless it raises.
  abbrev Keeps : {A : Type 0} → Action A → Type 0
  Keeps m = Triple (Recorded j) m (λ _. Recorded j) Has

  kept :
      {s s' : Session}
      → s'.job ≡ s.job
      → s'.state_file ≡ s.state_file
      → s'.events ≡ s.events
      → Recorded j s
      → Recorded j s'
  kept a b c r = record {
    job_kept = a ∙ r.job_kept;
    content = r.content;
    is_record = record {
      written = b ∙ r.is_record.written;
      key = r.is_record.key;
      state = rw c r.is_record.state;
    };
  }

  transition_on-Recorded :
      (disk : Disk) (x : String) (d : Json) (s : Session)
      → s.job ≡ j
      → Post (λ _. Recorded j) Has (transition_on disk x d s)
  unfolding wrote_state emitted state_record get get_or lookup
  transition_on-Recorded works x d s e = record {
    job_kept = e;
    content = state_record s x d;
    is_record = record { written = refl; key = rw e refl; state = refl };
  }
  transition_on-Recorded state_fails x d s e = e
  transition_on-Recorded outbox_fails x d s e = e

  transition-Recorded : (x : String) (d : Json) → Triple Has (transition x d) (λ _. Recorded j) Has
  unfolding transition
  transition-Recorded x d = record { at = λ s e. transition_on-Recorded _ x _ s e }

  again : (x : String) (d : Json) → Keeps (transition x d)
  again x d = Triple-weaken _ (transition-Recorded x d) (λ s r. r.job_kept) (λ _ s r. r) (λ s e. e)

  call_on-Recorded :
      (p : Option AdapterProcess) (m : String) (timeout : ℕ) (payload : Dict) (s : Session)
      → Recorded j s
      → Post (λ _. Recorded j) Has (call_on p m timeout payload s)
  call_on-Recorded none m timeout payload s r = r.job_kept
  call_on-Recorded (some p) m timeout payload s r = answered (request p s.now m timeout payload)
    where
      answered :
          (x : Result Dict × ℕ × AdapterProcess)
          → Post {A = Dict} (λ _. Recorded j) Has (x.0, record s { now = x.1; adapter = some x.2 })
      answered (ok d, n, q) = kept refl refl refl r
      answered (err e, n, q) = r.job_kept

  calling : (m : String) (timeout : ℕ) (payload : Dict) → Keeps (call m timeout payload)
  unfolding call
  calling m timeout payload = record {
    at = λ s r. call_on-Recorded s.adapter m timeout payload s r;
  }

  setting : (x : String) → Keeps (set_state x)
  unfolding set_state
  setting x = record { at = λ s r. kept refl refl refl r }

  pausing : (ms : ℕ) → Keeps (pause ms)
  unfolding pause
  pausing ms = record { at = λ s r. kept refl refl refl r }

  getting : {A : Type 0} (f : Session → A) → Keeps (gets f)
  getting f = Triple-gets f (λ s r. r)

  lifting : {A : Type 0} (x : Result A) → Keeps (lift x)
  lifting x = Triple-lift x (λ a s e r. r) (λ s r. r.job_kept)

  step :
      {A B : Type 0} (m : Action A) (f : A → Action B)
      → Keeps m
      → ((a : A) → Keeps (f a))
      → Keeps (m >>= f)
  step m f k r = Triple-bind m f k r

  module _ ⦃t : PyText⦄ where
    prepare-Recorded :
        (manifests : Manifests) (adapter_id : String)
        → Triple Has (prepare manifests adapter_id) (λ _. Recorded j) Has
    unfolding prepare
    prepare-Recorded manifests adapter_id = Triple-bind _ _ (transition-Recorded _ _) λ _.
        step _ _ (getting _) λ job. step _ _ (lifting _) λ manifest.
          step _ _ (Triple-modify _ (λ s r. kept refl refl refl r)) λ _. step _ _ (setting _) λ _.
            step _ _ (again _ _) λ _. step _ _ (Triple-modify _ (λ s r. kept refl refl refl r)) λ _.
              step _ _ (calling _ _ _)
                λ capabilities. step _ _ (lifting _) λ _. step _ _ (setting _) λ _. again _ _

    launch-Recorded : Keeps launch
    unfolding launch
    launch-Recorded = step _ _ (Triple-modify _ (λ s r. kept refl refl refl r)) λ _.
        step _ _ (getting _) λ job.
          step _ _ (calling _ _ _)
            λ response. step _ _ (setting _) λ _. step _ _ (lifting _) λ _. again _ _

    cancel_job-Recorded : Keeps cancel_job
    unfolding cancel_job
    cancel_job-Recorded = step _ _ (again _ _) λ _.
        step _ _ (getting _)
          λ job. step _ _ (calling _ _ _) λ response. step _ _ (setting _) λ _. again _ _

    time_out-Recorded : (timing : Timing) → Keeps (time_out timing)
    unfolding time_out set_state
    time_out-Recorded timing = step _ _ (getting _) λ job.
        finally_do-Triple {R = Has} _ _
          (Triple-weaken _ (calling _ _ _) (λ s r. r) (λ _ s r. r.job_kept) (λ s e. e))
          (Triple-bind {Q = λ _. Has} _ _ (record { at = λ s e. e }) λ _. transition-Recorded _ _)
          (λ s r. r.job_kept)

    poll_status-Recorded : Keeps poll_status
    unfolding poll_status note_state
    poll_status-Recorded = step _ _ (getting _) λ job. step _ _ (calling _ _ _) λ response.
        step _ _ (lifting _) λ _. step _ _ (getting _) λ last.
          Triple-if (_ == last) _ _ (λ _. Triple-pure _ (λ s r. r))
            λ _. step _ _ (setting _) λ _. again _ _

    watch_round-Recorded :
        (timing : Timing) (deadline : ℕ) (rest : Action (Unit {0}))
        → Keeps rest
        → Keeps (watch_round timing deadline rest)
    unfolding watch_round wait_and_poll
    watch_round-Recorded timing deadline rest k = step _ _ (getting _) λ last.
        step _ _ (getting _) λ stop. step _ _ (getting _) λ late.
          Triple-if (is_terminal last) _ _ (λ _. Triple-pure _ (λ s r. r))
            λ _.
              Triple-if stop _ _ (λ _. cancel_job-Recorded)
                λ _.
                  Triple-if late _ _ (λ _. time_out-Recorded timing)
                    λ _. step _ _ (pausing _) λ _. step _ _ (getting _) λ stopped.
                      Triple-if stopped _ _ (λ _. k) λ _. step _ _ poll_status-Recorded λ _. k

    watch-Recorded :
        (fuel : ℕ) (timing : Timing) (deadline : ℕ)
        → Keeps (watch (lift (err out_of_fuel)) fuel timing deadline)
    unfolding watch
    watch-Recorded zero timing deadline = lifting _
    watch-Recorded (suc fuel) timing deadline =
        watch_round-Recorded timing deadline _ (watch-Recorded fuel timing deadline)

    read_back :
        (file written : StateFile) (d content : Dict)
        → file ≡ written
        → written ≡ holds (obj content)
        → read_state file ≡ ok d
        → content ≡ d
    read_back file written d content e w r = ok-injective (rw (e ∙ w) at r)

    -- The `try` block returns what the state file holds.
    pub attempt-Recorded :
        (manifests : Manifests) (adapter_id : String) (timing : Timing)
        → Triple Has (attempt manifests adapter_id timing) (λ d s. IsRecord j s d) Has
    unfolding attempt
    attempt-Recorded manifests adapter_id timing =
        Triple-bind _ _ (prepare-Recorded manifests adapter_id) λ _.
          Triple-bind _ _ launch-Recorded λ _. Triple-bind _ _ (getting _) λ started.
            Triple-bind _ _ (watch-Recorded _ timing _) λ _.
              Triple-bind _ _
                (Triple-gets {Q = λ file s. Recorded j s × (file ≡ s.state_file)} _
                  (λ s r. (r, refl)))
                λ file.
                  Triple-lift _
                    (λ d s e r.
                      subst (IsRecord j s)
                        (read_back file s.state_file d r.0.content r.1 r.0.is_record.written e)
                        r.0.is_record)
                    (λ s r. r.0.job_kept)
