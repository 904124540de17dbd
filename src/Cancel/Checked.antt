-- ===== src/Cancel/Checked.antt =====
-- The proofs about `cancel_active_job` of roc_adapter_runtime.py: which process is signalled.
use roc_robot_sdk.Base.{
  arith, String, ◌≡◌, refl, ap, ◌∙◌, inl, inr, true, Option, none, some, Bool-cases, All,
}
use roc_robot_sdk.Base.Int.{negsuc, ℤ, pos, ltb_ℤ, eqb_ℤ}
use roc_robot_sdk.Session.{StateFile, missing, unreadable, holds}
use roc_robot_sdk.Cancel.{
  Processes, verify_runtime_process, is_active, to_int, lock_owner, existing_state, target, send,
  cancel_active_job,
}
use roc_robot_sdk.Py.Json.{null, bool, int, float, str, arr, obj, Dict, get, or_else, is_text}
use roc_robot_sdk.Failure.{
  wrong_job, job_not_active, no_valid_pid, lock_of_other, Result, ok, err, ok-injective, Ensures,
  Ensures-bind, Ensures-require, Ensures-ok,
}
use roc_robot_sdk.Lock.{Content}

-- The checks that a process passes before it is signalled: the state file is of the job, which is
-- active; the file and the lock both name the process; and it runs this program with `run`.
pub record IsRuntimeOf (ps : Processes) (file : StateFile) (lock : Option Content) (job_id : String)
    (pid : ℤ) : Type 0 where
  pub state : Dict
  pub stored : file ≡ holds (obj state)
  pub of_job : is_text job_id (get "jobId" state) ≡ true
  pub active : is_active (get "state" state) ≡ ok true
  pub named : to_int ps (or_else (get "pid" state) (int (pos 0))) ≡ ok pid
  pub positive : ltb_ℤ (pos 0) pid ≡ true
  pub owner : lock ≡ some (some pid)
  pub verified : verify_runtime_process ps pid ≡ ok tt

existing_state-holds :
    (file : StateFile) (d : Dict) → existing_state file ≡ ok d → file ≡ holds (obj d)
existing_state-holds missing d h = cc
existing_state-holds unreadable d h = cc
existing_state-holds (holds (obj e)) d h = ap (λ x. holds (obj x)) (ok-injective h)
existing_state-holds (holds null) d h = cc
existing_state-holds (holds (bool _)) d h = cc
existing_state-holds (holds (int _)) d h = cc
existing_state-holds (holds (float _)) d h = cc
existing_state-holds (holds (str _)) d h = cc
existing_state-holds (holds (arr _)) d h = cc

eqb_ℤ-eq : (a b : ℤ) → eqb_ℤ a b ≡ true → a ≡ b
eqb_ℤ-eq (pos m) (pos n) h = ap pos (ground arith)
eqb_ℤ-eq (pos m) (negsuc n) h = absurd (ground arith)
eqb_ℤ-eq (negsuc m) (pos n) h = absurd (ground arith)
eqb_ℤ-eq (negsuc m) (negsuc n) h = ap negsuc (ground arith)

lock_owner-some :
    (lock : Option Content) (a b : ℤ)
    → lock_owner lock ≡ ok a
    → eqb_ℤ a b ≡ true
    → lock ≡ some (some b)
lock_owner-some none a b h e = cc
lock_owner-some (some none) a b h e = cc
lock_owner-some (some (some c)) a b h e = ap (λ x. some (some x)) (ok-injective h ∙ eqb_ℤ-eq a b e)

target-Ensures :
    (ps : Processes) (file : StateFile) (lock : Option Content) (job_id : String)
    → Ensures (IsRuntimeOf ps file lock job_id) (target ps file lock job_id)
unfolding target
target-Ensures ps file lock job_id = Ensures-bind _ _ λ state s. Ensures-require _ wrong_job _ λ j.
    Ensures-bind _ _ λ active a. Ensures-require active job_not_active _ λ t.
      Ensures-bind _ _ λ pid n. Ensures-require _ no_valid_pid _ λ p. Ensures-bind _ _ λ owner o.
        Ensures-require _ lock_of_other _ λ e. Ensures-bind _ _ λ u v. Ensures-ok pid (record {
          state = state;
          stored = existing_state-holds file state s;
          of_job = j;
          active = a ∙ ap (λ x. ok x) t;
          named = n;
          positive = p;
          owner = lock_owner-some lock owner pid o e;
          verified = v;
        })

sent-IsRuntimeOf :
    (ps : Processes) (file : StateFile) (lock : Option Content) (job_id : String) (r : Result ℤ)
    → Ensures (IsRuntimeOf ps file lock job_id) r
    → All (IsRuntimeOf ps file lock job_id) (send ps job_id r).1
sent-IsRuntimeOf ps file lock job_id (err e) h = tt
sent-IsRuntimeOf ps file lock job_id (ok pid) h = elim (Bool-cases (ps.can_signal pid)) [
  | inl e ↦ rw e (h.of_ok pid refl, tt)
  | inr e ↦ rw e tt
]

-- `cancel_active_job` signals no process but the runtime of the job: each process that is sent
-- SIGTERM is named by the state file of the active job and by the lock, and runs this program.
pub cancel_active_job-IsRuntimeOf :
    (ps : Processes) (file : StateFile) (lock : Option Content) (job_id : String)
    → All (IsRuntimeOf ps file lock job_id) (cancel_active_job ps file lock job_id).1
unfolding cancel_active_job
cancel_active_job-IsRuntimeOf ps file lock job_id =
    sent-IsRuntimeOf ps file lock job_id _ (target-Ensures ps file lock job_id)
