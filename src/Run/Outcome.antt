-- ===== src/Run/Outcome.antt =====
-- What `JobRuntime.run` of roc_adapter_runtime.py leaves behind.
use mathlib.Core.Path.{subst}
use roc_robot_sdk.Process.Close.{breaks, close, close-Closes}
use roc_robot_sdk.Base.{
  sym, ◌⊎◌, false, refl, mem, ℕ, String, ◌≡◌, inl, inr, true, not, ◌&&◌, Option, none, some,
  Bool-cases, is_some,
}
use roc_robot_sdk.Session.Triple.{Post, Triple-kept}
use roc_robot_sdk.Runtime.{Timing, attempt, is_terminal}
use roc_robot_sdk.Runtime.States.{IsFresh, Stands-fresh, Ended}
use roc_robot_sdk.Runtime.Guard.{sent, Guarded}
use roc_robot_sdk.Runtime.Watch.{attempt-Ended}
use roc_robot_sdk.Runtime.Account.{attempt-Keeps}
use roc_robot_sdk.Run.{
  wrapped, restored, handled, finish, entered, run_locked, safety_cancel, record_failure,
  handle_failure,
}
use roc_robot_sdk.Lock.{Content, release_lock}
use roc_robot_sdk.Discover.{Manifests}
use roc_robot_sdk.Py.Json.{Json, Dict}
use roc_robot_sdk.Failure.{Failure, Result, ok, err, other_exception}
use roc_robot_sdk.Run.Safety.{IsSettled, handle_failure-IsSettled, handle_failure-Guarded}
use roc_robot_sdk.Session.{
  Disk, works, state_fails, outbox_fails, Handler, Session, wrote_state, emitted, transition_on,
  transition, call_on, call,
}
use roc_robot_sdk.Runtime.Order.{may_follow, latest, Legal, MayFail}
use roc_robot_sdk.Process.{AdapterProcess, close_process}
use roc_robot_sdk.Py.Text.{PyText}

-- `close` of this adapter raised, because closing the standard input did or because SIGKILL did not
-- end the process in time.
abbrev pub IsUnclosed : Option AdapterProcess → Type 0
IsUnclosed none = ⊥
IsUnclosed (some p) = (breaks p.child ≡ true) ⊎ (p.child.dies ≡ false)

module _ ⦃t : PyText⦄ where
  call_on-MayFail :
      (p : Option AdapterProcess) (m : String) (timeout : ℕ) (payload : Dict) (s : Session)
      → MayFail s
      → MayFail (call_on p m timeout payload s).1
  call_on-MayFail none m timeout payload s h = h
  call_on-MayFail (some p) m timeout payload s h = record { legal = h.legal; open_end = h.open_end }

  safety_cancel-MayFail : (s : Session) → MayFail s → MayFail (safety_cancel s).1
  unfolding safety_cancel call
  safety_cancel-MayFail s h =
      elim (Bool-cases (s.start_attempted && is_some s.adapter && not (is_terminal s.last_state))) [
        | inl e ↦ rw e (call_on-MayFail s.adapter "job.cancel" 5000 _ s h)
        | inr e ↦ rw e h
      ]

  transition_on-Legal :
      (disk : Disk) (x : String) (d : Json) (s : Session)
      → may_follow (latest s.events) x ≡ true
      → Legal s.events
      → Legal (transition_on disk x d s).1.events
  unfolding Legal emitted wrote_state
  transition_on-Legal works x d s f h = (f, h)
  transition_on-Legal state_fails x d s f h = h
  transition_on-Legal outbox_fails x d s f h = h

  record_failure-Legal :
      (e : Failure) (d : Dict) (s : Session) → MayFail s → Legal (record_failure e d s).events
  unfolding record_failure transition
  record_failure-Legal e d s h = elim h.open_end [
    | inl ended ↦ rw ended h.legal
    | inr may ↦ elim (Bool-cases (is_terminal s.last_state)) [
      | inl ended ↦ rw ended h.legal
      | inr running ↦ rw running (transition_on-Legal _ "FAILED" _ s may h.legal)
    ]
  ]

  handle_failure-Legal : (e : Failure) (s : Session) → MayFail s → Legal (handle_failure e s).events
  unfolding handle_failure
  handle_failure-Legal e s h = record_failure-Legal e _ _ (safety_cancel-MayFail s h)

  -- Either the lock is released and the handlers are restored, or the `finally` clause was left by the
  -- exception of `close`, and the lock is as it was.
  abbrev Leaves :
      Session
      → Handler × Handler
      → Result Dict
      → Option AdapterProcess
      → Handler × Handler
      → Option Content
      → Type 0
  Leaves y before r adapter handlers lock =
      ((lock ≡ release_lock y.host.unlinks y.host.pid y.lock) × (handlers ≡ before))
      ⊎ ((r ≡ err other_exception) × IsUnclosed adapter × (lock ≡ y.lock))

  -- What the `try` statement leaves, from the state in which the lock is taken.
  pub record IsOutcome (s : Session) (x : Result Dict × Session) : Type 0 where
    pub legal : Legal x.1.events
    pub settled : IsSettled x.1
    pub leaves : Leaves s s.handlers x.0 x.1.adapter x.1.handlers x.1.lock
    pub ended : (d : Dict) → x.0 ≡ ok d → Ended x.1

  -- What the `finally` clause makes of a result and a state.
  record Finished (before : Handler × Handler) (r : Result Dict) (y : Session) : Type 0 where
    result : Result Dict
    adapter : Option AdapterProcess
    handlers : Handler × Handler
    lock : Option Content
    shape :
        finish before (r, y)
        ≡ (result, record y { adapter = adapter; handlers = handlers; lock = lock })
    same_sent : sent adapter ≡ sent y.adapter
    same_result : (d : Dict) → result ≡ ok d → r ≡ ok d
    leaves : Leaves y before result adapter handlers lock

  finish-restored :
      (before : Handler × Handler) (r : Result Dict) (y : Session) (adapter : Option AdapterProcess)
      → finish before (r, y) ≡ restored before r (ok tt) (record y { adapter = adapter })
      → sent adapter ≡ sent y.adapter
      → Finished before r y
  finish-restored before r y adapter q same = record {
    result = r;
    adapter = adapter;
    handlers = before;
    lock = release_lock y.host.unlinks y.host.pid y.lock;
    shape = q;
    same_sent = same;
    same_result = λ d h. h;
    leaves = inl (refl, refl);
  }

  finish-Finished :
      (before : Handler × Handler) (r : Result Dict) (y : Session) (a : Option AdapterProcess)
      → y.adapter ≡ a
      → Finished before r y
  unfolding finish close_process
  finish-Finished before r y none e = finish-restored before r y none (rw e refl) (rw e refl)
  finish-Finished before r y (some p) e = elim (Bool-cases p.started) [
    | inr idle ↦ finish-restored before r y (some p) (rw (e, idle) refl) (rw e refl)
    | inl started ↦ elim (close-Closes p.child) [
      | inl (done, ended) ↦
          finish-restored before r y (some (record p { endings = (close p.child).1 }))
            (rw (e, started, done) refl) (rw e refl)
      | inr f ↦ record {
        result = err other_exception;
        adapter = some (record p { endings = (close p.child).1 });
        handlers = y.handlers;
        lock = y.lock;
        shape = rw (e, started, f.raises) refl;
        same_sent = rw e refl;
        same_result = λ d h. absurd (cc h);
        leaves = inr (refl, f.cause, refl);
      }
    ]
  ]

  entered-Guarded : (s : Session) → s.adapter ≡ none → Guarded s.host s.lock (entered s)
  unfolding entered mem
  entered-Guarded s e = record {
    host_kept = refl;
    lock_kept = refl;
    sound = rw e tt;
    noted = inr (rw e refl);
  }

  entered-IsFresh : (s : Session) → IsFresh (entered s)
  unfolding entered
  entered-IsFresh s = record { silent = refl; received = refl }

  Finished-IsOutcome :
      (s : Session) (r : Result Dict) (y : Session)
      → Finished s.handlers r y
      → Guarded s.host s.lock y
      → Legal y.events
      → IsSettled y
      → ((d : Dict) → r ≡ ok d → Ended y)
      → IsOutcome s (finish s.handlers (r, y))
  Finished-IsOutcome s r y f g legal settled ended = subst (IsOutcome s) (sym f.shape) (record {
    legal = legal;
    settled = rw f.same_sent settled;
    leaves = rw (← g.host_kept, ← g.lock_kept) f.leaves;
    ended = λ d h. again (ended d (f.same_result d h));
  })
    where
      again :
          Ended y → Ended (record y { adapter = f.adapter; handlers = f.handlers; lock = f.lock })
      again e = record { legal = e.legal; emitted = e.emitted; terminal = e.terminal }

  handled-IsOutcome :
      (s : Session) (x : Result Dict × Session)
      → Guarded s.host s.lock x.1
      → Post (λ _. Ended) MayFail x
      → IsOutcome s (finish s.handlers (handled x))
  handled-IsOutcome s (ok d, y) g e =
      Finished-IsOutcome s (ok d) y (finish-Finished s.handlers (ok d) y y.adapter refl) g e.legal
        (λ start. inl e.terminal) (λ d' h. e)
  handled-IsOutcome s (err f, y) g e =
      let z = handle_failure f y in
      Finished-IsOutcome s (err (wrapped f)) z
        (finish-Finished s.handlers (err (wrapped f)) z z.adapter refl)
        (handle_failure-Guarded s.host s.lock f y g) (handle_failure-Legal f y e)
        (handle_failure-IsSettled s.host s.lock f y g) (λ d h. absurd (cc h))

  pub run_locked-IsOutcome :
      (manifests : Manifests) (adapter_id : String) (timing : Timing) (s : Session)
      → s.adapter ≡ none
      → IsOutcome s (run_locked manifests adapter_id timing s)
  unfolding run_locked
  run_locked-IsOutcome manifests adapter_id timing s e =
      handled-IsOutcome s (attempt manifests adapter_id timing (entered s))
        (Triple-kept _ (attempt-Keeps s.host s.lock manifests adapter_id timing)
          (entered-Guarded s e))
        ((attempt-Ended manifests adapter_id timing).at _ (Stands-fresh _ (entered-IsFresh s)))
