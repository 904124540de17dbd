-- ===== src/Runtime/Watch.antt =====
-- The loop of `JobRuntime.run` in roc_adapter_runtime.py that watches a job, and the order of the states.
use roc_robot_sdk.Base.{
  ℕ, zero, suc, ◌==◌, if◌then◌else◌, sym, ◌∙◌, inl, inr, false, eq_iff, Bool-cases, String, ◌≡◌,
  refl, true,
}
use roc_robot_sdk.Runtime.Order.{
  pause-Stands, running_may_fail, cancelling_may_fail, may_follow, Stands, MayFail, call-Stands,
  Stands-MayFail,
}
use roc_robot_sdk.Runtime.States.{
  Watching-running, Watching, terminal-follows_running, reportable-cases, require_reportable-ok,
  Stands-Watching, Ended-MayFail, failing, move, reading, Ended, terminal-follows_cancelling,
  Stands-Ended, record_state,
}
use roc_robot_sdk.Runtime.Prepare.{prepare-Stands, launch-Watching}
use roc_robot_sdk.Session.Triple.{
  Triple-fail, Triple-given, Predicate, Post, Triple, Triple-bind, Triple-gets, Triple-lift,
  Triple-pure, Triple-if, Triple-weaken,
}
use mathlib.Core.Path.{subst}
use roc_robot_sdk.Runtime.{
  settle, Timing, is_terminal, is_reportable, require_reportable, cancel_job, time_out, note_state,
  poll_status, wait_and_poll, watch_round, watch, attempt, finally_do,
}
use roc_robot_sdk.Py.Json.{Dict, Json}
use roc_robot_sdk.Py.Text.{PyText}
use roc_robot_sdk.Failure.{Result, ok, err, out_of_fuel}
use roc_robot_sdk.Discover.{Manifests}
use roc_robot_sdk.Session.{Session, Action, transition, set_state, ◌>>◌, lift}

module _ ⦃t : PyText⦄ where
  cancel_job-Ended : Triple (Stands "RUNNING" "RUNNING") cancel_job (λ _. Ended) MayFail
  unfolding cancel_job may_follow
  cancel_job-Ended =
      Triple-bind _ _ (move "RUNNING" "CANCELLING" "RUNNING" _ refl running_may_fail) λ _.
        Triple-bind _ _ (reading _) λ job.
          Triple-bind _ _ (failing {l = "RUNNING"} cancelling_may_fail (call-Stands _ _ _))
            λ response. ended _ _
    where
      chosen : (x : String) → is_terminal (if is_terminal x then x else "CANCELLED") ≡ true
      chosen x = elim (Bool-cases (is_terminal x)) [
        | inl e ↦ rw e e
        | inr e ↦ rw e (unfold is_terminal in refl)
      ]

      ended :
          (x : String) (d : Json)
          → let y = if is_terminal x then x else "CANCELLED" in
            Triple
              (Stands "CANCELLING" "RUNNING")
              (set_state y >> transition y d)
              (λ _. Ended)
              MayFail
      ended x d =
          Triple-weaken _
            (record_state "CANCELLING" "RUNNING" _ d (terminal-follows_cancelling _ (chosen x))
              cancelling_may_fail)
            (λ s p. p) (λ _ s q. Stands-Ended _ s (chosen x) q) (λ s e. e)

  -- An action, and another that is run whether the first returns or raises.
  pub finally_do-Triple :
      {P R Q E : Predicate} (m : Action Dict) (k : Action (Unit {0}))
      → Triple P m (λ _. R) R
      → Triple R k (λ _. Q) E
      → ((s : Session) → Q s → E s)
      → Triple P (finally_do m k) (λ _. Q) E
  unfolding finally_do
  finally_do-Triple {P} {R} {Q} {E} m k h g q = record {
    at = λ s p. settled (m s).0 (k (m s).1) (g.at (m s).1 (either (m s) (h.at s p)));
  }
    where
      either : (x : Result Dict × Session) → Post (λ _. R) R x → R x.1
      either (ok d, s) r = r
      either (err e, s) r = r

      settled :
          (r : Result Dict) (y : Result (Unit {0}) × Session)
          → Post (λ _. Q) E y
          → Post (λ _. Q) E (settle y.0 r, y.1)
      settled (ok d) (ok u, s) p = p
      settled (err e) (ok u, s) p = q s p
      settled (ok d) (err f, s) p = p
      settled (err e) (err f, s) p = p

  time_out-Ended :
      (timing : Timing) → Triple (Stands "RUNNING" "RUNNING") (time_out timing) (λ _. Ended) MayFail
  unfolding time_out may_follow is_terminal
  time_out-Ended timing = Triple-bind _ _ (reading _) λ job.
      finally_do-Triple _ _ (call-Stands {a = "RUNNING"} {l = "RUNNING"} _ _ _)
        (Triple-weaken _ (record_state "RUNNING" "RUNNING" "TIMED_OUT" _ refl refl) (λ s p. p)
          (λ _ s q. Stands-Ended "TIMED_OUT" s refl q) (λ s e. e))
        Ended-MayFail

  -- A reported state is reached from RUNNING.
  note_state-Watching :
      (x : String) (d : Json)
      → is_reportable x ≡ true
      → Triple (Stands "RUNNING" "RUNNING") (note_state x d) (λ _. Watching) MayFail
  unfolding note_state
  note_state-Watching x d r =
      Triple-bind _ _
        (Triple-gets {Q = λ last s. Stands "RUNNING" "RUNNING" s × (last ≡ "RUNNING")} _
          (λ s p. (p, p.noted)))
        λ last. Triple-given _ _ λ running.
          Triple-if (x == last) _ _
            (λ same. Triple-pure _ (λ s p.
              Stands-Watching "RUNNING" s
                (subst (λ y. is_reportable y ≡ true) ((eq_iff x last).0 same ∙ running) r) p))
            (λ differs.
              Triple-weaken _
                (record_state "RUNNING" "RUNNING" x d
                  (terminal-follows_running x (terminal_of last running differs)) running_may_fail)
                (λ s p. p) (λ _ s q. Stands-Watching x s r q) (λ s e. e))
    where
      terminal_of : (last : String) → last ≡ "RUNNING" → (x == last) ≡ false → is_terminal x ≡ true
      terminal_of last running differs = elim (reportable-cases x r) [
        | inl e ↦ e
        | inr e ↦ absurd (cc (differs, (eq_iff x last).1 (e ∙ sym running)))
      ]

  poll_status-Watching : Triple (Stands "RUNNING" "RUNNING") poll_status (λ _. Watching) MayFail
  unfolding poll_status
  poll_status-Watching = Triple-bind _ _ (reading _) λ job.
      Triple-bind _ _ (failing {l = "RUNNING"} running_may_fail (call-Stands _ _ _))
        λ response. Triple-bind _ _ (checked _) λ _. Triple-given _ _ (note_state-Watching _ _)
    where
      checked :
          (x : String)
          → Triple
              (Stands "RUNNING" "RUNNING")
              (lift (require_reportable x))
              (λ _ s. Stands "RUNNING" "RUNNING" s × (is_reportable x ≡ true))
              MayFail
      checked x =
          Triple-lift _ (λ u s e p. (p, require_reportable-ok x u e))
            (λ s p. Stands-MayFail s running_may_fail p)

  -- `rest` stands for the rounds that are left.
  module _ (timing : Timing) (deadline : ℕ) (rest : Action (Unit {0})) where
    wait_and_poll-Ended :
        Triple Watching rest (λ _. Ended) MayFail
        → Triple (Stands "RUNNING" "RUNNING") (wait_and_poll timing rest) (λ _. Ended) MayFail
    unfolding wait_and_poll is_reportable
    wait_and_poll-Ended h =
        Triple-bind _ _ (pause-Stands {a = "RUNNING"} {l = "RUNNING"} _ MayFail) λ _.
          Triple-bind _ _ (reading _) λ stop.
            Triple-if stop _ _
              (λ _.
                Triple-weaken _ h (λ s p. Stands-Watching "RUNNING" s refl p) (λ _ s q. q)
                  (λ s e. e))
              (λ _. Triple-bind _ _ poll_status-Watching λ _. h)

    watch_round-Ended :
        Triple Watching rest (λ _. Ended) MayFail
        → Triple Watching (watch_round timing deadline rest) (λ _. Ended) MayFail
    unfolding watch_round
    watch_round-Ended h =
        Triple-bind _ _
          (Triple-gets {Q = λ last s. Watching s × (last ≡ s.last_state)} _ (λ s p. (p, refl)))
          λ last.
            Triple-bind _ _
              (Triple-gets {Q = λ _ s. Watching s × (last ≡ s.last_state)} _ (λ s p. p))
              λ stop.
                Triple-bind _ _
                  (Triple-gets {Q = λ _ s. Watching s × (last ≡ s.last_state)} _ (λ s p. p))
                  λ late.
                    Triple-if (is_terminal last) _ _
                      (λ done. Triple-pure _ (λ s p. record {
                        legal = p.0.legal;
                        emitted = p.0.emitted;
                        terminal = subst (λ x. is_terminal x ≡ true) p.1 done;
                      }))
                      (λ running.
                        Triple-weaken _
                          (Triple-if stop _ _ (λ _. cancel_job-Ended)
                            (λ _.
                              Triple-if late _ _ (λ _. time_out-Ended timing)
                                (λ _. wait_and_poll-Ended h)))
                          (λ s p.
                            Watching-running s (subst (λ x. is_terminal x ≡ false) p.1 running) p.0)
                          (λ _ s q. q) (λ s e. e))

  Watching-MayFail : (s : Session) → Watching s → MayFail s
  Watching-MayFail s w = record {
    legal = w.legal;
    open_end = elim (reportable-cases s.last_state w.reportable) [
      | inl e ↦ inl e
      | inr e ↦ inr (rw (w.emitted ∙ e) running_may_fail)
    ];
  }

  watch-Ended :
      (fuel : ℕ) (timing : Timing) (deadline : ℕ)
      → Triple Watching (watch (lift (err out_of_fuel)) fuel timing deadline) (λ _. Ended) MayFail
  unfolding watch
  watch-Ended zero timing deadline = Triple-fail _ Watching-MayFail
  watch-Ended (suc fuel) timing deadline =
      watch_round-Ended timing deadline _ (watch-Ended fuel timing deadline)

  -- The whole of the `try` block.
  pub attempt-Ended :
      (manifests : Manifests) (adapter_id : String) (timing : Timing)
      → Triple (Stands "" "RECEIVED") (attempt manifests adapter_id timing) (λ _. Ended) MayFail
  unfolding attempt
  attempt-Ended manifests adapter_id timing =
      Triple-bind _ _ (prepare-Stands manifests adapter_id) λ _.
        Triple-bind _ _ launch-Watching λ _.
          Triple-bind _ _ (Triple-gets {Q = λ _. Watching} _ (λ s p. p)) λ started.
            Triple-bind _ _ (watch-Ended _ timing _) λ _.
              Triple-bind _ _ (Triple-gets {Q = λ _. Ended} _ (λ s p. p))
                λ file. Triple-lift _ (λ d s e p. p) Ended-MayFail
