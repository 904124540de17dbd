-- ===== src/Runtime/Account.antt =====
-- The `try` block of `JobRuntime.run` in roc_adapter_runtime.py and the account of the messages.
use roc_robot_sdk.Runtime.Keeps.{
  same, Keeps, transition-Keeps, pause-Keeps, set_state-Keeps, gets-Keeps, lift-Keeps, bind-Keeps,
  if-Keeps, call-Keeps, Started, call-Started,
}
use roc_robot_sdk.Session.{lift, Host, Action}
use roc_robot_sdk.Base.{ℕ, zero, suc, String, refl, inl, inr, Option, mem}
use roc_robot_sdk.Failure.{err, out_of_fuel}
use roc_robot_sdk.Session.Triple.{Triple-pure, Triple-gets, Triple-modify, Triple-bind}
use roc_robot_sdk.Runtime.{
  is_terminal, Timing, prepare, launch, cancel_job, time_out, note_state, poll_status,
  wait_and_poll, watch_round, watch, attempt,
}
use roc_robot_sdk.Runtime.Guard.{types}
use roc_robot_sdk.Runtime.Watch.{finally_do-Triple}
use roc_robot_sdk.Lock.{Content}
use roc_robot_sdk.Py.Text.{PyText}
use roc_robot_sdk.Discover.{Manifests}

module _ ⦃t : PyText⦄ (h : Host) (l : Option Content) where
  prepare-Keeps :
      (manifests : Manifests) (adapter_id : String) → Keeps h l (prepare manifests adapter_id)
  unfolding prepare mem types
  prepare-Keeps manifests adapter_id = bind-Keeps h l _ _ (transition-Keeps h l _ _) λ _.
      bind-Keeps h l _ _ (gets-Keeps h l _) λ job. bind-Keeps h l _ _ (lift-Keeps h l _) λ manifest.
        bind-Keeps h l _ _ (Triple-modify _ (λ s g. same h l refl refl refl refl g)) λ _.
          bind-Keeps h l _ _ (set_state-Keeps h l _) λ _.
            bind-Keeps h l _ _ (transition-Keeps h l _ _) λ _.
              bind-Keeps h l _ _
                (Triple-modify _ (λ s g. record {
                  host_kept = g.host_kept;
                  lock_kept = g.lock_kept;
                  sound = inl refl;
                  noted = inr refl;
                }))
                λ _. bind-Keeps h l _ _ (call-Keeps h l "capabilities.get" _ _ refl) λ capabilities.
                  bind-Keeps h l _ _ (lift-Keeps h l _)
                    λ _. bind-Keeps h l _ _ (set_state-Keeps h l _) λ _. transition-Keeps h l _ _

  launch-Keeps : Keeps h l launch
  unfolding launch
  launch-Keeps =
      Triple-bind {Q = λ _. Started h l} _ _
        (Triple-modify _ (λ s g. (
          record {
            host_kept = g.host_kept;
            lock_kept = g.lock_kept;
            sound = g.sound;
            noted = inl refl;
          },
          refl,
        )))
        λ _. Triple-bind _ _ (Triple-gets {Q = λ _. Started h l} _ (λ s g. g)) λ job.
          Triple-bind _ _ (call-Started h l "job.start" _ _) λ response.
            bind-Keeps h l _ _ (set_state-Keeps h l _)
              λ _. bind-Keeps h l _ _ (lift-Keeps h l _) λ _. transition-Keeps h l _ _

  cancel_job-Keeps : Keeps h l cancel_job
  unfolding cancel_job
  cancel_job-Keeps = bind-Keeps h l _ _ (transition-Keeps h l _ _) λ _.
      bind-Keeps h l _ _ (gets-Keeps h l _) λ job.
        bind-Keeps h l _ _ (call-Keeps h l "job.cancel" _ _ refl)
          λ response. bind-Keeps h l _ _ (set_state-Keeps h l _) λ _. transition-Keeps h l _ _

  time_out-Keeps : (timing : Timing) → Keeps h l (time_out timing)
  unfolding time_out
  time_out-Keeps timing = bind-Keeps h l _ _ (gets-Keeps h l _) λ job.
      finally_do-Triple _ _ (call-Keeps h l "job.cancel" _ _ refl)
        (bind-Keeps h l _ _ (set_state-Keeps h l _) λ _. transition-Keeps h l _ _) (λ s g. g)

  poll_status-Keeps : Keeps h l poll_status
  unfolding poll_status note_state
  poll_status-Keeps = bind-Keeps h l _ _ (gets-Keeps h l _) λ job.
      bind-Keeps h l _ _ (call-Keeps h l "job.status" _ _ refl) λ response.
        bind-Keeps h l _ _ (lift-Keeps h l _) λ _. bind-Keeps h l _ _ (gets-Keeps h l _) λ last.
          if-Keeps h l _ _ _ (Triple-pure _ (λ s g. g))
            (bind-Keeps h l _ _ (set_state-Keeps h l _) λ _. transition-Keeps h l _ _)

  watch_round-Keeps :
      (timing : Timing) (deadline : ℕ) (rest : Action (Unit {0}))
      → Keeps h l rest
      → Keeps h l (watch_round timing deadline rest)
  unfolding watch_round wait_and_poll
  watch_round-Keeps timing deadline rest k = bind-Keeps h l _ _ (gets-Keeps h l _) λ last.
      bind-Keeps h l _ _ (gets-Keeps h l _) λ stop. bind-Keeps h l _ _ (gets-Keeps h l _) λ late.
        if-Keeps h l (is_terminal last) _ _ (Triple-pure _ (λ s g. g)) (
          if-Keeps h l stop _ _ cancel_job-Keeps (
            if-Keeps h l late _ _ (time_out-Keeps timing) (
              bind-Keeps h l _ _ (pause-Keeps h l _) λ _.
                bind-Keeps h l _ _ (gets-Keeps h l _) λ stopped.
                  if-Keeps h l stopped _ _ k (bind-Keeps h l _ _ poll_status-Keeps λ _. k))))

  watch-Keeps :
      (fuel : ℕ) (timing : Timing) (deadline : ℕ)
      → Keeps h l (watch (lift (err out_of_fuel)) fuel timing deadline)
  unfolding watch
  watch-Keeps zero timing deadline = lift-Keeps h l _
  watch-Keeps (suc fuel) timing deadline =
      watch_round-Keeps timing deadline _ (watch-Keeps fuel timing deadline)

  pub attempt-Keeps :
      (manifests : Manifests) (adapter_id : String) (timing : Timing)
      → Keeps h l (attempt manifests adapter_id timing)
  unfolding attempt
  attempt-Keeps manifests adapter_id timing =
      bind-Keeps h l _ _ (prepare-Keeps manifests adapter_id) λ _.
        bind-Keeps h l _ _ launch-Keeps λ _. bind-Keeps h l _ _ (gets-Keeps h l _) λ started.
          bind-Keeps h l _ _ (watch-Keeps _ timing _)
            λ _. bind-Keeps h l _ _ (gets-Keeps h l _) λ file. lift-Keeps h l _
