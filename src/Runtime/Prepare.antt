-- ===== src/Runtime/Prepare.antt =====
-- The steps of `JobRuntime.run` in roc_adapter_runtime.py up to the start of the job, and the order of
-- the states.
use roc_robot_sdk.Runtime.Order.{
  starting_may_fail, may_follow, Stands, MayFail, transition-Stands, call-Stands, set_state-Stands,
  Stands-MayFail,
}
use roc_robot_sdk.Runtime.States.{
  failing, move, reading, checking, Watching, reportable-follows_start, require_reportable-ok,
  Stands-Watching,
}
use roc_robot_sdk.Session.Triple.{
  Triple-given, Triple, Triple-bind, Triple-lift, Triple-modify, Triple-weaken,
}
use roc_robot_sdk.Base.{String, ◌≡◌, refl, true}
use roc_robot_sdk.Py.Json.{Json}
use roc_robot_sdk.Py.Text.{PyText}
use roc_robot_sdk.Discover.{Manifests}
use roc_robot_sdk.Session.{transition, lift}
use roc_robot_sdk.Runtime.{is_reportable, require_reportable, prepare, launch}

module _ ⦃t : PyText⦄ where
  pub prepare-Stands :
      (manifests : Manifests) (adapter_id : String)
      → Triple
          (Stands "" "RECEIVED")
          (prepare manifests adapter_id)
          (λ _. Stands "STARTING" "STARTING")
          MayFail
  unfolding prepare may_follow
  prepare-Stands manifests adapter_id =
      Triple-bind _ _ (move "" "RECEIVED" "RECEIVED" _ refl refl) λ _.
        Triple-bind _ _ (reading _) λ job. Triple-bind _ _ (checking _ refl) λ manifest.
          Triple-bind _ _
            (Triple-modify _
              (λ s p. record { legal = p.legal; emitted = p.emitted; noted = p.noted }))
            λ _. Triple-bind _ _ (set_state-Stands {l = "RECEIVED"} "VALIDATED" MayFail) λ _.
              Triple-bind _ _ (move "RECEIVED" "VALIDATED" "VALIDATED" _ refl refl) λ _.
                Triple-bind _ _
                  (Triple-modify _
                    (λ s p. record { legal = p.legal; emitted = p.emitted; noted = p.noted }))
                  λ _.
                    Triple-bind _ _ (failing {l = "VALIDATED"} refl (call-Stands _ _ _))
                      λ capabilities. Triple-bind _ _ (checking _ refl) λ _.
                        Triple-bind _ _ (set_state-Stands {l = "VALIDATED"} "STARTING" MayFail)
                          λ _. move "VALIDATED" "STARTING" "STARTING" _ refl refl

  pub launch-Watching : Triple (Stands "STARTING" "STARTING") launch (λ _. Watching) MayFail
  unfolding launch
  launch-Watching =
      Triple-bind _ _
        (Triple-modify _ (λ s p. record { legal = p.legal; emitted = p.emitted; noted = p.noted }))
        λ _. Triple-bind _ _ (reading _) λ job.
          Triple-bind _ _ (failing {l = "STARTING"} starting_may_fail (call-Stands _ _ _))
            λ response.
              Triple-bind _ _ (set_state-Stands {l = "STARTING"} _ MayFail)
                λ _. Triple-bind _ _ (checked _) λ _. launched _ _
    where
      launched :
          (x : String) (d : Json)
          → Triple
              (λ s. Stands "STARTING" x s × (is_reportable x ≡ true))
              (transition x d)
              (λ _. Watching)
              MayFail
      launched x d = Triple-given _ _ λ r.
          Triple-weaken _ (transition-Stands "STARTING" x x d (reportable-follows_start x r))
            (λ s p. p) (λ _ s q. Stands-Watching x s r q)
            (λ s e. Stands-MayFail s starting_may_fail e)

      checked :
          (x : String)
          → Triple
              (Stands "STARTING" x)
              (lift (require_reportable x))
              (λ _ s. Stands "STARTING" x s × (is_reportable x ≡ true))
              MayFail
      checked x =
          Triple-lift _ (λ u s e p. (p, require_reportable-ok x u e))
            (λ s p. Stands-MayFail s starting_may_fail p)
