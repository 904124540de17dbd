-- ===== src/Run/Safety.antt =====
-- The exception handler of `JobRuntime.run`: the safety cancellation.
use roc_robot_sdk.Session.Triple.{Triple-kept}
use roc_robot_sdk.Base.{
  arith, Bool, ℕ, String, ◌≡◌, refl, ◌⊎◌, inl, inr, true, false, not, ◌&&◌, Option, none, some,
  Bool-cases, is_some, mem,
}
use roc_robot_sdk.Runtime.Keeps.{transition-Keeps, call-Keeps}
use roc_robot_sdk.Run.{handle_failure, safety_cancel, record_failure}
use roc_robot_sdk.Failure.{Failure}
use roc_robot_sdk.Py.Json.{Json, Dict}
use roc_robot_sdk.Session.{
  Disk, works, state_fails, outbox_fails, Host, Session, wrote_state, emitted, transition_on,
  transition, call_on, call,
}
use roc_robot_sdk.Runtime.{is_terminal}
use roc_robot_sdk.Runtime.Guard.{types, sent, IsSound, Guarded, Sends, request-Sends}
use roc_robot_sdk.Lock.{Content}
use roc_robot_sdk.Process.{AdapterProcess}
use roc_robot_sdk.Py.Text.{PyText}

-- `job.start` is no longer open: a terminal state was reached, or `job.cancel` was sent.
abbrev pub IsSettled : Session → Type 0
IsSettled s =
    mem "job.start" (sent s.adapter) ≡ true
    → (is_terminal s.last_state ≡ true) ⊎ (mem "job.cancel" (sent s.adapter) ≡ true)

module _ ⦃t : PyText⦄ where
  transition_on-same :
      (disk : Disk) (x : String) (d : Json) (s : Session)
      → ((transition_on disk x d s).1.adapter ≡ s.adapter)
        × ((transition_on disk x d s).1.last_state ≡ s.last_state)
  unfolding wrote_state emitted
  transition_on-same works x d s = (refl, refl)
  transition_on-same state_fails x d s = (refl, refl)
  transition_on-same outbox_fails x d s = (refl, refl)

  record_failure-same :
      (e : Failure) (d : Dict) (s : Session)
      → ((record_failure e d s).adapter ≡ s.adapter)
        × ((record_failure e d s).last_state ≡ s.last_state)
  unfolding record_failure transition
  record_failure-same e d s = elim (Bool-cases (is_terminal s.last_state)) [
    | inl ended ↦ rw ended (refl, refl)
    | inr running ↦ rw running (transition_on-same _ "FAILED" _ s)
  ]

  Sends-cancel :
      (p q : AdapterProcess)
      → IsSound (some p)
      → Sends p q "job.cancel"
      → mem "job.start" (types q.attempts) ≡ true
      → mem "job.cancel" (types q.attempts) ≡ true
  unfolding mem types
  Sends-cancel p q sound x start = elim x.cases [
    | inr e ↦ rw e.1 refl
    | inl e ↦ elim sound [
      | inl nothing ↦ absurd (cc (rw (e.1, nothing) at start))
      | inr started ↦ absurd (cc (started, e.0))
    ]
  ]

  call_on-IsSettled :
      (p : Option AdapterProcess) (timeout : ℕ) (payload : Dict) (s : Session)
      → IsSound p
      → s.adapter ≡ p
      → IsSettled (call_on p "job.cancel" timeout payload s).1
  unfolding mem
  call_on-IsSettled none timeout payload s sound e start = absurd (cc (rw e at start))
  call_on-IsSettled (some p) timeout payload s sound e start =
      inr (Sends-cancel p _ sound (request-Sends p s.now "job.cancel" timeout payload) start)

  safety_cancel-IsSettled :
      (h : Host) (l : Option Content) (s : Session) → Guarded h l s → IsSettled (safety_cancel s).1
  unfolding safety_cancel call mem
  safety_cancel-IsSettled h l s g =
      elim (Bool-cases (s.start_attempted && is_some s.adapter && not (is_terminal s.last_state))) [
        | inl e ↦ rw e (call_on-IsSettled s.adapter 5000 _ s g.sound refl)
        | inr e ↦ rw e (untouched s g.noted e)
      ]
    where
      started_with :
          (a : Option AdapterProcess) → mem "job.start" (sent a) ≡ true → is_some a ≡ true
      started_with none start = cc
      started_with (some p) start = refl

      ending : (b : Bool) → not b ≡ false → b ≡ true
      ending b h = ground arith

      untouched :
          (s : Session)
          → (s.start_attempted ≡ true) ⊎ (mem "job.start" (sent s.adapter) ≡ false)
          → (s.start_attempted && is_some s.adapter && not (is_terminal s.last_state)) ≡ false
          → IsSettled s
      untouched s (inr n) e start = absurd (cc (n, start))
      untouched s (inl y) e start =
          inl (ending (is_terminal s.last_state) (rw (y, started_with s.adapter start) at e))

  pub handle_failure-IsSettled :
      (h : Host) (l : Option Content) (e : Failure) (s : Session)
      → Guarded h l s
      → IsSettled (handle_failure e s)
  unfolding handle_failure
  handle_failure-IsSettled h l e s g =
      rw (record_failure-same e (safety_cancel s).0 (safety_cancel s).1).0 (
        rw (record_failure-same e (safety_cancel s).0 (safety_cancel s).1).1
          (safety_cancel-IsSettled h l s g))

  pub handle_failure-Guarded :
      (h : Host) (l : Option Content) (e : Failure) (s : Session)
      → Guarded h l s
      → Guarded h l (handle_failure e s)
  unfolding handle_failure safety_cancel record_failure
  handle_failure-Guarded h l e s g = recorded (safety_cancel s) cancelling
    where
      cancelling : Guarded h l (safety_cancel s).1
      cancelling =
          elim (Bool-cases
            (s.start_attempted && is_some s.adapter && not (is_terminal s.last_state))) [
              | inl c ↦ rw c (Triple-kept _ (call-Keeps h l "job.cancel" 5000 _ refl) g)
              | inr c ↦ rw c g
            ]

      recorded : (x : Dict × Session) → Guarded h l x.1 → Guarded h l (record_failure e x.0 x.1)
      recorded (d, s) g = elim (Bool-cases (is_terminal s.last_state)) [
        | inl c ↦ rw c g
        | inr c ↦ rw c (Triple-kept _ (transition-Keeps h l "FAILED" _) g)
      ]
