-- ===== src/Runtime/Time.antt =====
-- The time that the actions of a run of roc_adapter_runtime.py take.
use roc_robot_sdk.Base.{
  ◌==◌, arith, ℕ, ◌≤◌, String, inl, inr, not, ◌&&◌, Option, none, some, Bool-cases,
}
use roc_robot_sdk.Runtime.{note_state, poll_status}
use roc_robot_sdk.Session.{
  Disk, works, state_fails, outbox_fails, Session, Action, set_state, wrote_state, emitted,
  transition_on, transition, call_on, call,
}
use roc_robot_sdk.Session.Triple.{
  Predicate, Post, Triple, Triple-pure, Triple-lift, Triple-gets, Triple-if, Triple-bind,
}
use roc_robot_sdk.Failure.{Result, ok, err}
use roc_robot_sdk.Py.Json.{Json, Dict}
use roc_robot_sdk.Process.{AdapterProcess, next_exchange, request}
use roc_robot_sdk.Process.Await.{await-IsAnswer}
use roc_robot_sdk.Py.Text.{PyText}

-- The time has not run back behind `n`.
abbrev After : ℕ → Predicate
After n s = n ≤ s.now

-- An action that takes time, if anything.
abbrev Passing : {A : Type 0} → ℕ → Action A → Type 0
Passing n m = Triple (After n) m (λ _. After n) (After n)

module _ (n : ℕ) where
  transition_on-Passing :
      (disk : Disk) (x : String) (d : Json) (s : Session)
      → After n s
      → Post (λ _. After n) (After n) (transition_on disk x d s)
  unfolding wrote_state emitted
  transition_on-Passing works x d s h = h
  transition_on-Passing state_fails x d s h = h
  transition_on-Passing outbox_fails x d s h = h

  request_after :
      (p : AdapterProcess) (now : ℕ) (m : String) (timeout : ℕ) (payload : Dict)
      → n ≤ now
      → n ≤ (request p now m timeout payload).1
  unfolding request
  request_after p now m timeout payload h = elim (Bool-cases (not p.started && not p.spawns)) [
    | inl e ↦ rw e h
    | inr e ↦ elim (Bool-cases (next_exchange p.script).accepts) [
      | inl a ↦ rw (e, a) (later (await-IsAnswer m _ _ now _).no_sooner)
      | inr a ↦ rw (e, a) h
    ]
  ]
    where
      later : {k : ℕ} → now ≤ k → n ≤ k
      later g = omega arith

  call_on-Passing :
      (p : Option AdapterProcess) (m : String) (timeout : ℕ) (payload : Dict) (s : Session)
      → After n s
      → Post (λ _. After n) (After n) (call_on p m timeout payload s)
  call_on-Passing none m timeout payload s h = h
  call_on-Passing (some p) m timeout payload s h =
      answered (request p s.now m timeout payload) (request_after p s.now m timeout payload h)
    where
      answered :
          (x : Result Dict × ℕ × AdapterProcess)
          → n ≤ x.1
          → Post {A = Dict}
              (λ _. After n)
              (After n)
              (x.0, record s { now = x.1; adapter = some x.2 })
      answered (ok d, k, q) h = h
      answered (err e, k, q) h = h

  call-Passing : (m : String) (timeout : ℕ) (payload : Dict) → Passing n (call m timeout payload)
  unfolding call
  call-Passing m timeout payload = record {
    at = λ s h. call_on-Passing s.adapter m timeout payload s h;
  }

  transition-Passing : (x : String) (d : Json) → Passing n (transition x d)
  unfolding transition
  transition-Passing x d = record { at = λ s h. transition_on-Passing _ x _ s h }

  set_state-Passing : (x : String) → Passing n (set_state x)
  unfolding set_state
  set_state-Passing x = record { at = λ s h. h }

  note_state-Passing : ⦃t : PyText⦄ (x : String) (d : Json) → Passing n (note_state x d)
  unfolding note_state
  note_state-Passing x d = Triple-bind {Q = λ _. After n} _ _ (Triple-gets _ (λ s h. h)) λ last.
      Triple-if (x == last) _ _ (λ _. Triple-pure _ (λ s h. h))
        λ _. Triple-bind _ _ (set_state-Passing x) λ _. transition-Passing x d

  module _ ⦃t : PyText⦄ where
    pub poll_status-Passing : Passing n poll_status
    unfolding poll_status
    poll_status-Passing = Triple-bind _ _ (Triple-gets {Q = λ _. After n} _ (λ s h. h)) λ job.
        Triple-bind _ _ (call-Passing _ _ _) λ response.
          Triple-bind {Q = λ _. After n} _ _ (Triple-lift _ (λ u s e h. h) (λ s h. h))
            λ _. note_state-Passing _ _
