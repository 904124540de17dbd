-- ===== src/Runtime/Order.antt =====
-- The order of a job's states in roc_adapter_runtime.py, and the actions of a run.
use roc_robot_sdk.Base.{
  ℕ, String, ◌≡◌, refl, ◌⊎◌, inr, Bool, true, Option, none, some, List, [], ◌∷◌, if◌then◌else◌,
  ◌==◌, mem,
}
use roc_robot_sdk.Py.Json.{Json, Dict}
use roc_robot_sdk.Failure.{Result, ok, err}
use roc_robot_sdk.Session.{
  Session, Event, Disk, works, state_fails, outbox_fails, transition, transition_on, emitted,
  wrote_state, call, call_on, set_state, pause,
}
use roc_robot_sdk.Session.Triple.{Predicate, Post, Triple}
use roc_robot_sdk.Process.{request, AdapterProcess}
use roc_robot_sdk.Runtime.{is_terminal, terminal_states}

-- The states that may come next; "" stands for the beginning.
unfoldable followers : String → List String
followers s =
    if s == ""
    then "RECEIVED" ∷ "FAILED" ∷ []
    else if s == "RECEIVED"
    then "VALIDATED" ∷ "FAILED" ∷ []
    else if s == "VALIDATED"
    then "STARTING" ∷ "FAILED" ∷ []
    else if s == "STARTING"
    then "RUNNING" ∷ terminal_states
    else if s == "RUNNING"
    then "CANCELLING" ∷ terminal_states
    else if s == "CANCELLING"
    then terminal_states
    else []

unfoldable pub may_follow : String → String → Bool
unfolding followers mem
may_follow s t = mem t (followers s)

-- The state of the last event.
abbrev pub latest : List Event → String
latest [] = ""
latest (e ∷ es) = e.state

-- Each event, the last one first, has a state that may follow the one before it.
unfoldable pub Legal : List Event → Type 0
Legal [] = Unit
Legal (e ∷ es) = (may_follow (latest es) e.state ≡ true) × Legal es

pub record Stands (latest_state last : String) (s : Session) : Type 0 where
  pub legal : Legal s.events
  pub emitted : latest s.events ≡ latest_state
  pub noted : s.last_state ≡ last

-- What an exception leaves: FAILED may be recorded, or a terminal state was reached.
pub record MayFail (s : Session) : Type 0 where
  pub legal : Legal s.events
  pub open_end : (is_terminal s.last_state ≡ true) ⊎ (may_follow (latest s.events) "FAILED" ≡ true)

module _ (a b l : String) where
  transition_on-Stands :
      (disk : Disk) (d : Json) (s : Session)
      → may_follow a b ≡ true
      → Stands a l s
      → Post (λ _. Stands b l) (Stands a l) (transition_on disk b d s)
  unfolding Legal emitted wrote_state
  transition_on-Stands works d s f h = record {
    legal = (rw h.emitted f, h.legal);
    emitted = refl;
    noted = h.noted;
  }
  transition_on-Stands state_fails d s f h = record {
    legal = h.legal;
    emitted = h.emitted;
    noted = h.noted;
  }
  transition_on-Stands outbox_fails d s f h = record {
    legal = h.legal;
    emitted = h.emitted;
    noted = h.noted;
  }

  pub transition-Stands :
      (d : Json)
      → may_follow a b ≡ true
      → Triple (Stands a l) (transition b d) (λ _. Stands b l) (Stands a l)
  unfolding transition
  transition-Stands d f = record {
    at = λ s h. transition_on-Stands (s.host.disk s.transitions) _ s f h;
  }

module _ {a l : String} where
  call_on-Stands :
      (p : Option AdapterProcess) (m : String) (timeout : ℕ) (payload : Dict) (s : Session)
      → Stands a l s
      → Post (λ _. Stands a l) (Stands a l) (call_on p m timeout payload s)
  call_on-Stands none m timeout payload s h = h
  call_on-Stands (some p) m timeout payload s h = answered (request p s.now m timeout payload)
    where
      answered :
          (x : Result Dict × ℕ × AdapterProcess)
          → Post {A = Dict}
              (λ _. Stands a l)
              (Stands a l)
              (x.0, record s { now = x.1; adapter = some x.2 })
      answered (ok d, n, q) = record { legal = h.legal; emitted = h.emitted; noted = h.noted }
      answered (err e, n, q) = record { legal = h.legal; emitted = h.emitted; noted = h.noted }

  pub call-Stands :
      (m : String) (timeout : ℕ) (payload : Dict)
      → Triple (Stands a l) (call m timeout payload) (λ _. Stands a l) (Stands a l)
  unfolding call
  call-Stands m timeout payload = record {
    at = λ s h. call_on-Stands s.adapter m timeout payload s h;
  }

  pub set_state-Stands :
      (x : String) (E : Predicate) → Triple (Stands a l) (set_state x) (λ _. Stands a x) E
  unfolding set_state
  set_state-Stands x E = record {
    at = λ s h. record { legal = h.legal; emitted = h.emitted; noted = refl };
  }

  pub pause-Stands : (ms : ℕ) (E : Predicate) → Triple (Stands a l) (pause ms) (λ _. Stands a l) E
  unfolding pause
  pause-Stands ms E = record {
    at = λ s h. record { legal = h.legal; emitted = h.emitted; noted = h.noted };
  }

  pub Stands-MayFail : (s : Session) → may_follow a "FAILED" ≡ true → Stands a l s → MayFail s
  Stands-MayFail s f h = record { legal = h.legal; open_end = inr (rw h.emitted f) }

-- FAILED may follow each of these.
pub starting_may_fail : may_follow "STARTING" "FAILED" ≡ true
unfolding may_follow
starting_may_fail = refl

pub running_may_fail : may_follow "RUNNING" "FAILED" ≡ true
unfolding may_follow
running_may_fail = refl

pub cancelling_may_fail : may_follow "CANCELLING" "FAILED" ≡ true
unfolding may_follow
cancelling_may_fail = refl
