-- ===== src/Runtime/Guard.antt =====
-- The parts of the state of `JobRuntime` in roc_adapter_runtime.py that a run leaves alone, and the
-- messages that the adapter was sent.
use roc_robot_sdk.Base.{
  ℕ, String, ◌≡◌, refl, ◌⊎◌, inl, inr, true, false, not, ◌&&◌, Option, none, some, List, [], ◌∷◌,
  arith, Bool-cases, mem,
}
use roc_robot_sdk.Py.Json.{Dict}
use roc_robot_sdk.Session.{Host, Session}
use roc_robot_sdk.Lock.{Content}
use roc_robot_sdk.Process.{Message, AdapterProcess, next_exchange, after_send, request}

-- The types of the messages, the last one first.
unfoldable pub types : List Message → List String
types [] = []
types (m ∷ ms) = m.message_type ∷ types ms

abbrev pub sent : Option AdapterProcess → List String
sent none = []
sent (some p) = types p.attempts

-- A process that was sent a message has been started.
abbrev pub IsSound : Option AdapterProcess → Type 0
IsSound none = Unit
IsSound (some p) = (p.attempts ≡ []) ⊎ (p.started ≡ true)

-- The host and the lock are the ones of before, and `job.start` was not sent unnoticed.
pub record Guarded (h : Host) (l : Option Content) (s : Session) : Type 0 where
  pub host_kept : s.host ≡ h
  pub lock_kept : s.lock ≡ l
  pub sound : IsSound s.adapter
  pub noted : (s.start_attempted ≡ true) ⊎ (mem "job.start" (sent s.adapter) ≡ false)

-- Either nothing was sent, which takes a process that was not started, or the message was.
pub record Sends (p q : AdapterProcess) (m : String) : Type 0 where
  pub cases :
      ((p.started ≡ false) × (q ≡ p))
      ⊎ ((q.started ≡ true) × (types q.attempts ≡ m ∷ types p.attempts))

pub request-Sends :
    (p : AdapterProcess) (now : ℕ) (m : String) (timeout : ℕ) (payload : Dict)
    → Sends p (request p now m timeout payload).2 m
unfolding request after_send types
request-Sends p now m timeout payload = elim (Bool-cases (not p.started && not p.spawns)) [
  | inl e ↦ record { cases = inl (ground arith, rw e refl) }
  | inr e ↦ elim (Bool-cases (next_exchange p.script).accepts) [
    | inl a ↦ record { cases = inr (rw (e, a) (refl, refl)) }
    | inr a ↦ record { cases = inr (rw (e, a) (refl, refl)) }
  ]
]
