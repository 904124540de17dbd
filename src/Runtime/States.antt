-- ===== src/Runtime/States.antt =====
-- What holds between the steps of a run, and how the steps keep it.
use roc_robot_sdk.Base.{
  sym, ◌∙◌, ◌⊎◌, inl, inr, false, arith, eq_iff, Bool-cases, String, ◌≡◌, true, [],
}
use roc_robot_sdk.Py.Json.{Json}
use roc_robot_sdk.Failure.{Result, ok}
use roc_robot_sdk.Session.{Session, Action, transition, set_state, ◌>>◌, gets, lift}
use roc_robot_sdk.Session.Triple.{
  Predicate, Triple, Triple-bind, Triple-gets, Triple-lift, Triple-weaken,
}
use roc_robot_sdk.Runtime.{is_terminal, is_reportable, require_reportable}
use roc_robot_sdk.Runtime.Order.{
  may_follow, latest, Legal, Stands, MayFail, transition-Stands, set_state-Stands, Stands-MayFail,
}

-- A run that has emitted nothing.
pub record IsFresh (s : Session) : Type 0 where
  pub silent : s.events ≡ []
  pub received : s.last_state ≡ "RECEIVED"

module _ {A : Type 0} {a l : String} {m : Action A} {Q : A → Predicate} where
  -- An action after which FAILED may still be recorded.
  pub failing :
      may_follow a "FAILED" ≡ true
      → Triple (Stands a l) m Q (Stands a l)
      → Triple (Stands a l) m Q MayFail
  failing f h = Triple-weaken m h (λ s p. p) (λ x s q. q) (λ s e. Stands-MayFail s f e)

module _ (a b l : String) (d : Json) where
  pub move :
      may_follow a b ≡ true
      → may_follow a "FAILED" ≡ true
      → Triple (Stands a l) (transition b d) (λ _. Stands b l) MayFail
  move f g = failing g (transition-Stands a b l d f)

pub reading :
    {A : Type 0} {a l : String} (f : Session → A)
    → Triple (Stands a l) (gets f) (λ _. Stands a l) MayFail
reading f = Triple-gets f (λ s p. p)

pub checking :
    {A : Type 0} {a l : String} (r : Result A)
    → may_follow a "FAILED" ≡ true
    → Triple (Stands a l) (lift r) (λ _. Stands a l) MayFail
checking r f = Triple-lift r (λ x s e p. p) (λ s p. Stands-MayFail s f p)

pub Stands-fresh : (s : Session) → IsFresh s → Stands "" "RECEIVED" s
unfolding Legal
Stands-fresh s h = record { legal = rw h.silent tt; emitted = rw h.silent; noted = h.received }

-- While the job is watched.
pub record Watching (s : Session) : Type 0 where
  pub legal : Legal s.events
  pub emitted : latest s.events ≡ s.last_state
  pub reportable : is_reportable s.last_state ≡ true

-- A terminal state was reached and recorded.
pub record Ended (s : Session) : Type 0 where
  pub legal : Legal s.events
  pub emitted : latest s.events ≡ s.last_state
  pub terminal : is_terminal s.last_state ≡ true

pub reportable-follows_start :
    (x : String) → is_reportable x ≡ true → may_follow "STARTING" x ≡ true
unfolding is_reportable may_follow
reportable-follows_start x h = ground arith

pub terminal-follows_running : (x : String) → is_terminal x ≡ true → may_follow "RUNNING" x ≡ true
unfolding is_terminal may_follow
terminal-follows_running x h = ground arith

pub terminal-follows_cancelling :
    (x : String) → is_terminal x ≡ true → may_follow "CANCELLING" x ≡ true
unfolding is_terminal may_follow
terminal-follows_cancelling x h = h

pub reportable-cases :
    (x : String) → is_reportable x ≡ true → (is_terminal x ≡ true) ⊎ (x ≡ "RUNNING")
unfolding is_reportable
reportable-cases x h = elim (Bool-cases (is_terminal x)) [
  | inl e ↦ inl e
  | inr e ↦ inr ((eq_iff x "RUNNING").0 (rw e at h))
]

pub require_reportable-ok :
    (x : String) (u : Unit {0}) → require_reportable x ≡ ok u → is_reportable x ≡ true
require_reportable-ok x u h = elim (Bool-cases (is_reportable x)) [
  | inl e ↦ e
  | inr e ↦ absurd (cc (rw e at h))
]

pub Stands-Watching :
    (x : String) (s : Session) → is_reportable x ≡ true → Stands x x s → Watching s
Stands-Watching x s r h = record {
  legal = h.legal;
  emitted = h.emitted ∙ sym h.noted;
  reportable = rw h.noted r;
}

pub Stands-Ended : (x : String) (s : Session) → is_terminal x ≡ true → Stands x x s → Ended s
Stands-Ended x s r h = record {
  legal = h.legal;
  emitted = h.emitted ∙ sym h.noted;
  terminal = rw h.noted r;
}

pub Watching-running :
    (s : Session) → is_terminal s.last_state ≡ false → Watching s → Stands "RUNNING" "RUNNING" s
Watching-running s n w = elim (reportable-cases s.last_state w.reportable) [
  | inl e ↦ absurd (cc (e, n))
  | inr e ↦ record { legal = w.legal; emitted = w.emitted ∙ e; noted = e }
]

pub Ended-MayFail : (s : Session) → Ended s → MayFail s
Ended-MayFail s h = record { legal = h.legal; open_end = inl h.terminal }

-- A reported state is noted and recorded.
pub record_state :
    (a l x : String) (d : Json)
    → may_follow a x ≡ true
    → may_follow a "FAILED" ≡ true
    → Triple (Stands a l) (set_state x >> transition x d) (λ _. Stands x x) MayFail
record_state a l x d f g =
    Triple-bind _ _ (set_state-Stands {l = l} x MayFail) λ _. move a x x d f g
