-- ===== src/Session/Triple.antt =====
-- What an action makes of the state: a precondition, a postcondition where it returns, and one where
-- it raises, with a rule for each way to build an action.
use roc_robot_sdk.Base.{◌≡◌, refl, Bool, true, false, if◌then◌else◌}
use roc_robot_sdk.Failure.{Failure, Result, ok, err}
use roc_robot_sdk.Session.{Session, Action, continue, ◌>>=◌, pure, lift, gets, modify}

abbrev pub Predicate : Type 1
Predicate = Session → Type 0

abbrev pub Post : {A : Type 0} → (A → Predicate) → Predicate → Result A × Session → Type 0
Post Q E (ok a, s) = Q a s
Post Q E (err e, s) = E s

pub record Triple {A : Type 0} (P : Predicate) (m : Action A) (Q : A → Predicate) (E : Predicate)
    : Type 0 where
  pub at : (s : Session) → P s → Post Q E (m s)

module _ {A : Type 0} {P E : Predicate} {Q : A → Predicate} where
  pub Triple-pure : (a : A) → ((s : Session) → P s → Q a s) → Triple P (pure a) Q E
  unfolding pure
  Triple-pure a h = record { at = λ s p. h s p }

  pub Triple-lift :
      (r : Result A)
      → ((a : A) (s : Session) → r ≡ ok a → P s → Q a s)
      → ((s : Session) → P s → E s)
      → Triple P (lift r) Q E
  unfolding lift
  Triple-lift (ok a) h k = record { at = λ s p. h a s refl p }
  Triple-lift (err e) h k = record { at = λ s p. k s p }

  pub Triple-gets : (f : Session → A) → ((s : Session) → P s → Q (f s) s) → Triple P (gets f) Q E
  unfolding gets
  Triple-gets f h = record { at = λ s p. h s p }

  pub Triple-if :
      (b : Bool) (m n : Action A)
      → (b ≡ true → Triple P m Q E)
      → (b ≡ false → Triple P n Q E)
      → Triple P (if b then m else n) Q E
  Triple-if true m n h k = h refl
  Triple-if false m n h k = k refl

module _ {P E : Predicate} {Q : Unit {0} → Predicate} where
  pub Triple-modify :
      (f : Session → Session) → ((s : Session) → P s → Q tt (f s)) → Triple P (modify f) Q E
  unfolding modify
  Triple-modify f h = record { at = λ s p. h s p }

module _ {A B : Type 0} {E : Predicate} {Q : A → Predicate} {R : B → Predicate} where
  continue-Post :
      (f : A → Action B)
      → ((a : A) → Triple (Q a) (f a) R E)
      → (x : Result A × Session) → Post Q E x
      → Post R E (continue x.0 f x.1)
  continue-Post f k (ok a, s) h = (k a).at s h
  continue-Post f k (err e, s) h = h

  pub Triple-bind :
      {P : Predicate} (m : Action A) (f : A → Action B)
      → Triple P m Q E
      → ((a : A) → Triple (Q a) (f a) R E)
      → Triple P (m >>= f) R E
  unfolding ◌>>=◌
  Triple-bind m f h k = record { at = λ s p. continue-Post f k (m s) (h.at s p) }

module _ {A : Type 0} {E E' : Predicate} {Q Q' : A → Predicate} where
  weaken-Post :
      ((a : A) (s : Session) → Q a s → Q' a s)
      → ((s : Session) → E s → E' s)
      → (x : Result A × Session) → Post Q E x
      → Post Q' E' x
  weaken-Post q e (ok a, s) h = q a s h
  weaken-Post q e (err f, s) h = e s h

  pub Triple-weaken :
      {P P' : Predicate} (m : Action A)
      → Triple P m Q E
      → ((s : Session) → P' s → P s)
      → ((a : A) (s : Session) → Q a s → Q' a s)
      → ((s : Session) → E s → E' s)
      → Triple P' m Q' E'
  Triple-weaken m h p q e = record { at = λ s x. weaken-Post q e (m s) (h.at s (p s x)) }

module _ {A : Type 0} {P E : Predicate} {Q : A → Predicate} where
  -- What does not depend on the state.
  pub Triple-given :
      (F : Type 0) (m : Action A) → (F → Triple P m Q E) → Triple (λ s. P s × F) m Q E
  Triple-given F m h = record { at = λ s p. (h p.1).at s p.0 }

  pub Triple-fail : (e : Failure) → ((s : Session) → P s → E s) → Triple P (lift (err e)) Q E
  Triple-fail e h = Triple-lift (err e) (λ a s p. cc p) h

module _ {A : Type 0} (P : Predicate) where
  Post-kept : (x : Result A × Session) → Post (λ _. P) P x → P x.1
  Post-kept (ok a, s) p = p
  Post-kept (err e, s) p = p

module _ {A : Type 0} {P : Predicate} where
  -- What an action keeps, whether it returns or raises.
  pub Triple-kept : (m : Action A) → Triple P m (λ _. P) P → {s : Session} → P s → P (m s).1
  Triple-kept m h {s} p = Post-kept P (m s) (h.at s p)
