-- ===== src/Runtime/Keeps.antt =====
-- The actions of a run of roc_adapter_runtime.py and the account of the messages.
use roc_robot_sdk.Base.{
  ◌∙◌, refl, none, ℕ, String, ◌≡◌, ◌⊎◌, inl, inr, Bool, true, false, Option, some, if◌then◌else◌,
  ◌==◌, mem,
}
use roc_robot_sdk.Py.Json.{Dict, Json}
use roc_robot_sdk.Session.{
  call_on, call, Disk, works, state_fails, outbox_fails, Host, Session, Action, ◌>>=◌, lift, gets,
  set_state, wrote_state, emitted, transition_on, transition, pause,
}
use roc_robot_sdk.Session.Triple.{
  Predicate, Post, Triple, Triple-lift, Triple-gets, Triple-if, Triple-bind,
}
use roc_robot_sdk.Runtime.Guard.{sent, IsSound, request-Sends, Guarded, Sends}
use roc_robot_sdk.Process.{request, AdapterProcess}
use roc_robot_sdk.Failure.{ok, err, Result}
use mathlib.Core.Path.{subst}
use roc_robot_sdk.Lock.{Content}

module _ (h : Host) (l : Option Content) where
  -- An action that keeps `Guarded`, whether it returns or raises.
  abbrev pub Keeps : {A : Type 0} → Action A → Type 0
  Keeps m = Triple (Guarded h l) m (λ _. Guarded h l) (Guarded h l)

  pub same :
      {s s' : Session}
      → s'.host ≡ s.host
      → s'.lock ≡ s.lock
      → s'.adapter ≡ s.adapter
      → s'.start_attempted ≡ s.start_attempted
      → Guarded h l s
      → Guarded h l s'
  same a b c d g = record {
    host_kept = a ∙ g.host_kept;
    lock_kept = b ∙ g.lock_kept;
    sound = rw c g.sound;
    noted = rw (c, d) g.noted;
  }

  transition_on-Guarded :
      (disk : Disk) (x : String) (d : Json) (s : Session)
      → Guarded h l s
      → Post (λ _. Guarded h l) (Guarded h l) (transition_on disk x d s)
  unfolding wrote_state emitted
  transition_on-Guarded works x d s g = same refl refl refl refl g
  transition_on-Guarded state_fails x d s g = same refl refl refl refl g
  transition_on-Guarded outbox_fails x d s g = same refl refl refl refl g

  pub transition-Keeps : (x : String) (d : Json) → Keeps (transition x d)
  unfolding transition
  transition-Keeps x d = record { at = λ s g. transition_on-Guarded _ x _ s g }

  pub pause-Keeps : (ms : ℕ) → Keeps (pause ms)
  unfolding pause
  pause-Keeps ms = record { at = λ s g. same refl refl refl refl g }

  pub set_state-Keeps : (x : String) → Keeps (set_state x)
  unfolding set_state
  set_state-Keeps x = record { at = λ s g. same refl refl refl refl g }

  pub gets-Keeps : {A : Type 0} (f : Session → A) → Keeps (gets f)
  gets-Keeps f = Triple-gets f (λ s g. g)

  pub lift-Keeps : {A : Type 0} (r : Result A) → Keeps (lift r)
  lift-Keeps r = Triple-lift r (λ a s e g. g) (λ s g. g)

  pub bind-Keeps :
      {A B : Type 0} (m : Action A) (f : A → Action B)
      → Keeps m
      → ((a : A) → Keeps (f a))
      → Keeps (m >>= f)
  bind-Keeps m f k r = Triple-bind m f k r

  pub if-Keeps :
      {A : Type 0} (b : Bool) (m n : Action A) → Keeps m → Keeps n → Keeps (if b then m else n)
  if-Keeps b m n j k = Triple-if b m n (λ _. j) (λ _. k)

  -- Once `start_attempted` is set, any message may be sent; before, any other than `job.start`.
  sent-Guarded :
      (p q : AdapterProcess) (m : String) (s : Session) (n : ℕ)
      → (s.start_attempted ≡ true) ⊎ (("job.start" == m) ≡ false)
      → Guarded h l (record s { adapter = some p })
      → Sends p q m
      → Guarded h l (record s { now = n; adapter = some q })
  unfolding mem
  sent-Guarded p q m s n may g x = elim x.cases [
    | inl e ↦ record {
      host_kept = g.host_kept;
      lock_kept = g.lock_kept;
      sound = rw e.1 g.sound;
      noted = rw e.1 g.noted;
    }
    | inr e ↦ record {
      host_kept = g.host_kept;
      lock_kept = g.lock_kept;
      sound = inr e.0;
      noted = elim may [
        | inl a ↦ inl a
        | inr other ↦ elim g.noted [ inl a ↦ inl a | inr n ↦ inr (rw e.1 (rw other n)) ]
      ];
    }
  ]

  call_on-Guarded :
      (p : Option AdapterProcess) (m : String) (timeout : ℕ) (payload : Dict) (s : Session)
      → s.adapter ≡ p
      → (s.start_attempted ≡ true) ⊎ (("job.start" == m) ≡ false)
      → Guarded h l s
      → Post (λ _. Guarded h l) (Guarded h l) (call_on p m timeout payload s)
  call_on-Guarded none m timeout payload s e may g = g
  call_on-Guarded (some p) m timeout payload s e may g =
      answered (request p s.now m timeout payload) (request-Sends p s.now m timeout payload)
    where
      held : Guarded h l (record s { adapter = some p })
      held = record {
        host_kept = g.host_kept;
        lock_kept = g.lock_kept;
        sound = subst IsSound e g.sound;
        noted =
            subst (λ a. (s.start_attempted ≡ true) ⊎ (mem "job.start" (sent a) ≡ false)) e g.noted;
      }

      answered :
          (x : Result Dict × ℕ × AdapterProcess)
          → Sends p x.2 m
          → Post {A = Dict}
              (λ _. Guarded h l)
              (Guarded h l)
              (x.0, record s { now = x.1; adapter = some x.2 })
      answered (ok d, n, q) y = sent-Guarded p q m s n may held y
      answered (err f, n, q) y = sent-Guarded p q m s n may held y

  pub call-Keeps :
      (m : String) (timeout : ℕ) (payload : Dict)
      → ("job.start" == m) ≡ false
      → Keeps (call m timeout payload)
  unfolding call
  call-Keeps m timeout payload other = record {
    at = λ s g. call_on-Guarded s.adapter m timeout payload s refl (inr other) g;
  }

  -- `start_attempted` is set before `job.start` is sent.
  abbrev pub Started : Predicate
  Started s = Guarded h l s × (s.start_attempted ≡ true)

  pub call-Started :
      (m : String) (timeout : ℕ) (payload : Dict)
      → Triple Started (call m timeout payload) (λ _. Guarded h l) (Guarded h l)
  unfolding call
  call-Started m timeout payload = record {
    at = λ s g. call_on-Guarded s.adapter m timeout payload s refl (inl g.1) g.0;
  }
