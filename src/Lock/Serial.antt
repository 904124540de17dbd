-- ===== src/Lock/Serial.antt =====
-- Runtimes that share the lock file of roc_adapter_runtime.py and call `_acquire_lock` and
-- `_release_lock` one after the other, while processes begin, end and crash.
use roc_robot_sdk.Base.{
  ◌&&◌, none, ℕ, ◌≤◌, ◌<◌, ◌≡◌, refl, ◌⊎◌, inl, inr, Bool, true, false, Option, some, List, [], ◌∷◌,
  ap, ◌∙◌, arith, Bool-cases, eqb, if◌then◌else◌, length,
}
use roc_robot_sdk.Base.Int.{pos}
use roc_robot_sdk.Failure.{Failure, Result, ok, err}
use roc_robot_sdk.Lock.{
  Content, acquire_lock, acquire_lock_lem, release_lock, pid_is_active, is_held,
}

-- `holders` are the processes that hold the lock, since `_acquire_lock` has returned.
pub record Runtimes : Type 0 where
  pub lock : Option Content
  pub alive : ℕ → Bool
  pub holders : List ℕ

unfoldable pub without : ℕ → List ℕ → List ℕ
without pid [] = []
without pid (p ∷ ps) = if eqb p pid then without pid ps else p ∷ without pid ps

abbrev pub becomes : ℕ → Bool → (ℕ → Bool) → ℕ → Bool
becomes pid b alive p = if eqb p pid then b else alive p

-- The file as a process reads it, which may not be able to.
abbrev pub read_by : Bool → Option Content → Option Content
read_by readable none = none
read_by readable (some content) = some (if readable then content else none)

-- `permits pid p` tells whether `pid` may signal `p`, and `reads pid` whether it can read the lock file.
-- `os.kill(p, 0)` fails for a process that is not alive, and for one that may not be signalled.
module _ (permits : ℕ → ℕ → Bool) (reads : ℕ → Bool) where
  abbrev reaches : ℕ → (ℕ → Bool) → ℕ → Bool
  reaches pid alive p = permits pid p && alive p

  -- `_acquire_lock` as the process `pid` calls it.
  abbrev pub attempted : ℕ → Runtimes → Result (Unit {0}) × Option Content
  attempted pid s = acquire_lock (reaches pid s.alive) pid (read_by (reads pid) s.lock)

  pub data Step : Runtimes → Runtimes → Type 0 where
    acquire :
        {s : Runtimes} {lock : Option Content} (pid : ℕ)
        → 0 < pid
        → s.alive pid ≡ true
        → attempted pid s ≡ (ok tt, lock)
        → Step s (record s { lock = lock; holders = pid ∷ s.holders })
    -- Only a file that can be read makes it refuse.
    refuse :
        {s : Runtimes} {lock : Option Content} (pid : ℕ) (e : Failure)
        → attempted pid s ≡ (err e, lock)
        → Step s (record s { lock = lock })
    -- Reading or removing the file may fail, and it stays then.
    release :
        {s : Runtimes} (pid : ℕ) (unlinks : Bool)
        → Step s (record s {
          lock = release_lock (unlinks && reads pid) pid s.lock;
          holders = without pid s.holders;
        })
    crash :
        {s : Runtimes} (pid : ℕ)
        → Step s (record s { alive = becomes pid false s.alive; holders = without pid s.holders })
    begin :
        {s : Runtimes} (pid : ℕ)
        → s.alive pid ≡ false
        → Step s (record s { alive = becomes pid true s.alive })

  -- Any file may be there at the beginning, a stale one too, and any processes may be alive.
  pub data Reach : Runtimes → Type 0 where
    start :
        (lock : Option Content) (alive : ℕ → Bool)
        → Reach (record { lock = lock; alive = alive; holders = [] })
    later : {s t : Runtimes} → Reach s → Step s t → Reach t

-- The one holder is alive, and the file names it.
record Holds (s : Runtimes) (pid : ℕ) : Type 0 where
  alone : s.holders ≡ pid ∷ []
  named : s.lock ≡ some (some (pos pid))
  living : s.alive pid ≡ true
  positive : 0 < pid

unfoldable IsHeldOnce : Runtimes → Type 0
IsHeldOnce s = (s.holders ≡ []) ⊎ ((pid : ℕ) × Holds s pid)

module _ (alive : ℕ → Bool) (pid : ℕ) (before after : Option Content) where
  acquired :
      acquire_lock alive pid before ≡ (ok tt, after)
      → (is_held alive pid before ≡ false) × (after ≡ some (some (pos pid)))
  acquired q = elim (Bool-cases (is_held alive pid before)) [
    | inl held ↦ absurd (cc (q, acquire_lock_lem alive pid before, held))
    | inr free ↦ (free, cc (q, acquire_lock_lem alive pid before, free))
  ]

  refused : (e : Failure) → acquire_lock alive pid before ≡ (err e, after) → after ≡ before
  refused e q = elim (Bool-cases (is_held alive pid before)) [
    | inl held ↦ cc (q, acquire_lock_lem alive pid before, held)
    | inr free ↦ absurd (cc (q, acquire_lock_lem alive pid before, free))
  ]

module _ (s : Runtimes) (p pid : ℕ) (unlinks : Bool) (o : Holds s p) where
  without-eq : without pid s.holders ≡ (if eqb p pid then [] else p ∷ [])
  unfolding without
  without-eq = rw o.alone refl

  released-IsHeldOnce :
      IsHeldOnce
        (record s { lock = release_lock unlinks pid s.lock; holders = without pid s.holders })
  unfolding IsHeldOnce release_lock
  released-IsHeldOnce = elim (Bool-cases (eqb p pid)) [
    | inl own ↦ inl (rw (without-eq, own) refl)
    | inr other ↦ inr (
      p,
      record {
        alone = rw (without-eq, other) refl;
        named = rw o.named (ground (arith, other));
        living = o.living;
        positive = o.positive;
      },
    )
  ]

  crashed-IsHeldOnce :
      IsHeldOnce (record s { alive = becomes pid false s.alive; holders = without pid s.holders })
  unfolding IsHeldOnce
  crashed-IsHeldOnce = elim (Bool-cases (eqb p pid)) [
    | inl own ↦ inl (rw (without-eq, own) refl)
    | inr other ↦ inr (
      p,
      record {
        alone = rw (without-eq, other) refl;
        named = o.named;
        living = rw other o.living;
        positive = o.positive;
      },
    )
  ]

module _ (permits : ℕ → ℕ → Bool) (reads : ℕ → Bool)
    (same_user : (pid p : ℕ) → permits pid p ≡ true) (readable : (pid : ℕ) → reads pid ≡ true) where
  read_by-eq : (pid : ℕ) (lock : Option Content) → read_by (reads pid) lock ≡ lock
  read_by-eq pid none = refl
  read_by-eq pid (some content) = rw (readable pid) refl

  -- The file of a living holder is held, whoever asks.
  Holds-is_held :
      (s : Runtimes) (p pid : ℕ)
      → Holds s p
      → is_held (reaches permits reads pid s.alive) pid (read_by (reads pid) s.lock) ≡ true
  unfolding pid_is_active
  Holds-is_held s p pid o =
      rw (read_by-eq pid s.lock, o.named) (ground (arith, o.living, o.positive, same_user pid p))

  Step-IsHeldOnce : {s t : Runtimes} → Step permits reads s t → IsHeldOnce s → IsHeldOnce t
  unfolding IsHeldOnce without
  Step-IsHeldOnce {s} (acquire {lock} pid h a q) (inl free) = inr (
    pid,
    record {
      alone = ap (λ ps. pid ∷ ps) free;
      named =
          (acquired (reaches permits reads pid s.alive) pid (read_by (reads pid) s.lock) lock q).1;
      living = a;
      positive = h;
    },
  )
  Step-IsHeldOnce {s} (acquire {lock} pid h a q) (inr (p, o)) = absurd (
      cc (
        Holds-is_held s p pid o,
        (acquired (reaches permits reads pid s.alive) pid (read_by (reads pid) s.lock) lock q).0,
      ))
  Step-IsHeldOnce {s} (refuse pid e q) (inl free) = inl free
  Step-IsHeldOnce {s} (refuse {lock} pid e q) (inr (p, o)) = inr (
    p,
    record {
      alone = o.alone;
      named =
          refused (reaches permits reads pid s.alive) pid (read_by (reads pid) s.lock) lock e q
          ∙ (read_by-eq pid s.lock ∙ o.named);
      living = o.living;
      positive = o.positive;
    },
  )
  Step-IsHeldOnce {s} (release pid unlinks) (inl free) = inl (rw free refl)
  Step-IsHeldOnce {s} (release pid unlinks) (inr (p, o)) =
      released-IsHeldOnce s p pid (unlinks && reads pid) o
  Step-IsHeldOnce {s} (crash pid) (inl free) = inl (rw free refl)
  Step-IsHeldOnce {s} (crash pid) (inr (p, o)) = crashed-IsHeldOnce s p pid true o
  Step-IsHeldOnce {s} (begin pid n) (inl free) = inl free
  Step-IsHeldOnce {s} (begin pid n) (inr (p, o)) = inr (
    p,
    record {
      alone = o.alone;
      named = o.named;
      living = ground (arith, o.living);
      positive = o.positive;
    },
  )

  Reach-IsHeldOnce : {s : Runtimes} → Reach permits reads s → IsHeldOnce s
  unfolding IsHeldOnce
  Reach-IsHeldOnce (start lock alive) = inl refl
  Reach-IsHeldOnce (later r step) = Step-IsHeldOnce step (Reach-IsHeldOnce r)

  -- If the processes may signal one another and can read the lock file, as those of one user do, and
  -- calls of `_acquire_lock` and `_release_lock` do not overlap, then whatever file there was before and
  -- whichever processes begin, end and crash, at most one process holds the lock at any time.
  pub Reach-length_le : {s : Runtimes} → Reach permits reads s → length s.holders ≤ 1
  unfolding IsHeldOnce
  Reach-length_le {s} r = at_most (Reach-IsHeldOnce r)
    where
      at_most : IsHeldOnce s → length s.holders ≤ 1
      at_most (inl free) = rw free (omega arith)
      at_most (inr (p, o)) = rw o.alone (omega arith)
