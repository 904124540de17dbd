-- ===== src/Runtime/Fuel.antt =====
-- The loop of `JobRuntime.run` in roc_adapter_runtime.py that watches a job, and its rounds.
use roc_robot_sdk.Runtime.Time.{poll_status-Passing}
use roc_robot_sdk.Base.{
  ◌<◌, ◌/◌, zero, suc, false, leb, ◌+◌, ◌-◌, ◌*◌, ◌≡◌, refl, ◌⊎◌, true, arith, ℕ, ◌≤◌, inl, inr,
  Option, none, some, Bool-cases,
}
use roc_robot_sdk.Runtime.{
  is_terminal, watch_round, watch, fuel_for, wait_and_poll, Timing, poll_status,
}
use roc_robot_sdk.Session.{
  signalled, ◌>>=◌, ◌>>◌, gets, woken, pause, continue, cancelled, Session, Action,
}
use roc_robot_sdk.Session.Triple.{Triple-kept}
use Prim.Native.Nat.{max}
use native.Mathlib.Nat.{le_refl, lt-div-mul-add}
use roc_robot_sdk.Failure.{Result, ok, err}
use roc_robot_sdk.Py.Text.{PyText}

-- So many rounds are enough: the loop ends at the first round after the deadline, or after the signal.
abbrev Enough : ℕ → ℕ → ℕ → Session → Type 0
Enough fuel ms deadline s =
    (1 ≤ fuel) × ((cancelled s ≡ true) ⊎ (deadline ≤ s.now + (fuel - 1) * ms))

advance :
    (deadline k w x now : ℕ)
    → now + w ≤ x
    → deadline ≤ now + suc k * w
    → deadline ≤ x + (suc k - 1) * w
advance deadline k w x now h d = grind arith

module _ ⦃t : PyText⦄ (timing : Timing) (deadline : ℕ) where
  abbrev step : ℕ
  step = max 50 timing.poll_interval

  -- Two ways to go on that agree wherever they are reached.
  abbrev Agree : ℕ → Action (Unit {0}) → Action (Unit {0}) → Type 0
  Agree fuel m n = (s : Session) → Enough fuel step deadline s → m s ≡ n s

  after_poll :
      (fuel : ℕ) (m n : Action (Unit {0}))
      → Agree fuel m n
      → (x : Result (Unit {0}) × Session) → 1 ≤ fuel
      → deadline ≤ x.1.now + (fuel - 1) * step
      → continue x.0 (λ _. m) x.1 ≡ continue x.0 (λ _. n) x.1
  after_poll fuel m n h (ok u, s) p d = h s (p, inr d)
  after_poll fuel m n h (err e, s) p d = refl

  polled-Agree :
      (fuel : ℕ) (m n : Action (Unit {0}))
      → Agree fuel m n
      → (s : Session) → 1 ≤ fuel
      → deadline ≤ s.now + (fuel - 1) * step
      → (poll_status >> m) s ≡ (poll_status >> n) s
  unfolding ◌>>=◌
  polled-Agree fuel m n h s p d =
      after_poll fuel m n h (poll_status s) p
        (further (Triple-kept poll_status (poll_status-Passing s.now) {s = s} (le_refl s.now)))
    where
      further : {k : ℕ} → s.now ≤ k → deadline ≤ k + (fuel - 1) * step
      further g = omega (arith, d)

  -- A wait that no signal ends takes its time.
  pause-waits :
      (s : Session) → cancelled (pause step s).1 ≡ false → s.now + step ≤ (pause step s).1.now
  unfolding pause cancelled
  pause-waits s = waits s.host.cancel_at
    where
      waits :
          (at : Option ℕ)
          → signalled at (woken at s.now (s.now + step)) ≡ false
          → s.now + step ≤ woken at s.now (s.now + step)
      waits none h = le_refl _
      waits (some a) h = ground arith

  waited-Agree :
      (fuel : ℕ) (m n : Action (Unit {0}))
      → Agree fuel m n
      → (s : Session) → leb deadline s.now ≡ false
      → deadline ≤ s.now + fuel * step
      → wait_and_poll timing m s ≡ wait_and_poll timing n s
  unfolding wait_and_poll ◌>>=◌ gets pause
  waited-Agree zero m n h s running d = absurd (ground arith)
  waited-Agree (suc k) m n h s running d = elim (Bool-cases (cancelled (pause step s).1)) [
    | inl c ↦ rw c (h (pause step s).1 (omega arith, inl c))
    | inr c ↦ rw c (
        polled-Agree (suc k) m n h (pause step s).1 (omega arith)
          (advance deadline k step _ s.now (pause-waits s c) d))
  ]

  round-Agree :
      (fuel : ℕ) (m n : Action (Unit {0}))
      → Agree fuel m n
      → (s : Session) → Enough (suc fuel) step deadline s
      → watch_round timing deadline m s ≡ watch_round timing deadline n s
  unfolding watch_round ◌>>=◌ gets
  round-Agree fuel m n h s e = elim (Bool-cases (is_terminal s.last_state)) [
    | inl c ↦ rw c refl
    | inr c ↦ elim (Bool-cases (cancelled s)) [
      | inl stop ↦ rw (c, stop) refl
      | inr go ↦ elim (Bool-cases (leb deadline s.now)) [
        | inl late ↦ rw (c, go, late) refl
        | inr running ↦ rw (c, go, running) (waited-Agree fuel m n h s running (in_time e.1 go))
      ]
    ]
  ]
    where
      in_time :
          (cancelled s ≡ true) ⊎ (deadline ≤ s.now + (suc fuel - 1) * step)
          → cancelled s ≡ false
          → deadline ≤ s.now + fuel * step
      in_time (inl stop) go = absurd (cc (stop, go))
      in_time (inr d) go = grind arith

  -- The loop ends within the rounds of `Enough`: what it would do when they are used up makes no
  -- difference.
  watch-ends :
      (fuel : ℕ) (m n : Action (Unit {0})) (s : Session)
      → Enough fuel step deadline s
      → watch m fuel timing deadline s ≡ watch n fuel timing deadline s
  unfolding watch
  watch-ends zero m n s e = absurd (ground arith)
  watch-ends (suc fuel) m n s e = round-Agree fuel _ _ (λ s'. watch-ends fuel m n s') s e

quotient : (x w : ℕ) → 1 ≤ w → x ≤ (x / w + 2) * w
quotient x w p = above (x / w) (lt-div-mul-add p)
  where
    above : (q : ℕ) → x < q * w + w → x ≤ (q + 2) * w
    above q h = grind arith

drop_one : (now t q w : ℕ) → t ≤ (q + 2) * w → now + t ≤ now + (q + 3 - 1) * w
drop_one now t q w h = grind arith

at_least : (x : ℕ) → 1 ≤ max 50 x
at_least x = omega arith

-- The loop that `run` enters once `job.start` was answered ends in the rounds that `fuel_for` gives
-- it, whatever the adapter, the disk and the signals do: what stands in for further rounds is never
-- reached, so that any two such actions give the same result.
pub watch_lem :
    ⦃t : PyText⦄ (timing : Timing) (m n : Action (Unit {0})) (s : Session)
    → watch m (fuel_for timing) timing (s.now + timing.timeout) s
      ≡ watch n (fuel_for timing) timing (s.now + timing.timeout) s
watch_lem timing m n s = watch-ends timing (s.now + timing.timeout) (fuel_for timing) m n s (
  omega arith,
  inr (
      enough
        (quotient timing.timeout (max 50 timing.poll_interval) (at_least timing.poll_interval))),
)
  where
    enough :
        timing.timeout
          ≤ (timing.timeout / max 50 timing.poll_interval + 2) * max 50 timing.poll_interval
        → s.now + timing.timeout ≤ s.now + (fuel_for timing - 1) * max 50 timing.poll_interval
    enough h =
        drop_one s.now timing.timeout (timing.timeout / max 50 timing.poll_interval)
          (max 50 timing.poll_interval) h
