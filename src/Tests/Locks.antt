-- ===== src/Tests/Locks.antt =====
-- Two runtimes that share the lock file of roc_adapter_runtime.py.
use roc_robot_sdk.Base.{true, ℕ, ◌≤◌, refl, Bool, false, ◌||◌, some, [], ◌∷◌, arith, eqb, length}
use roc_robot_sdk.Base.Int.{pos}
use roc_robot_sdk.Failure.{runtime_active}
use roc_robot_sdk.Lock.{acquire_lock, acquire_rounds, pid_is_active}
use roc_robot_sdk.Lock.Serial.{
  Runtimes, without, becomes, acquire, refuse, crash, Reach, start, later, Reach-length_le,
}

-- Processes 7 and 9 are alive, and the file names process 8, which is not.
abbrev two_alive : ℕ → Bool
two_alive p = eqb p 7 || eqb p 9

abbrev after_crash : ℕ → Bool
after_crash = becomes 7 false two_alive

-- 7 takes the stale lock, 9 is refused, 7 crashes, 9 takes the lock.
abbrev taken_over : Runtimes
taken_over = record { lock = some (some (pos 9)); alive = after_crash; holders = 9 ∷ [] }

abbrev permits : ℕ → ℕ → Bool
permits pid p = true

abbrev reads : ℕ → Bool
reads pid = true

taken_over-Reach : Reach permits reads taken_over
unfolding acquire_lock acquire_rounds pid_is_active without
taken_over-Reach =
    later
      (later
        (later (later (start (some (some (pos 8))) two_alive) (acquire 7 (omega arith) refl refl))
          (refuse 9 (runtime_active (pos 7)) refl))
        (crash 7))
      (acquire 9 (omega arith) refl refl)

Reach-length_le_example : length taken_over.holders ≤ 1
Reach-length_le_example =
    Reach-length_le permits reads (λ pid p. refl) (λ pid. refl) taken_over-Reach
