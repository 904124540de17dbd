-- ===== src/Executor/Safety.antt =====
-- The reachable states of the bridge of adapters/go2/go2_bridge.py.
use roc_robot_sdk.Base.{inl, inr, Bool, true, false, Bool-cases, ℕ, ◌≤◌, ◌≡◌, refl, List, arith}
use roc_robot_sdk.Executor.{launch}
use roc_robot_sdk.Executor.Program.{done, act, Code}
use roc_robot_sdk.Executor.Handler.{Server}
use roc_robot_sdk.Executor.Rules.{Stage, Follows, Obeys}
use roc_robot_sdk.Executor.Bounds.{IsSafe}
use roc_robot_sdk.Executor.Pool.{
  Bridge, Reach, is_launching, AllDone, no_thread_left, ended, launching,
}
use roc_robot_sdk.Executor.Exclusion.{Ends, AllLimited, claims_of, Claims, no_thread, free, holder}
use roc_robot_sdk.Executor.Preserved.{Reach-Inv}
use roc_robot_sdk.Py.Text.{PyText}

is_launching-holds :
    (thread : Code (Unit {0})) (m : Stage)
    → Follows Ends m thread
    → is_launching thread ≡ true
    → m.holds ≡ true
unfolding Obeys
is_launching-holds (act (launch c) k) m f h = f.obeys.0.1 h
is_launching-holds (act o k) m f h = absurd (cc h)
is_launching-holds (done r) m f h = absurd (cc h)

launching-le : {n : ℕ} {ts : List (Code (Unit {0}))} → Claims n ts → launching ts ≤ n
launching-le no_thread = omega arith
launching-le (free {thread} {ts} m h f c) = elim (Bool-cases (is_launching thread)) [
  | inl e ↦ absurd (cc (h, is_launching-holds thread m f e))
  | inr e ↦ rw e (launching-le c)
]
launching-le (holder {thread} {ts} m h f c) = elim (Bool-cases (is_launching thread)) [
  | inl e ↦ rw e (omega (arith, launching-le c))
  | inr e ↦ rw e (omega (arith, launching-le c))
]

AllDone-Claims : {n : ℕ} {ts : List (Code (Unit {0}))} → AllDone ts → Claims n ts → n ≡ 0
unfolding Obeys
AllDone-Claims no_thread_left no_thread = refl
AllDone-Claims (ended r d) (free m h f c) = AllDone-Claims d c
AllDone-Claims (ended r d) (holder m h f c) = absurd (cc (h, f.obeys))

module _ (server : Server) ⦃t : PyText⦄ (safe : IsSafe server.settings) where
  -- With safe settings, in every reachable state and so in every order of the threads, at most one
  -- thread is about to start the command of a linear motion, and only while the flag
  -- `_linear_motion_pending` is set.
  pub Reach-launching :
      {b : Bridge}
      → Reach server b
      → launching b.threads ≤ claims_of b.executor.linear_motion_pending
  Reach-launching r = launching-le (Reach-Inv server safe r).claims

  -- With safe settings, every command that was ever started in a reachable state is within the limits
  -- of its kind.
  pub Reach-AllLimited : {b : Bridge} → Reach server b → AllLimited b.executor.launched
  Reach-AllLimited r = (Reach-Inv server safe r).limited

  -- With safe settings, in a reachable state where each thread has ended the flag
  -- `_linear_motion_pending` is not set.
  pub Reach-AllDone :
      {b : Bridge} → Reach server b → AllDone b.threads → b.executor.linear_motion_pending ≡ false
  Reach-AllDone {b} r d =
      of_count b.executor.linear_motion_pending (AllDone-Claims d (Reach-Inv server safe r).claims)
    where
      of_count : (pending : Bool) → claims_of pending ≡ 0 → pending ≡ false
      of_count true q = absurd (omega (arith, q))
      of_count false q = refl
