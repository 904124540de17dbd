-- ===== src/Executor/Rules.antt =====
-- What a program of adapters/go2/go2_bridge.py does, whatever the other threads do and whatever the
-- environment answers: each operation is allowed at the stage of its thread, and what holds at the
-- end. A rule for each way to build a program.
use roc_robot_sdk.Executor.{
  patrol_inspection, Command, named_action, tiny_motion, lidar_navigation, obstacle_move, patrol,
  Trouble, linear_motion, Op, claim_motion, release_motion, start_thread, launch, run_command,
  respond, Answer,
}
use roc_robot_sdk.Executor.Actions.{status}
use roc_robot_sdk.Base.{
  ℕ, suc, ◌*◌, ◌^◌, ◌≤◌, ◌≡◌, refl, sym, ◌⊎◌, Bool, true, false, if◌then◌else◌,
}
use roc_robot_sdk.Executor.Program.{
  Program, done, act, Attempt, returned, raised, Code, sequence, pure, raise, op, passing, ◌>>=◌,
  attempt, finally,
}
use roc_robot_sdk.Py.Float.{Float, of_ℕ}
use roc_robot_sdk.Py.Arithmetic.{negated}
use roc_robot_sdk.Go2.Commands.{IsBetween}
use mathlib.Core.Path.{subst}

-- What a thread has done so far: whether it holds the claim on linear motions that
-- `_linear_motion_pending` stands for, the number of its responses that were read, and whether it may
-- start other threads.
pub record Stage : Type 0 where
  pub holds : Bool
  pub answers : ℕ
  pub starts : Bool

-- The stage of a request's thread, but for its answers.
pub record IsServing (m : Stage) : Type 0 where
  pub free : m.holds ≡ false
  pub starter : m.starts ≡ true

abbrev pub next : Stage → (o : Op) → Answer o → Stage
next m claim_motion true = record m { holds = true }
next m release_motion a = record m { holds = false }
next m (start_thread (linear_motion action distance seconds)) true = record m { holds = false }
next m (respond status payload) true = record m { answers = suc m.answers }
next m o a = m

-- In units of 2 ^ -1074 metres: 0.1 and 60.
abbrev pub IsDistance : Float → Type 0
IsDistance = IsBetween (7205759403792794 * 2 ^ 1018) (60 * 2 ^ 1074)

-- The limits of a command: a turn has a rate between 0.1 and 0.8 and ends within 12 s, or all is
-- zero, which stops the robot; a linear motion goes at most 60 m, with a speed between 0.15 and 0.8,
-- forward or backward, for at most 240 s, or with the navigator's speed between 0.1 and 0.35, which
-- tries at most four bypasses; a patrol goes between 0.5 and 20 m and turns for 1 to 12 s.
abbrev pub IsLimited : Command → Type 0
IsLimited (named_action helper action) = Unit
IsLimited (tiny_motion helper vx vy vyaw duration_ms) =
    (vx ≡ of_ℕ 0)
    × (vy ≡ of_ℕ 0)
    × (((vyaw ≡ of_ℕ 0) × (duration_ms ≡ 0))
        ⊎ (IsBetween (7205759403792794 * 2 ^ 1018) (7205759403792794 * 2 ^ 1021) vyaw
            × (100 ≤ duration_ms)
            × (duration_ms ≤ 12000)))
IsLimited (lidar_navigation distance speed stop clearance shift attempts) =
    IsDistance distance
    × IsBetween (7205759403792794 * 2 ^ 1018) (6305039478318694 * 2 ^ 1020) speed
    × (attempts ≤ 4)
IsLimited (obstacle_move vx duration_ms) =
    (speed : Float) × IsBetween (5404319552844595 * 2 ^ 1019) (7205759403792794 * 2 ^ 1021) speed
    × ((vx ≡ speed) ⊎ (vx ≡ negated speed))
    × (100 ≤ duration_ms)
    × (duration_ms ≤ 240000)
IsLimited (patrol helper distance turn_seconds) =
    IsBetween (1 * 2 ^ 1073) (20 * 2 ^ 1074) distance
    × IsBetween (1 * 2 ^ 1074) (12 * 2 ^ 1074) turn_seconds

abbrev pub is_linear_command : Command → Bool
is_linear_command (lidar_navigation distance speed stop clearance shift attempts) = true
is_linear_command (obstacle_move vx duration_ms) = true
is_linear_command c = false

abbrev pub IsAllowed : Stage → Op → Type 0
IsAllowed m claim_motion = m.holds ≡ false
IsAllowed m release_motion = m.holds ≡ true
IsAllowed m (start_thread (linear_motion action distance seconds)) =
    (m.holds ≡ true) × (m.starts ≡ true) × IsDistance distance
IsAllowed m (start_thread (patrol_inspection distance turn_seconds)) = m.starts ≡ true
IsAllowed m (launch c) = IsLimited c × (is_linear_command c ≡ true → m.holds ≡ true)
IsAllowed m (run_command c seconds) = IsLimited c × (is_linear_command c ≡ false)
IsAllowed m (respond status payload) = m.answers ≡ 0
IsAllowed m o = Unit

module _ {A : Type 0} (Q : Stage → A → Type 0) where
  unfoldable pub Obeys : Stage → Program A → Type 0
  Obeys m (done a) = Q m a
  Obeys m (act o k) = IsAllowed m o × ((a : Answer o) → Obeys (next m o a) (k a))

pub record Follows {A : Type 0} (Q : Stage → A → Type 0) (m : Stage) (p : Program A) : Type 0 where
  pub obeys : Obeys Q m p

module _ {A B : Type 0} {Q : Stage → A → Type 0} {R : Stage → B → Type 0} where
  Obeys-sequence :
      (p : Program A) (f : A → Program B) (m : Stage)
      → ((m' : Stage) (a : A) → Q m' a → Follows R m' (f a))
      → Obeys Q m p
      → Obeys R m (sequence p f)
  unfolding Obeys sequence
  Obeys-sequence (done a) f m h o = (h m a o).obeys
  Obeys-sequence (act o k) f m h (allowed, rest) =
      (allowed, λ a. Obeys-sequence (k a) f (next m o a) h (rest a))

  pub Follows-sequence :
      {m : Stage} (p : Program A) (f : A → Program B)
      → Follows Q m p
      → ((m' : Stage) (a : A) → Q m' a → Follows R m' (f a))
      → Follows R m (sequence p f)
  Follows-sequence {m} p f h k = record { obeys = Obeys-sequence p f m k h.obeys }

-- What holds of the value, if no exception is raised.
abbrev pub OnReturn : {A : Type 0} → (A → Type 0) → Attempt A → Type 0
OnReturn P (returned a) = P a
OnReturn P (raised e) = Unit

abbrev Stays : {A : Type 0} → Stage → (A → Type 0) → Stage → Attempt A → Type 0
Stays m P m' r = (m' ≡ m) × OnReturn P r

-- The code leaves its thread at the stage where it began, whether it returns or raises.
abbrev pub Quiet : {A : Type 0} → (A → Type 0) → Stage → Code A → Type 0
Quiet P m p = Follows (Stays m P) m p

abbrev pub Any : {A : Type 0} → A → Type 0
Any a = Unit

module _ {A : Type 0} {P : A → Type 0} {m : Stage} where
  pub Quiet-pure : (a : A) → P a → Quiet P m (pure a)
  unfolding Obeys
  Quiet-pure a h = record { obeys = (refl, h) }

  pub Quiet-raise : (e : Trouble) → Quiet P m (raise e)
  unfolding Obeys
  Quiet-raise e = record { obeys = (refl, tt) }

  pub Quiet-if :
      (b : Bool) (p q : Code A) → Quiet P m p → Quiet P m q → Quiet P m (if b then p else q)
  Quiet-if true p q h k = h
  Quiet-if false p q h k = k

-- An operation that leaves the stage as it is.
pub Quiet-op :
    {m : Stage} (o : Op) → IsAllowed m o → ((a : Answer o) → next m o a ≡ m) → Quiet Any m (op o)
unfolding Obeys
Quiet-op o h k = record { obeys = (h, λ a. (k a, tt)) }

module _ {A B : Type 0} {P : A → Type 0} {R : B → Type 0} {m : Stage} where
  pub Quiet-attempt :
      (p : Code A) (f : Attempt A → Code B)
      → Quiet P m p
      → ((r : Attempt A) → OnReturn P r → Quiet R m (f r))
      → Quiet R m (attempt p f)
  unfolding attempt
  Quiet-attempt p f h k =
      Follows-sequence p f h λ m' r q. subst (λ n. Follows (Stays m R) n (f r)) (sym q.0) (k r q.1)

  pub Quiet-bind :
      (p : Code A) (f : A → Code B)
      → Quiet P m p
      → ((a : A) → P a → Quiet R m (f a))
      → Quiet R m (p >>= f)
  unfolding ◌>>=◌ attempt
  Quiet-bind p f h k = Quiet-attempt p (passing f) h passing-Quiet
    where
      passing-Quiet : (r : Attempt A) → OnReturn P r → Quiet R m (passing f r)
      passing-Quiet (returned a) x = k a x
      passing-Quiet (raised e) x = Quiet-raise e

module _ {A : Type 0} {P : A → Type 0} {m : Stage} where
  pub Quiet-finally :
      (p : Code A) (n : Code (Unit {0})) → Quiet P m p → Quiet Any m n → Quiet P m (finally p n)
  unfolding finally attempt Obeys
  Quiet-finally p n h k =
      Quiet-attempt p _ h λ r x. Quiet-bind n _ k λ _ _. record { obeys = (refl, x) }

module _ {A B : Type 0} {R : B → Type 0} {m : Stage} where
  -- The rest needs nothing of the value.
  pub Quiet-then :
      (p : Code A) (f : A → Code B)
      → Quiet Any m p
      → ((a : A) → Quiet R m (f a))
      → Quiet R m (p >>= f)
  Quiet-then p f h k = Quiet-bind p f h λ a x. k a
