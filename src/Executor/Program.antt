-- ===== src/Executor/Program.antt =====
-- What a thread of adapters/go2/go2_bridge.py does: a tree of atomic operations, one branch for each
-- answer. A thread that is interrupted between two operations goes on with the branch.
use roc_robot_sdk.Executor.{Op, Answer, Trouble}

pub data Program (A : Type 0) : Type 0 where
  done : A → Program A
  act : (o : Op) → (Answer o → Program A) → Program A

-- A value or an exception.
pub data Attempt (A : Type 0) : Type 0 where
  returned : A → Attempt A
  raised : Trouble → Attempt A

abbrev pub Code : Type 0 → Type 0
Code A = Program (Attempt A)

module _ {A B : Type 0} where
  unfoldable pub sequence : Program A → (A → Program B) → Program B
  sequence (done a) f = f a
  sequence (act o k) f = act o (λ a. sequence (k a) f)

module _ {A : Type 0} where
  abbrev pub pure : A → Code A
  pure a = done (returned a)

  abbrev pub raise : Trouble → Code A
  raise e = done (raised e)

abbrev pub op : (o : Op) → Code (Answer o)
op o = act o λ a. done (returned a)

module _ {A B : Type 0} where
  -- An exception passes the rest by.
  abbrev pub passing : (A → Code B) → Attempt A → Code B
  passing f (returned a) = f a
  passing f (raised e) = done (raised e)

  infixl 5 ◌>>=◌ ◌>>◌
  unfoldable pub ◌>>=◌ : Code A → (A → Code B) → Code B
  m >>= f = sequence m (passing f)

  abbrev pub ◌>>◌ : Code A → Code B → Code B
  m >> n = m >>= λ _. n

  -- `try` with its `except` clauses, which get the exception, and its `else`.
  unfoldable pub attempt : Code A → (Attempt A → Code B) → Code B
  attempt m f = sequence m f

module _ {A : Type 0} where
  -- `try: m finally: n`
  unfoldable pub finally : Code A → Code (Unit {0}) → Code A
  unfolding ◌>>=◌
  finally m n = sequence m λ r. n >>= λ _. done r

-- `except Exception as e`
abbrev pub on_trouble : (Trouble → Code (Unit {0})) → Attempt (Unit {0}) → Code (Unit {0})
on_trouble handler (returned a) = pure a
on_trouble handler (raised e) = handler e
