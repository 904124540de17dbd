-- ===== src/Lock.antt =====
-- The lock file of `JobRuntime` in roc_adapter_runtime.py: `_acquire_lock` and `_release_lock`, while
-- no other process touches the file.
pub mod Serial
use roc_robot_sdk.Base.{
  refl, ◌≢◌, inl, inr, arith, Bool-cases, ℕ, zero, suc, ◌≡◌, Bool, false, ◌&&◌, Option, none, some,
  ltb, if◌then◌else◌,
}
use roc_robot_sdk.Base.Int.{ℤ, pos, negsuc, eqb_ℤ}
use roc_robot_sdk.Failure.{runtime_active, lock_unavailable, Result, ok, err}

-- The file's content: a number, or something that is no number or cannot be read.
abbrev pub Content : Type 0
Content = Option ℤ

-- `_pid_is_active`; `alive` is `os.kill(pid, 0)`.
unfoldable pub pid_is_active : (ℕ → Bool) → ℤ → Bool
pid_is_active alive (pos n) = ltb 0 n && alive n
pid_is_active alive (negsuc n) = false

-- The owner that the file names, or -1.
abbrev owner_of : Content → ℤ
owner_of none = negsuc 0
owner_of (some pid) = pid

module _ (alive : ℕ → Bool) (pid : ℕ) where
  -- The rounds of `_acquire_lock` that are left, and the lock file.
  unfoldable pub acquire_rounds : ℕ → Option Content → Result (Unit {0}) × Option Content
  unfolding pid_is_active
  acquire_rounds zero lock = (err lock_unavailable, lock)
  acquire_rounds (suc n) none = (ok tt, some (some (pos pid)))
  acquire_rounds (suc n) (some content) =
      let again = acquire_rounds n none in
      if pid_is_active alive (owner_of content)
      then (err (runtime_active (owner_of content)), some content)
      else again

  unfoldable pub acquire_lock : Option Content → Result (Unit {0}) × Option Content
  unfolding acquire_rounds
  acquire_lock lock = acquire_rounds 2 lock

  -- A lock that names a process which `os.kill(pid, 0)` reaches.
  abbrev pub is_held : Option Content → Bool
  is_held none = false
  is_held (some content) = pid_is_active alive (owner_of content)

  abbrev pub holder : Option Content → ℤ
  holder none = negsuc 0
  holder (some content) = owner_of content

  -- `_acquire_lock` refuses exactly a lock whose process is reached, and leaves it alone; it takes
  -- any other, a stale or unreadable one too, and the file then names this process.
  pub acquire_lock_lem :
      (lock : Option Content)
      → acquire_lock lock ≡ (
          if is_held lock
          then (err (runtime_active (holder lock)), lock)
          else (ok tt, some (some (pos pid))))
  unfolding acquire_lock
  acquire_lock_lem none = refl
  acquire_lock_lem (some content) = elim (Bool-cases (pid_is_active alive (owner_of content))) [
    | inl e ↦ rw e
    | inr e ↦ rw e
  ]

-- `_release_lock`: a lock that names another process stays, and any lock that cannot be read or removed;
-- `unlinks` tells whether `unlink` succeeds.
unfoldable pub release_lock : Bool → ℕ → Option Content → Option Content
release_lock unlinks pid (some (some owner)) =
    if eqb_ℤ owner (pos pid) && unlinks then none else some (some owner)
release_lock unlinks pid lock = lock
