-- ===== src/Executor/Startup.antt =====
-- The start of adapters/go2/go2_bridge.py: `wait_for_network_interface` and `RobotExecutor.__init__`.
use roc_robot_sdk.Base.{
  zero, suc, ◌+◌, ◌*◌, ◌≤◌, ◌≡◌, refl, inl, inr, true, [], arith, ltb, Bool-cases, ℕ, String, Bool,
  false, Option, none, some, if◌then◌else◌,
}
use roc_robot_sdk.Executor.{idle, RobotExecutor}
use Prim.Native.String.{◌++◌ as text_append}

-- What `ip addr show` says of the interface, or an exception; and the milliseconds that it takes.
pub data Probe : Type 0 where
  has_address no_address probe_fails : Probe

pub record Network : Type 0 where
  pub probe : ℕ → Probe
  pub took : ℕ → ℕ

abbrev is_ready : Probe → Bool
is_ready has_address = true
is_ready no_address = false
is_ready probe_fails = false

module _ (network : Network) where
  -- The rounds of the loop that are left, the number of the next probe, the time and the deadline.
  unfoldable pub wait_rounds : ℕ → ℕ → ℕ → ℕ → Bool × ℕ
  wait_rounds zero i now deadline = (false, now)
  wait_rounds (suc rounds) i now deadline =
      let again = wait_rounds rounds (suc i) (now + network.took i + 1000) deadline in
      if ltb now deadline
      then if is_ready (network.probe i) then (true, now + network.took i + 2000) else again
      else (false, now)

  -- The result and the time; a round without an address takes a second, so that this many rounds
  -- reach the deadline.
  unfoldable pub wait_for_network_interface : ℕ → ℕ → Bool × ℕ
  unfolding wait_rounds
  wait_for_network_interface timeout_seconds now =
      wait_rounds timeout_seconds 0 now (now + timeout_seconds * 1000)

  -- The wait ends with an address that a probe has seen, or when the time is over.
  abbrev IsWaited : ℕ → Bool × ℕ → Type 0
  IsWaited deadline (true, time) = (i : ℕ) × (network.probe i ≡ has_address)
  IsWaited deadline (false, time) = deadline ≤ time

  is_ready-eq : (p : Probe) → is_ready p ≡ true → p ≡ has_address
  is_ready-eq has_address h = refl
  is_ready-eq no_address h = absurd (cc h)
  is_ready-eq probe_fails h = absurd (cc h)

  wait_rounds-IsWaited :
      (rounds i now deadline : ℕ)
      → deadline ≤ now + rounds * 1000
      → IsWaited deadline (wait_rounds rounds i now deadline)
  unfolding wait_rounds
  wait_rounds-IsWaited zero i now deadline h = omega (arith, h)
  wait_rounds-IsWaited (suc rounds) i now deadline h = elim (Bool-cases (ltb now deadline)) [
    | inl early ↦ elim (Bool-cases (is_ready (network.probe i))) [
      | inl ready ↦ rw (early, ready) (i, is_ready-eq _ ready)
      | inr absent ↦
          rw (early, absent) (wait_rounds-IsWaited rounds (suc i) _ deadline (omega (arith, h)))
    ]
    | inr late ↦ rw late (ground arith)
  ]

  -- The wait for the interface ends with success only if a probe has seen an address, and without it
  -- only when the timeout is over: one round for each second is enough.
  wait_for_network_interface-IsWaited :
      (timeout_seconds now : ℕ)
      → IsWaited (now + timeout_seconds * 1000) (wait_for_network_interface timeout_seconds now)
  unfolding wait_for_network_interface
  wait_for_network_interface-IsWaited timeout_seconds now =
      wait_rounds-IsWaited timeout_seconds 0 now _ (omega arith)

-- `sdk2_initialized` and `error_msg` after the SDK's initialization.
abbrev initialized : Option String → Bool × String
initialized none = (true, "")
initialized (some exc) = (false, text_append "Unitree SDK init failed: " exc)

abbrev pub fresh : ℕ → Bool × String → RobotExecutor
fresh now (sdk2_initialized, error_msg) = record {
  state = idle;
  error_msg = error_msg;
  sdk2_initialized = sdk2_initialized;
  active_motion_process = none;
  linear_motion_pending = false;
  cancel_requested = false;
  launched = [];
  responses = [];
  now = now;
}

-- `sdk` is what the SDK's initialization comes to: none if it succeeds, else the exception's text.
unfoldable init_unitree_sdk2 : Network → Option String → ℕ → Option (Bool × String)
unfolding wait_for_network_interface
init_unitree_sdk2 network sdk now =
    if (wait_for_network_interface network 90 now).0 then some (initialized sdk) else none

-- The executor, or none where `SystemExit` is raised.
unfoldable new_executor : Bool → Network → Option String → ℕ → Option RobotExecutor
unfolding init_unitree_sdk2
new_executor mock network sdk now =
    if mock then some (fresh now (false, "")) else elim (init_unitree_sdk2 network sdk now) [
      | none ↦ none
      | some outcome ↦ some (fresh now outcome)
    ]
