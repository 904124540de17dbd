-- ===== src/Failure.antt =====
-- The exceptions of roc_adapter_runtime.py: one constructor for each message of `RuntimeFailure`,
-- and one for any other exception.
use roc_robot_sdk.Base.{◌⊎◌, inl, inr, ℕ, String, Bool, true, false, List, ◌≡◌, refl}
use mathlib.Core.Path.{subst}
use roc_robot_sdk.Base.Int.{ℤ}
use roc_robot_sdk.Py.Json.{Json}

pub data Failure : Type 0 where
  -- files
  cannot_read json_object_required : Failure
  -- manifests
  bad_string_array bad_string_item : String → Failure
  bad_manifest_version bad_adapter_id display_name_required version_required : Failure
  bad_manifest_protocol bad_platform bad_requires bad_entrypoint bad_directory_name : Failure
  entrypoint_escapes entrypoint_missing : Failure
  duplicate_adapter : String → Failure
  -- jobs
  unknown_job_fields : List String → Failure
  bad_schema_version job_id_required job_type_required bad_key long_key : Failure
  bad_required bad_parameters bad_safety_policy : Failure
  adapter_not_found adapter_cannot_execute : String → Failure
  no_adapter_can_execute : Failure
  -- the adapter's process
  cannot_start input_closed process_exited response_not_object bad_response_protocol : Failure
  request_timed_out invalid_json : String → Failure
  rejected : Json → Failure
  -- the runtime
  runtime_active : ℤ → Failure
  lock_unavailable bad_capabilities_response : Failure
  missing_capabilities : List String → Failure
  invalid_job_state : String → Failure
  -- the outbox
  event_url_required : Failure
  bad_outbox_record : ℕ → Failure
  -- the registry
  none_combined bad_registry_protocol bad_registry : Failure
  not_installed : List String → Failure
  not_enabled : String → Failure
  -- cancellation
  no_runtime_state wrong_job job_not_active no_valid_pid lock_invalid lock_of_other not_linux :
      Failure
  cannot_inspect not_a_runtime cannot_signal : Failure
  -- the command line
  bad_timing : Failure
  unknown_command : String → Failure
  -- `run` gives an exception that is no `RuntimeFailure` as one with its text
  wrapped_exception : Failure
  -- an exception that is no `RuntimeFailure`
  other_exception : Failure
  -- the model's own, for a loop that is out of fuel; no run ends so
  out_of_fuel : Failure

pub data Result {ℓ} (A : Type ℓ) : Type ℓ where
  ok : A → Result A
  err : Failure → Result A

infixl 5 ◌>>=◌ ◌>>◌
-- An exception passes the rest by.
unfoldable pub ◌>>=◌ {κ ν} : {X : Type κ} {Y : Type ν} → Result X → (X → Result Y) → Result Y
ok x >>= rest = rest x
err why >>= rest = err why

-- The same for a check, which returns nothing.
abbrev pub ◌>>◌ {κ} : {Y : Type κ} → Result (Unit {0}) → Result Y → Result Y
check >> rest = check >>= λ done. rest

-- `if not b: raise e`
abbrev pub require : Bool → Failure → Result (Unit {0})
require true e = ok tt
require false e = err e

pub ok-injective {ℓ} : {A : Type ℓ} {a b : A} → ok a ≡ ok b → a ≡ b
ok-injective p = cc

pub require-true : (b : Bool) (e : Failure) (u : Unit {0}) → require b e ≡ ok u → b ≡ true
require-true true e u h = refl
require-true false e u h = cc

pub Result-cases {ℓ} :
    {A : Type ℓ} (r : Result A) → ((a : A) × (r ≡ ok a)) ⊎ ((e : Failure) × (r ≡ err e))
Result-cases (ok a) = inl (a, refl)
Result-cases (err e) = inr (e, refl)

-- What returns has a first part that returns.
pub >>=-eq-ok {κ ν} :
    {X : Type κ} {Y : Type ν} (first : Result X) (rest : X → Result Y) {y : Y}
    → (first >>= rest) ≡ ok y
    → (x : X) × (first ≡ ok x) × (rest x ≡ ok y)
unfolding ◌>>=◌
>>=-eq-ok (ok x) rest returns = (x, refl, returns)
>>=-eq-ok (err why) rest returns = cc

pub require-eq-ok {ℓ} :
    {B : Type ℓ} (b : Bool) (e : Failure) (k : Result B) {r : B}
    → (require b e >> k) ≡ ok r
    → (b ≡ true) × (k ≡ ok r)
unfolding ◌>>=◌
require-eq-ok true e k h = (refl, h)
require-eq-ok false e k h = cc

-- What holds of the value, if no exception is raised.
pub record Ensures {ℓ κ} {A : Type ℓ} (P : A → Type κ) (r : Result A) : Type (ℓ ⊔ κ) where
  pub of_ok : (a : A) → r ≡ ok a → P a

module _ {ℓ κ ν} {A : Type ℓ} {B : Type κ} {P : B → Type ν} where
  -- The rest may use that the first part returned.
  pub Ensures-bind :
      (m : Result A) (f : A → Result B)
      → ((a : A) → m ≡ ok a → Ensures P (f a))
      → Ensures P (m >>= f)
  unfolding ◌>>=◌
  Ensures-bind (ok a) f h = h a refl
  Ensures-bind (err e) f h = record { of_ok = λ b p. cc }

module _ {ℓ ν} {B : Type ℓ} {P : B → Type ν} where
  pub Ensures-require :
      (b : Bool) (e : Failure) (k : Result B)
      → (b ≡ true → Ensures P k)
      → Ensures P (require b e >> k)
  unfolding ◌>>=◌
  Ensures-require true e k h = h refl
  Ensures-require false e k h = record { of_ok = λ b p. cc }

  pub Ensures-ok : (b : B) → P b → Ensures P (ok b)
  Ensures-ok b h = record { of_ok = λ c p. subst P (ok-injective p) h }

  pub Ensures-err : (e : Failure) → Ensures P (err e)
  Ensures-err e = record { of_ok = λ c p. cc }
