-- ===== src/Go2/Commands.antt =====
-- The commands that adapters/go2/runtime_adapter.py forms, and when it sends them.
use roc_robot_sdk.Bridge.{
  BridgeCall, get_status, post_cancel, navigate_forward, patrol_inspection, Go2, bounded_value,
  is_running, bounded_parameter, command_of,
}
use mathlib.Core.Path.{subst}
use roc_robot_sdk.Base.{
  ℕ, ◌*◌, ◌^◌, ◌≤◌, String, ◌≡◌, refl, ◌⊎◌, inl, inr, Bool, true, false, Option, ◌∷◌, arith,
  Bool-cases, ◌==◌,
}
use roc_robot_sdk.Py.Json.{Json, null, bool, int, float, str, arr, obj, Dict}
use roc_robot_sdk.Py.Float.{
  Float, nan, neg_inf, pos_inf, fin, ltb_float, is_finite, min_float, max_float,
}
use roc_robot_sdk.Failure.{Result, ok, ok-injective, Ensures, Ensures-bind, Ensures-ok, Ensures-err}
use roc_robot_sdk.Base.Int.{ℤ, pos, ltb_ℤ}

pub record IsBetween (lo hi : ℕ) (f : Float) : Type 0 where
  pub finite : is_finite f ≡ true
  pub not_below : ltb_float f (fin (pos lo)) ≡ false
  pub not_above : ltb_float (fin (pos hi)) f ≡ false

-- Distances in units of 2 ^ -1074 metres: 0.1 and 60.0 for a delivery, 0.5 and 20.0 for a patrol,
-- whose turn takes between 1 and 12 seconds.
abbrev pub IsLimited : BridgeCall → Type 0
IsLimited get_status = Unit
IsLimited post_cancel = Unit
IsLimited (navigate_forward meters) = IsBetween (3602879701896397 * 2 ^ 1019) (60 * 2 ^ 1074) meters
IsLimited (patrol_inspection meters seconds) =
    IsBetween (1 * 2 ^ 1073) (20 * 2 ^ 1074) meters
    × IsBetween (1 * 2 ^ 1074) (12 * 2 ^ 1074) seconds

abbrev pub is_motion : BridgeCall → Bool
is_motion get_status = false
is_motion post_cancel = false
is_motion (navigate_forward meters) = true
is_motion (patrol_inspection meters seconds) = true

-- At most one call was made. It is within the limits, and is no motion if a job was running.
pub record Commands (s : Go2) (x : Result Dict × Go2) : Type 0 where
  pub cases :
      (x.1.calls ≡ s.calls)
      ⊎ ((c : BridgeCall) × (x.1.calls ≡ c ∷ s.calls)
          × IsLimited c
          × (is_running s.current_job ≡ true → is_motion c ≡ false))

bounded_value-IsBetween :
    (lo hi : ℕ) (value f : Float)
    → lo ≤ hi
    → bounded_value (fin (pos lo)) (fin (pos hi)) value ≡ ok f
    → IsBetween lo hi f
unfolding bounded_value
bounded_value-IsBetween lo hi (fin k) f h p = subst (IsBetween lo hi) (ok-injective p) (within k)
  where
    at_lo : IsBetween lo hi (fin (pos lo))
    at_lo = record { finite = refl; not_below = ground arith; not_above = ground arith }

    within : (k : ℤ) → IsBetween lo hi (max_float (fin (pos lo)) (min_float (fin k) (fin (pos hi))))
    within k = elim (Bool-cases (ltb_ℤ (pos hi) k)) [
      | inl e ↦ elim (Bool-cases (ltb_ℤ (pos lo) (pos hi))) [
        | inl g ↦
            rw (e, g) (record { finite = refl; not_below = ground arith; not_above = ground arith })
        | inr g ↦ rw (e, g) at_lo
      ]
      | inr e ↦ elim (Bool-cases (ltb_ℤ (pos lo) k)) [
        | inl g ↦ rw (e, g) (record { finite = refl; not_below = ground arith; not_above = e })
        | inr g ↦ rw (e, g) at_lo
      ]
    ]
bounded_value-IsBetween lo hi nan f h p = cc
bounded_value-IsBetween lo hi neg_inf f h p = cc
bounded_value-IsBetween lo hi pos_inf f h p = cc

module _ (parse_float : String → Option Float) where
  bounded_parameter-IsBetween :
      (parameters : Json) (name : String) (default : Float) (lo hi : ℕ)
      → lo ≤ hi
      → Ensures
          (IsBetween lo hi)
          (bounded_parameter parse_float parameters name default (fin (pos lo)) (fin (pos hi)))
  unfolding bounded_parameter
  bounded_parameter-IsBetween (obj d) name default lo hi h =
      Ensures-bind _ _ λ value v. record { of_ok = λ f. bounded_value-IsBetween lo hi value f h }
  bounded_parameter-IsBetween null name default lo hi h = Ensures-err _
  bounded_parameter-IsBetween (bool _) name default lo hi h = Ensures-err _
  bounded_parameter-IsBetween (int _) name default lo hi h = Ensures-err _
  bounded_parameter-IsBetween (float _) name default lo hi h = Ensures-err _
  bounded_parameter-IsBetween (str _) name default lo hi h = Ensures-err _
  bounded_parameter-IsBetween (arr _) name default lo hi h = Ensures-err _

  -- The call for a job is within the limits; for STOP it is no motion.
  abbrev IsFit : String → BridgeCall → Type 0
  IsFit job_type c = IsLimited c × ((job_type == "STOP") ≡ true → is_motion c ≡ false)

  pub command_of-IsFit :
      (job_type : String) (parameters : Json)
      → Ensures (IsFit job_type) (command_of parse_float job_type parameters)
  unfolding command_of
  command_of-IsFit job_type parameters = elim (Bool-cases (job_type == "STOP")) [
    | inl stop ↦ rw stop (Ensures-ok post_cancel (tt, λ h. refl))
    | inr go ↦ elim (Bool-cases (job_type == "DELIVERY")) [
      | inl e ↦
          rw (go, e)
            (Ensures-bind _ _ λ meters m. Ensures-ok (navigate_forward meters) (
              (bounded_parameter-IsBetween parameters "distanceMeters" _ _ _ (omega arith)).of_ok
                  meters m,
              λ h. absurd (cc (go, h)),
            ))
      | inr e ↦
          rw (go, e)
            (Ensures-bind _ _ λ meters m. Ensures-bind _ _ λ seconds q.
              Ensures-ok (patrol_inspection meters seconds) (
                (
                  (bounded_parameter-IsBetween parameters "distanceMeters" _ _ _
                        (omega arith)).of_ok
                      meters m,
                  (bounded_parameter-IsBetween parameters "turnSeconds" _ _ _ (omega arith)).of_ok
                      seconds q,
                ),
                λ h. absurd (cc (go, h)),
              ))
    ]
  ]
