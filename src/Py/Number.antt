-- ===== src/Py/Number.antt =====
-- `float` of a JSON value.
use roc_robot_sdk.Base.{ℕ, ◌+◌, ◌-◌, ◌^◌, String, Option, none, some, leb, if◌then◌else◌}
use roc_robot_sdk.Py.Json.{Json, bool, int, float, str}
use roc_robot_sdk.Py.Float.{Float, of_ℕ, of_ℤ}
use roc_robot_sdk.Failure.{other_exception, Result, ok, err}
use roc_robot_sdk.Base.Int.{pos_part, neg_part}

-- Python's integers from here on are too large for a float.
abbrev too_large : ℕ
too_large = 2 ^ 1024 - 2 ^ 970

module _ (parse_float : String → Option Float) where
  -- `float(v)`; `parse_float` is `float` of a text, none where it raises.
  unfoldable pub to_float : Json → Result Float
  unfolding of_ℤ
  to_float (int k) =
      if leb too_large (pos_part k + neg_part k) then err other_exception else ok (of_ℤ k)
  to_float (float f) = ok f
  to_float (bool b) = ok (of_ℕ (if b then 1 else 0))
  to_float (str s) = elim (parse_float s) [ none ↦ err other_exception | some f ↦ ok f ]
  to_float _ = err other_exception
