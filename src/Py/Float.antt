-- ===== src/Py/Float.antt =====
-- Python's `float`. Every finite double is a whole multiple of 2 ^ -1074, so `fin k` is the double
-- k * 2 ^ -1074 and the comparisons are exact.
use roc_robot_sdk.Base.{ℕ, suc, ◌-◌, ◌*◌, ◌^◌, Bool, true, false, if◌then◌else◌}
use roc_robot_sdk.Base.Int.{ℤ, pos, negsuc, ltb_ℤ, eqb_ℤ}

pub data Float : Type 0 where
  nan neg_inf pos_inf : Float
  fin : ℤ → Float

-- `a < b`
abbrev pub ltb_float : Float → Float → Bool
ltb_float nan b = false
ltb_float neg_inf nan = false
ltb_float neg_inf neg_inf = false
ltb_float neg_inf pos_inf = true
ltb_float neg_inf (fin b) = true
ltb_float pos_inf b = false
ltb_float (fin a) nan = false
ltb_float (fin a) neg_inf = false
ltb_float (fin a) pos_inf = true
ltb_float (fin a) (fin b) = ltb_ℤ a b

-- `math.isfinite`
abbrev pub is_finite : Float → Bool
is_finite (fin _) = true
is_finite _ = false

-- `min(a, b)` and `max(a, b)`: the first argument, unless the second is strictly better.
abbrev pub min_float : Float → Float → Float
min_float a b = if ltb_float b a then b else a

abbrev pub max_float : Float → Float → Float
max_float a b = if ltb_float a b then b else a

-- The double nearest to a literal, as `m * 2 ^ k` units of 2 ^ -1074.
abbrev pub units : ℕ → ℕ → Float
units m k = fin (pos (m * 2 ^ k))

-- The double of a whole number below 2 ^ 53.
abbrev pub of_ℕ : ℕ → Float
of_ℕ n = units n 1074

-- `float(k)` of a Python integer, kept exact: comparing it with a float is exact too.
unfoldable pub of_ℤ : ℤ → Float
of_ℤ (pos n) = fin (pos (n * 2 ^ 1074))
of_ℤ (negsuc n) = fin (negsuc (suc n * 2 ^ 1074 - 1))

-- `a == b`
abbrev pub eqb_float : Float → Float → Bool
eqb_float neg_inf neg_inf = true
eqb_float pos_inf pos_inf = true
eqb_float (fin a) (fin b) = eqb_ℤ a b
eqb_float _ _ = false
