-- ===== src/Py/Arithmetic.antt =====
-- Arithmetic of Python's floats, rounded to the nearest double as IEEE 754 does it, and `int` of a
-- float.
use roc_robot_sdk.Base.{
  ℕ, zero, suc, ◌+◌, ◌-◌, ◌*◌, ◌/◌, ◌%◌, ◌^◌, ◌≡◌, refl, Bool, true, false, ◌&&◌, ◌||◌, ltb, leb,
  eqb, if◌then◌else◌, Option, none, some,
}
use roc_robot_sdk.Base.Int.{ℤ, pos, negsuc, pos_part, neg_part}
use roc_robot_sdk.Py.Float.{Float, nan, neg_inf, pos_inf, fin, units}
use Prim.Native.Nat.{max, min}

-- How often a number can be halved until it is below 2 ^ 53, on fuel for the halvings.
unfoldable pub excess : ℕ → ℕ → ℕ
excess zero n = 0
excess (suc fuel) n = let more = excess fuel (n / 2) in if ltb n (2 ^ 53) then 0 else suc more

-- The quotient, rounded to the nearest whole number and to the even one from the middle.
unfoldable pub nearest : ℕ → ℕ → ℕ
nearest n d =
    let twice = 2 * (n % d) in
    if ltb d twice || (eqb twice d && eqb (n / d % 2) 1) then suc (n / d) else n / d

-- n / d units of 2 ^ -1074, rounded to 53 binary digits; a double has at most 2098 of these. What is
-- too large becomes infinite.
unfoldable pub rounded : Bool → ℕ → ℕ → Float
unfolding excess nearest
rounded negative n d =
    let step = 2 ^ excess 4400 (n / d) in
    let size = nearest n (d * step) * step in
    if leb (2 ^ 2098) size
    then (if negative then neg_inf else pos_inf)
    else fin (if negative && ltb 0 size then negsuc (size - 1) else pos size)

abbrev is_negative : ℤ → Bool
is_negative (pos _) = false
is_negative (negsuc _) = true

abbrev magnitude : ℤ → ℕ
magnitude k = pos_part k + neg_part k

abbrev differ : Bool → Bool → Bool
differ true b = if b then false else true
differ false b = b

-- `a * m` for a whole number m above 0.
unfoldable pub times : Float → ℕ → Float
unfolding rounded
times (fin a) m = rounded (is_negative a) (magnitude a * m) 1
times nan m = nan
times neg_inf m = neg_inf
times pos_inf m = pos_inf

-- `a / b` for a finite b that is not zero.
unfoldable pub divided : Float → Float → Float
unfolding rounded
divided (fin a) (fin b) =
    rounded (differ (is_negative a) (is_negative b)) (magnitude a * 2 ^ 1074) (magnitude b)
divided neg_inf (fin b) = if is_negative b then pos_inf else neg_inf
divided pos_inf (fin b) = if is_negative b then neg_inf else pos_inf
divided _ _ = nan

-- `a + n` for a whole number n.
unfoldable pub plus : Float → ℕ → Float
unfolding rounded
plus (fin (pos a)) n = rounded false (a + n * 2 ^ 1074) 1
plus (fin (negsuc a)) n =
    if leb (suc a) (n * 2 ^ 1074)
    then rounded false (n * 2 ^ 1074 - suc a) 1
    else rounded true (suc a - n * 2 ^ 1074) 1
plus nan n = nan
plus neg_inf n = neg_inf
plus pos_inf n = pos_inf

-- `-a`; the model has one zero.
unfoldable pub negated : Float → Float
negated nan = nan
negated neg_inf = pos_inf
negated pos_inf = neg_inf
negated (fin (pos zero)) = fin (pos zero)
negated (fin (pos (suc n))) = fin (negsuc n)
negated (fin (negsuc n)) = fin (pos (suc n))

-- `max(low, min(k, high))` for whole numbers with low <= high.
unfoldable pub clamp_int : ℕ → ℕ → ℤ → ℕ
clamp_int low high (pos n) = max low (min n high)
clamp_int low high (negsuc n) = low

-- 0.1 * 3 is 0.30000000000000004, and 1.0 / 0.22 is 4.545454545454546.
times_test : times (units 3602879701896397 1019) 3 ≡ units 5404319552844596 1020
unfolding times
times_test = refl

divided_test : divided (units 1 1074) (units 7926335344172073 1019) ≡ units 5117726849284655 1024
unfolding divided
divided_test = refl

-- `int(f)` is the whole part; it raises for what is no number or infinite.
unfoldable pub whole : Float → Option ℤ
whole (fin (pos n)) = some (pos (n / 2 ^ 1074))
whole (fin (negsuc n)) =
    let q = suc n / 2 ^ 1074 in some (if eqb q 0 then pos 0 else negsuc (q - 1))
whole _ = none
