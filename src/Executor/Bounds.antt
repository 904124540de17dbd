-- ===== src/Executor/Bounds.antt =====
-- The bounds of adapters/go2/go2_bridge.py: what `env_speed` and `env_int` return, and the settings.
use roc_robot_sdk.Executor.Linear.{speed_of}
use roc_robot_sdk.Py.Float.{ltb_float, of_ℕ, Float, nan, neg_inf, pos_inf, fin, max_float}
use roc_robot_sdk.Executor.Settings.{
  parsed, clamp_float, Environ, env_speed, env_int, Settings, settings_of,
}
use roc_robot_sdk.Base.{ℕ, ◌*◌, ◌^◌, ◌≤◌, String, refl, inl, inr, Bool, arith, Bool-cases}
use roc_robot_sdk.Executor.{Trouble}
use roc_robot_sdk.Py.Arithmetic.{clamp_int}
use roc_robot_sdk.Base.Int.{ℤ, pos, negsuc, ltb_ℤ}
use roc_robot_sdk.Go2.Commands.{IsBetween}

-- Whatever the value is, infinite or no number too, the result is within the bounds.
pub clamp_float-IsBetween :
    (lo hi : ℕ) (value : Float)
    → lo ≤ hi
    → IsBetween lo hi (clamp_float (fin (pos lo)) (fin (pos hi)) value)
unfolding clamp_float
clamp_float-IsBetween lo hi nan h = record {
  finite = refl;
  not_below = ground arith;
  not_above = ground arith;
}
clamp_float-IsBetween lo hi neg_inf h = record {
  finite = refl;
  not_below = ground arith;
  not_above = ground arith;
}
clamp_float-IsBetween lo hi pos_inf h = at_top
  where
    at_top : IsBetween lo hi (max_float (fin (pos lo)) (fin (pos hi)))
    at_top = elim (Bool-cases (ltb_ℤ (pos lo) (pos hi))) [
      | inl g ↦ rw g (record { finite = refl; not_below = ground arith; not_above = ground arith })
      | inr g ↦ rw g (record { finite = refl; not_below = ground arith; not_above = ground arith })
    ]
clamp_float-IsBetween lo hi (fin k) h = elim (Bool-cases (ltb_ℤ (pos hi) k)) [
  | inl e ↦ elim (Bool-cases (ltb_ℤ (pos lo) (pos hi))) [
    | inl g ↦
        rw (e, g) (record { finite = refl; not_below = ground arith; not_above = ground arith })
    | inr g ↦
        rw (e, g) (record { finite = refl; not_below = ground arith; not_above = ground arith })
  ]
  | inr e ↦ elim (Bool-cases (ltb_ℤ (pos lo) k)) [
    | inl g ↦ rw (e, g) (record { finite = refl; not_below = ground arith; not_above = e })
    | inr g ↦
        rw (e, g) (record { finite = refl; not_below = ground arith; not_above = ground arith })
  ]
]

widened :
    {lo hi lo' hi' : ℕ} (f : Float) → lo' ≤ lo → hi ≤ hi' → IsBetween lo hi f → IsBetween lo' hi' f
widened (fin (pos n)) l h b = record {
  finite = refl;
  not_below = ground (arith, b.not_below);
  not_above = ground (arith, b.not_above);
}
widened (fin (negsuc n)) l h b = record {
  finite = refl;
  not_below = ground (arith, b.not_below);
  not_above = ground (arith, b.not_above);
}
widened nan l h b = cc
widened neg_inf l h b = cc
widened pos_inf l h b = cc

pub clamp_int-le :
    (low high : ℕ) (k : ℤ)
    → low ≤ high
    → (low ≤ clamp_int low high k) × (clamp_int low high k ≤ high)
unfolding clamp_int
clamp_int-le low high (pos n) h = (ground arith, ground arith)
clamp_int-le low high (negsuc n) h = (ground arith, ground arith)

module _ (env : Environ) (name : String) where
  env_speed-IsBetween :
      (default : Float) (lo hi : ℕ)
      → lo ≤ hi
      → IsBetween lo hi (env_speed env name default (fin (pos lo)) (fin (pos hi)))
  unfolding env_speed
  env_speed-IsBetween default lo hi h =
      clamp_float-IsBetween lo hi (parsed env.parse_float (env.variable name) default) h

  env_int-le : (default low high : ℕ) → low ≤ high → env_int env name default low high ≤ high
  unfolding env_int
  env_int-le default low high h =
      (clamp_int-le low high (parsed env.parse_int (env.variable name) (pos default)) h).1

-- The settings that the limits of the commands depend on.
pub record IsSafe (s : Settings) : Type 0 where
  pub short_move :
      IsBetween (5404319552844595 * 2 ^ 1019) (7205759403792794 * 2 ^ 1020) s.short_move_speed
  pub long_move :
      IsBetween (5404319552844595 * 2 ^ 1020) (7205759403792794 * 2 ^ 1021) s.long_move_speed
  pub lidar_nav :
      IsBetween (7205759403792794 * 2 ^ 1018) (6305039478318694 * 2 ^ 1020) s.lidar_nav_speed
  pub stop_distance :
      IsBetween (7205759403792794 * 2 ^ 1020) (6755399441055744 * 2 ^ 1022) s.lidar_stop_distance
  pub side_clearance :
      IsBetween (7205759403792794 * 2 ^ 1020) (6755399441055744 * 2 ^ 1022) s.lidar_side_clearance
  pub lateral_shift :
      IsBetween (7205759403792794 * 2 ^ 1020) (6755399441055744 * 2 ^ 1022) s.lidar_lateral_shift
  pub attempts : s.lidar_max_bypass_attempts ≤ 4

-- Whatever the environment variables hold, the speeds, distances and attempts are within bounds.
pub settings_of-IsSafe :
    (env : Environ) (mock : Bool) (network : String) (describe : Trouble → String)
    → IsSafe (settings_of env mock network describe)
unfolding settings_of
settings_of-IsSafe env mock network describe = record {
  short_move = env_speed-IsBetween env _ _ _ _ (omega arith);
  long_move = env_speed-IsBetween env _ _ _ _ (omega arith);
  lidar_nav = env_speed-IsBetween env _ _ _ _ (omega arith);
  stop_distance = env_speed-IsBetween env _ _ _ _ (omega arith);
  side_clearance = env_speed-IsBetween env _ _ _ _ (omega arith);
  lateral_shift = env_speed-IsBetween env _ _ _ _ (omega arith);
  attempts = env_int-le env _ 2 0 4 (omega arith);
}

-- Both speeds of a linear motion are within the limits of a command.
pub speed_of-IsBetween :
    (settings : Settings) (distance : Float)
    → IsSafe settings
    → IsBetween
        (5404319552844595 * 2 ^ 1019)
        (7205759403792794 * 2 ^ 1021)
        (speed_of settings distance)
speed_of-IsBetween settings distance safe = elim (Bool-cases (ltb_float (of_ℕ 10) distance)) [
  | inl e ↦ rw e (widened _ (omega arith) (omega arith) safe.long_move)
  | inr e ↦ rw e (widened _ (omega arith) (omega arith) safe.short_move)
]
