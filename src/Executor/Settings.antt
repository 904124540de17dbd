-- ===== src/Executor/Settings.antt =====
-- The settings of adapters/go2/go2_bridge.py: `env_speed`, `env_int` and the constants that they give.
use roc_robot_sdk.Py.Float.{Float, min_float, max_float, units}
use roc_robot_sdk.Py.Arithmetic.{clamp_int}
use roc_robot_sdk.Executor.{Trouble}
use roc_robot_sdk.Base.{ℕ, String, Bool, Option, none, some}
use roc_robot_sdk.Base.Int.{ℤ, pos}

-- `max(minimum, min(value, maximum))`
unfoldable pub clamp_float : Float → Float → Float → Float
clamp_float minimum maximum value = max_float minimum (min_float value maximum)

-- `float` and `int` of a text, none where they raise, and `os.environ`.
pub record Environ : Type 0 where
  pub parse_float : String → Option Float
  pub parse_int : String → Option ℤ
  pub variable : String → Option String

-- The value of a variable, if it is there and a number.
abbrev pub parsed : {A : Type 0} → (String → Option A) → Option String → A → A
parsed parse none default = default
parsed parse (some text) default = elim (parse text) [ none ↦ default | some value ↦ value ]

module _ (env : Environ) where
  unfoldable pub env_speed : String → Float → Float → Float → Float
  unfolding clamp_float
  env_speed name default minimum maximum =
      clamp_float minimum maximum (parsed env.parse_float (env.variable name) default)

  unfoldable pub env_int : String → ℕ → ℕ → ℕ → ℕ
  unfolding clamp_int
  env_int name default minimum maximum =
      clamp_int minimum maximum (parsed env.parse_int (env.variable name) (pos default))

-- The constants of the file and the argument `--mock`. `describe` is `str` of an exception, `show` is
-- `str` of a JSON value.
pub record Settings : Type 0 where
  pub mock : Bool
  pub network_interface : String
  pub short_move_speed : Float
  pub long_move_speed : Float
  pub lidar_nav_speed : Float
  pub lidar_stop_distance : Float
  pub lidar_side_clearance : Float
  pub lidar_lateral_shift : Float
  pub lidar_max_bypass_attempts : ℕ
  pub parse_float : String → Option Float
  pub describe : Trouble → String

-- The doubles nearest to 0.1, 0.15, 0.22, 0.3, 0.35, 0.4, 0.6, 0.8, 1.2 and 1.5.
abbrev pub d_0_10 : Float
d_0_10 = units 7205759403792794 1018

abbrev d_0_15 : Float
d_0_15 = units 5404319552844595 1019

abbrev pub d_0_22 : Float
d_0_22 = units 7926335344172073 1019

abbrev d_0_30 : Float
d_0_30 = units 5404319552844595 1020

abbrev d_0_35 : Float
d_0_35 = units 6305039478318694 1020

abbrev d_0_40 : Float
d_0_40 = units 7205759403792794 1020

abbrev d_0_60 : Float
d_0_60 = units 5404319552844595 1021

abbrev pub d_0_80 : Float
d_0_80 = units 7205759403792794 1021

abbrev d_1_20 : Float
d_1_20 = units 5404319552844595 1022

abbrev d_1_50 : Float
d_1_50 = units 6755399441055744 1022

unfoldable pub settings_of : Environ → Bool → String → (Trouble → String) → Settings
unfolding env_speed env_int
settings_of env mock network describe = record {
  mock = mock;
  network_interface = network;
  short_move_speed = env_speed env "ROC_GO2_SHORT_MOVE_SPEED" d_0_22 d_0_15 d_0_40;
  long_move_speed = env_speed env "ROC_GO2_LONG_MOVE_SPEED" d_0_60 d_0_30 d_0_80;
  lidar_nav_speed = env_speed env "ROC_GO2_LIDAR_NAV_SPEED" d_0_22 d_0_10 d_0_35;
  lidar_stop_distance = env_speed env "ROC_GO2_LIDAR_STOP_DISTANCE" d_0_80 d_0_40 d_1_50;
  lidar_side_clearance = env_speed env "ROC_GO2_LIDAR_SIDE_CLEARANCE" d_1_20 d_0_40 d_1_50;
  lidar_lateral_shift = env_speed env "ROC_GO2_LIDAR_LATERAL_SHIFT" d_0_80 d_0_40 d_1_50;
  lidar_max_bypass_attempts = env_int env "ROC_GO2_LIDAR_MAX_BYPASS_ATTEMPTS" 2 0 4;
  parse_float = env.parse_float;
  describe = describe;
}
