-- ===== src/Py/Text.antt =====
-- `str.upper`, `str.lower`, and `str` of a value that is no text: the Unicode case tables and Python's number
-- and container formats are not code of the repository, so they are an instance argument.
use roc_robot_sdk.Base.{String, ◌≡◌, strip, is_empty}
use roc_robot_sdk.Py.Json.{Json, str}

pub record PyText : Type 0 where
  pub upper : String → String
  pub lower : String → String
  pub show : Json → String

-- What Python's documentation gives of `upper`: it is idempotent, it leaves no new white space at
-- the ends, and it empties no text.
pub record IsCaseMap (t : PyText) : Type 0 where
  pub upper_upper : (s : String) → t.upper (t.upper s) ≡ t.upper s
  pub strip_upper : (s : String) → strip (t.upper (strip s)) ≡ t.upper (strip s)
  pub is_empty_upper : (s : String) → is_empty (t.upper s) ≡ is_empty s

module _ ⦃t : PyText⦄ where
  abbrev pub upper : String → String
  upper s = t.upper s

  -- `str(v)`
  unfoldable pub to_text : Json → String
  to_text (str s) = s
  to_text v = t.show v

  -- `str(v).upper()`
  unfoldable pub upper_text : Json → String
  unfolding to_text
  upper_text v = t.upper (to_text v)
