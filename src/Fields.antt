-- ===== src/Fields.antt =====
-- The checks of JSON fields that `validate_manifest` and `validate_job` of roc_adapter_runtime.py
-- share.
pub mod Clean
use roc_robot_sdk.Base.{String, List, [], ◌∷◌, strip, is_empty, if◌then◌else◌}
use roc_robot_sdk.Py.Json.{Json, Items, Dict, str, arr, obj, nil, cons}
use roc_robot_sdk.Failure.{Failure, Result, ok, err, ◌>>=◌}

-- `not isinstance(v, str) or not v.strip()` raises.
unfoldable pub text_field : Json → Failure → Result String
text_field (str s) e = if is_empty (strip s) then err e else ok s
text_field _ e = err e

-- The items of a list, each a text that is not blank.
unfoldable pub text_items : Items → Failure → Result (List String)
unfolding text_field
text_items nil e = ok []
text_items (cons v xs) e = do s ← text_field v e; rest ← text_items xs e; ok (s ∷ rest)

unfoldable pub text_array : Json → Failure → Result (List String)
unfolding text_items
text_array (arr xs) e = text_items xs e
text_array _ e = err e

unfoldable pub dict_field : Json → Failure → Result Dict
dict_field (obj d) e = ok d
dict_field _ e = err e
