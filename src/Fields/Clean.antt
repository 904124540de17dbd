-- ===== src/Fields/Clean.antt =====
-- The values that the checks of Fields.antt, which are those of roc_adapter_runtime.py, let through.
use roc_robot_sdk.Base.{
  String, List, is_empty, strip, ◌≡◌, false, [], ◌∷◌, map, arith, All, strip-strip,
}
use roc_robot_sdk.Py.Json.{Json, Items, str, arr, nil, cons}
use roc_robot_sdk.Failure.{Failure, ok, Ensures, Ensures-bind, Ensures-ok}
use roc_robot_sdk.Fields.{text_field, text_items, text_array}

-- A text that is stripped and not empty.
pub record IsClean (s : String) : Type 0 where
  pub stripped : strip s ≡ s
  pub filled : is_empty s ≡ false

pub IsClean-strip : (s : String) → is_empty (strip s) ≡ false → IsClean (strip s)
IsClean-strip s h = record { stripped = strip-strip s; filled = h }

abbrev Filled : String → Type 0
Filled s = is_empty (strip s) ≡ false

pub text_field-Filled : (v : Json) (e : Failure) (s : String) → text_field v e ≡ ok s → Filled s
unfolding text_field
text_field-Filled (str s) e r h = ground (arith)
text_field-Filled Json.null e r h = cc
text_field-Filled _ e r h = cc

text_items-Filled : (xs : Items) (e : Failure) → Ensures (All Filled) (text_items xs e)
unfolding text_items
text_items-Filled nil e = Ensures-ok [] tt
text_items-Filled (cons v xs) e = Ensures-bind _ _ λ s p. Ensures-bind _ _ λ rest q.
    Ensures-ok (s ∷ rest) (text_field-Filled v e s p, (text_items-Filled xs e).of_ok rest q)

pub text_array-Filled :
    (v : Json) (e : Failure) (ts : List String) → text_array v e ≡ ok ts → All Filled ts
unfolding text_array
text_array-Filled (arr xs) e ts h = (text_items-Filled xs e).of_ok ts h
text_array-Filled Json.null e ts h = cc
text_array-Filled _ e ts h = cc

pub All-IsClean : (ts : List String) → All Filled ts → All IsClean (map strip ts)
All-IsClean [] h = tt
All-IsClean (t ∷ ts) h = (IsClean-strip t h.0, All-IsClean ts h.1)
