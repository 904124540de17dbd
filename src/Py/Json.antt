-- ===== src/Py/Json.antt =====
-- JSON values as `json.loads` builds them, and what the programs do with them.
use roc_robot_sdk.Base.{
  ℕ, suc, String, Bool, true, false, not, ◌&&◌, Option, none, some, List, [], ◌∷◌, ◌==◌, eqb,
  if◌then◌else◌, is_empty,
}
use roc_robot_sdk.Base.Int.{ℤ}
use roc_robot_sdk.Py.Float.{Float, fin, of_ℕ, of_ℤ, eqb_float}

mutual
  pub data Json : Type 0 where
    null : Json
    bool : Bool → Json
    int : ℤ → Json
    float : Float → Json
    str : String → Json
    arr : Items → Json
    obj : Dict → Json

  pub data Items : Type 0 where
    nil : Items
    cons : Json → Items → Items

  -- A `dict` with text keys, each at most once, in insertion order.
  pub data Dict : Type 0 where
    end : Dict
    field : String → Json → Dict → Dict

unfoldable pub lookup : String → Dict → Option Json
lookup k end = none
lookup k (field j v d) = if j == k then some v else lookup k d

-- `d.get(k, default)`
unfoldable pub get_or : String → Json → Dict → Json
unfolding lookup
get_or k default d = elim (lookup k d) [ none ↦ default | some v ↦ v ]

-- `d.get(k)`
unfoldable pub get : String → Dict → Json
unfolding get_or
get k d = get_or k null d

-- `d[k] = v`
unfoldable pub put : String → Json → Dict → Dict
put k v end = field k v end
put k v (field j w d) = if j == k then field j v d else field j w (put k v d)

unfoldable pub keys : Dict → List String
keys end = []
keys (field k _ d) = k ∷ keys d

-- `bool(v)`
unfoldable pub truthy : Json → Bool
truthy null = false
truthy (bool b) = b
truthy (int (ℤ.pos n)) = not (eqb n 0)
truthy (int (ℤ.negsuc n)) = true
truthy (float (fin (ℤ.pos n))) = not (eqb n 0)
truthy (float _) = true
truthy (str s) = not (is_empty s)
truthy (arr nil) = false
truthy (arr (cons _ _)) = true
truthy (obj end) = false
truthy (obj (field _ _ _)) = true

-- `v or default`
unfoldable pub or_else : Json → Json → Json
unfolding truthy
or_else v default = if truthy v then v else default

-- `v == s` for a text `s`
unfoldable pub is_text : String → Json → Bool
is_text s (str t) = t == s
is_text s _ = false

-- `v is True`
unfoldable pub is_true : Json → Bool
is_true (bool b) = b
is_true _ = false

-- `isinstance(v, str)`
abbrev as_str : Json → Option String
as_str (str s) = some s
as_str _ = none

-- `isinstance(v, list)`
abbrev as_list : Json → Option Items
as_list (arr xs) = some xs
as_list _ = none

-- `isinstance(v, dict)`
abbrev pub as_dict : Json → Option Dict
as_dict (obj d) = some d
as_dict _ = none

-- The value of a number; a Boolean is one.
unfoldable pub number_of : Json → Option Float
unfolding of_ℤ
number_of (bool true) = some (of_ℕ 1)
number_of (bool false) = some (of_ℕ 0)
number_of (int k) = some (of_ℤ k)
number_of (float f) = some f
number_of _ = none

unfoldable pub same_number : Float → Option Float → Bool
same_number f none = false
same_number f (some g) = eqb_float f g

-- `v == n`: `True` equals 1, and a float may equal it too.
unfoldable pub is_number : ℕ → Json → Bool
unfolding number_of same_number
is_number n v = same_number (of_ℕ n) (number_of v)

-- The texts of a list of texts; none if an item is no text.
unfoldable pub texts_of : Items → Option (List String)
texts_of nil = some []
texts_of (cons (str s) xs) = elim (texts_of xs) [ none ↦ none | some ts ↦ some (s ∷ ts) ]
texts_of (cons _ xs) = none

unfoldable pub of_texts : List String → Items
of_texts [] = nil
of_texts (t ∷ ts) = cons (str t) (of_texts ts)

unfoldable pub size : Dict → ℕ
size end = 0
size (field _ _ d) = suc (size d)

unfoldable mutual
  unfolding is_text lookup same_number number_of size

  -- `a == b`, which compares numbers and Booleans by value, and dictionaries without their order.
  pub py_eq : Json → Json → Bool
  py_eq null b = elim b [ null ↦ true | _ ↦ false ]
  py_eq (bool true) b = same_number (of_ℕ 1) (number_of b)
  py_eq (bool false) b = same_number (of_ℕ 0) (number_of b)
  py_eq (int k) b = same_number (of_ℤ k) (number_of b)
  py_eq (float f) b = same_number f (number_of b)
  py_eq (str s) b = is_text s b
  py_eq (arr xs) b = elim b [ arr ys ↦ items_eq xs ys | _ ↦ false ]
  py_eq (obj d) b = elim b [ obj e ↦ eqb (size d) (size e) && fields_eq d e | _ ↦ false ]

  pub items_eq : Items → Items → Bool
  items_eq nil ys = elim ys [ nil ↦ true | cons _ _ ↦ false ]
  items_eq (cons x xs) ys = elim ys [ nil ↦ false | cons y ys' ↦ py_eq x y && items_eq xs ys' ]

  pub fields_eq : Dict → Dict → Bool
  fields_eq end e = true
  fields_eq (field k v d) e =
      elim (lookup k e) [ none ↦ false | some w ↦ py_eq v w ] && fields_eq d e
