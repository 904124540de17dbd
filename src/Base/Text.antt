-- ===== src/Base/Text.antt =====
-- Python's operations on text: `strip`, `==`, membership, and the order that `sorted` uses.
use Prim.Native.Nat.{ℕ, suc}
use Prim.Native.Char.{Char, code}
use Prim.Native.String.{String}
use mathlib.Core.Path.{◌≡◌, refl}
use mathlib.Core.Bool.{Bool, true, false, ◌&&◌, ◌||◌}
use mathlib.Core.List.{List, [], ◌∷◌}
use text.Mathlib.Text.{◌==◌ as str_eq}
use roc_robot_sdk.Base.Tests.{ltb, leb, eqb, if◌then◌else◌}

infix 50 ◌==◌
abbrev pub ◌==◌ : String → String → Bool
s == t = str_eq s t

-- `str.isspace` of one character, as `str.strip` uses it.
unfoldable pub is_space : Char → Bool
is_space c =
    let n = code c in
    (leb 9 n && leb n 13)
    || (leb 28 n && leb n 32)
    || eqb n 0x85
    || eqb n 0xa0
    || eqb n 0x1680
    || (leb 0x2000 n && leb n 0x200a)
    || eqb n 0x2028
    || eqb n 0x2029
    || eqb n 0x202f
    || eqb n 0x205f
    || eqb n 0x3000

-- `len` of a text, in characters.
abbrev pub text_length : String → ℕ
text_length String.[] = 0
text_length (String.◌∷◌ c s) = suc (text_length s)

-- `not s`
abbrev pub is_empty : String → Bool
is_empty String.[] = true
is_empty (String.◌∷◌ _ _) = false

unfoldable pub lstrip : String → String
lstrip String.[] = String.[]
lstrip (String.◌∷◌ c s) = let rest = lstrip s in if is_space c then rest else String.◌∷◌ c s

-- `c` in front of a text whose end is stripped.
unfoldable pub rcons : Char → String → String
rcons c s = if is_space c && is_empty s then String.[] else String.◌∷◌ c s

unfoldable pub rstrip : String → String
unfolding rcons
rstrip String.[] = String.[]
rstrip (String.◌∷◌ c s) = rcons c (rstrip s)

unfoldable pub strip : String → String
unfolding lstrip rstrip is_space
strip s = lstrip (rstrip s)

-- `s in texts`
unfoldable pub mem : String → List String → Bool
mem s [] = false
mem s (t ∷ ts) = (s == t) || mem s ts

-- `list(dict.fromkeys(texts))`: the first occurrence of each text, in order. `seen` holds the keys
-- that the dictionary has.
unfoldable pub dedup_from : List String → List String → List String
unfolding mem
dedup_from seen [] = []
dedup_from seen (t ∷ ts) =
    let fresh = dedup_from (t ∷ seen) ts in
    let rest = dedup_from seen ts in if mem t seen then rest else t ∷ fresh

unfoldable pub dedup : List String → List String
unfolding dedup_from
dedup texts = dedup_from [] texts

-- `required.issubset(have)`
unfoldable pub subset : List String → List String → Bool
unfolding mem
subset [] have = true
subset (t ∷ ts) have = mem t have && subset ts have

-- `set(texts) - set(others)`
unfoldable pub difference : List String → List String → List String
unfolding mem
difference [] others = []
difference (t ∷ ts) others =
    let rest = difference ts others in if mem t others then rest else t ∷ rest

-- Texts are ordered by their code points, the shorter first.
unfoldable pub text_leb : String → String → Bool
text_leb String.[] t = true
text_leb (String.◌∷◌ c s) String.[] = false
text_leb (String.◌∷◌ c s) (String.◌∷◌ d t) =
    ltb (code c) (code d) || (eqb (code c) (code d) && text_leb s t)

unfoldable pub insert_sorted : String → List String → List String
unfolding text_leb
insert_sorted s [] = s ∷ []
insert_sorted s (t ∷ ts) = if text_leb s t then s ∷ t ∷ ts else t ∷ insert_sorted s ts

-- `sorted(texts)`
unfoldable pub sorted : List String → List String
unfolding insert_sorted
sorted [] = []
sorted (t ∷ ts) = insert_sorted t (sorted ts)

strip_test : strip "  a b " ≡ "a b"
unfolding strip
strip_test = refl
