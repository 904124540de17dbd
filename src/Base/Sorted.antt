-- ===== src/Base/Sorted.antt =====
-- Laws of `sorted`: the texts come in order, and each is there that was there.
use Prim.Native.String.{String}
use mathlib.Core.Path.{◌≡◌, refl}
use mathlib.Core.Logic.{inl, inr}
use mathlib.Core.Bool.{true, false, ◌||◌}
use mathlib.Core.List.{List, [], ◌∷◌}
use native.Mathlib.Omega.{arith}
use roc_robot_sdk.Base.Tests.{Bool-cases}
use roc_robot_sdk.Base.Lists.{All}
use roc_robot_sdk.Base.Text.{◌==◌, mem, text_leb, insert_sorted, sorted}

text_leb_total : (s t : String) → text_leb s t ≡ false → text_leb t s ≡ true
unfolding text_leb
text_leb_total String.[] t h = cc
text_leb_total (String.◌∷◌ c s) String.[] h = refl
text_leb_total (String.◌∷◌ c s) (String.◌∷◌ d t) h = ground (arith, text_leb_total s t)

text_leb_trans : (s t u : String) → text_leb s t ≡ true → text_leb t u ≡ true → text_leb s u ≡ true
unfolding text_leb
text_leb_trans String.[] t u h k = refl
text_leb_trans (String.◌∷◌ c s) String.[] u h k = cc
text_leb_trans (String.◌∷◌ c s) (String.◌∷◌ d t) String.[] h k = cc
text_leb_trans (String.◌∷◌ c s) (String.◌∷◌ d t) (String.◌∷◌ e u) h k =
    ground (arith, text_leb_trans s t u)

-- Every text is followed by later ones only.
abbrev pub IsSorted : List String → Type 0
IsSorted [] = Unit
IsSorted (t ∷ ts) = All (λ u. text_leb t u ≡ true) ts × IsSorted ts

All-insert_sorted {κ} :
    (P : String → Type κ) (s : String) (ts : List String)
    → P s
    → All P ts
    → All P (insert_sorted s ts)
unfolding insert_sorted
All-insert_sorted P s [] p h = (p, tt)
All-insert_sorted P s (t ∷ ts) p h = elim (Bool-cases (text_leb s t)) [
  | inl e ↦ rw e (p, h)
  | inr e ↦ rw e (h.0, All-insert_sorted P s ts p h.1)
]

All-leb :
    (s t : String) (ts : List String)
    → text_leb s t ≡ true
    → All (λ u. text_leb t u ≡ true) ts
    → All (λ u. text_leb s u ≡ true) ts
All-leb s t [] h a = tt
All-leb s t (u ∷ ts) h a = (text_leb_trans s t u h a.0, All-leb s t ts h a.1)

insert_sorted-IsSorted :
    (s : String) (ts : List String) → IsSorted ts → IsSorted (insert_sorted s ts)
unfolding insert_sorted
insert_sorted-IsSorted s [] h = (tt, tt)
insert_sorted-IsSorted s (t ∷ ts) h = elim (Bool-cases (text_leb s t)) [
  | inl e ↦ rw e ((e, All-leb s t ts e h.0), h)
  | inr e ↦ rw e (
    All-insert_sorted (λ u. text_leb t u ≡ true) s ts (text_leb_total s t e) h.0,
    insert_sorted-IsSorted s ts h.1,
  )
]

pub sorted-IsSorted : (ts : List String) → IsSorted (sorted ts)
unfolding sorted
sorted-IsSorted [] = tt
sorted-IsSorted (t ∷ ts) = insert_sorted-IsSorted t (sorted ts) (sorted-IsSorted ts)

mem-insert_sorted :
    (x s : String) (ts : List String) → mem x (insert_sorted s ts) ≡ ((x == s) || mem x ts)
unfolding mem insert_sorted
mem-insert_sorted x s [] = refl
mem-insert_sorted x s (t ∷ ts) = elim (Bool-cases (text_leb s t)) [
  | inl e ↦ rw e
  | inr e ↦ rw e (ground (arith, mem-insert_sorted x s ts))
]

pub mem-sorted : (x : String) (ts : List String) → mem x (sorted ts) ≡ mem x ts
unfolding mem sorted
mem-sorted x [] = refl
mem-sorted x (t ∷ ts) = rw (mem-insert_sorted x t (sorted ts)) (rw (mem-sorted x ts))

pub text_leb_refl : (s : String) → text_leb s s ≡ true
unfolding text_leb
text_leb_refl String.[] = refl
text_leb_refl (String.◌∷◌ c s) = ground (arith, text_leb_refl s)
