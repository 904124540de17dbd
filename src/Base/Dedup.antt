-- ===== src/Base/Dedup.antt =====
-- Laws of the membership test and of `dedup`, which is `list(dict.fromkeys(texts))`.
use Prim.Native.String.{String}
use mathlib.Core.Path.{◌≡◌, refl, ap, sym, subst}
use mathlib.Core.Logic.{inl, inr}
use mathlib.Core.Bool.{false≢true, true, false, not, ◌&&◌, ◌||◌}
use mathlib.Core.List.{List, [], ◌∷◌, ◌++◌}
use native.Mathlib.Omega.{arith}
use text.Mathlib.TextEquality.{eq_iff}
use text.Mathlib.TextPositions.{eq_refl}
use roc_robot_sdk.Base.Tests.{Bool-cases}
use roc_robot_sdk.Base.Lists.{All}
use roc_robot_sdk.Base.Text.{◌==◌, mem, dedup_from, dedup, subset, difference}

-- No text twice.
abbrev pub Distinct : List String → Type 0
Distinct [] = Unit
Distinct (t ∷ ts) = (mem t ts ≡ false) × Distinct ts

mem-dedup_from :
    (x : String) (seen ts : List String)
    → mem x (dedup_from seen ts) ≡ (not (mem x seen) && mem x ts)
unfolding mem dedup_from
mem-dedup_from x seen [] = ground arith
mem-dedup_from x seen (t ∷ ts) = elim (Bool-cases (mem t seen)) [
  | inl e ↦ rw e (ground (arith, mem-dedup_from x seen ts, eq_iff x t))
  | inr e ↦ rw e (ground (arith, mem-dedup_from x (t ∷ seen) ts, eq_iff x t))
]

Distinct-dedup_from : (seen ts : List String) → Distinct (dedup_from seen ts)
unfolding dedup_from
Distinct-dedup_from seen [] = tt
Distinct-dedup_from seen (t ∷ ts) = elim (Bool-cases (mem t seen)) [
  | inl e ↦ rw e (Distinct-dedup_from seen ts)
  | inr e ↦ rw e (
    rw (mem-dedup_from t (t ∷ seen) ts) (unfold mem in rw eq_refl refl),
    Distinct-dedup_from (t ∷ seen) ts,
  )
]

pub All-dedup_from {κ} :
    (P : String → Type κ) (seen ts : List String) → All P ts → All P (dedup_from seen ts)
unfolding dedup_from
All-dedup_from P seen [] h = tt
All-dedup_from P seen (t ∷ ts) h = elim (Bool-cases (mem t seen)) [
  | inl e ↦ rw e (All-dedup_from P seen ts h.1)
  | inr e ↦ rw e (h.0, All-dedup_from P (t ∷ seen) ts h.1)
]

abbrev Fresh : List String → List String → Type 0
Fresh seen ts = All (λ t. mem t seen ≡ false) ts

Fresh-cons :
    (t : String) (seen ts : List String) → mem t ts ≡ false → Fresh seen ts → Fresh (t ∷ seen) ts
unfolding mem
Fresh-cons t seen [] h f = tt
Fresh-cons t seen (u ∷ ts) h f = elim (Bool-cases (t == u)) [
  | inl e ↦ absurd (cc (e, h))
  | inr e ↦ (ground (arith, eq_iff t u, eq_iff u t), Fresh-cons t seen ts (rw e at h) f.1)
]

dedup_from-Distinct :
    (seen ts : List String) → Distinct ts → Fresh seen ts → dedup_from seen ts ≡ ts
unfolding dedup_from
dedup_from-Distinct seen [] d f = refl
dedup_from-Distinct seen (t ∷ ts) d f =
    rw f.0 (ap (λ r. t ∷ r) (dedup_from-Distinct (t ∷ seen) ts d.1 (Fresh-cons t seen ts d.0 f.1)))

Fresh-nil : (ts : List String) → Fresh [] ts
unfolding mem
Fresh-nil [] = tt
Fresh-nil (t ∷ ts) = (refl, Fresh-nil ts)

-- A list that names nothing twice is left as it is.
pub dedup-Distinct : (ts : List String) → Distinct ts → dedup ts ≡ ts
unfolding dedup
dedup-Distinct ts d = dedup_from-Distinct [] ts d (Fresh-nil ts)

mem-dedup : (x : String) (ts : List String) → mem x (dedup ts) ≡ mem x ts
unfolding dedup mem
mem-dedup x ts = rw (mem-dedup_from x [] ts)

pub Distinct-dedup : (ts : List String) → Distinct (dedup ts)
unfolding dedup
Distinct-dedup ts = Distinct-dedup_from [] ts

-- `required.issubset(have)` is membership of each text.
subset-mem :
    (x : String) (ts have : List String)
    → subset ts have ≡ true
    → mem x ts ≡ true
    → mem x have ≡ true
unfolding subset mem
subset-mem x [] have h m = cc
subset-mem x (t ∷ ts) have h m = elim (Bool-cases (x == t)) [
  | inl e ↦ ground (arith, eq_iff x t)
  | inr e ↦ ground (arith, subset-mem x ts have)
]

-- `set(ts) - set(others)` is empty exactly when `ts` is a subset.
difference-nil : (ts others : List String) → difference ts others ≡ [] → subset ts others ≡ true
unfolding difference subset
difference-nil [] others h = refl
difference-nil (t ∷ ts) others h = ground (arith, difference-nil ts others)

pub mem-append : (x : String) (xs ys : List String) → mem x (xs ++ ys) ≡ (mem x xs || mem x ys)
unfolding mem
mem-append x [] ys = refl
mem-append x (y ∷ xs) ys = ground (arith, mem-append x xs ys)

pub Distinct-append_one :
    (xs : List String) (y : String) → Distinct xs → mem y xs ≡ false → Distinct (xs ++ y ∷ [])
unfolding mem
Distinct-append_one [] y d h = (refl, tt)
Distinct-append_one (x ∷ xs) y d h = (
  rw (mem-append x xs (y ∷ [])) (ground (arith, eq_iff x y, eq_iff y x)),
  Distinct-append_one xs y d.1 (ground arith),
)

pub All-mem {κ} :
    (P : String → Type κ) (x : String) (ts : List String) → All P ts → mem x ts ≡ true → P x
unfolding mem
All-mem P x [] h m = absurd (false≢true m)
All-mem P x (t ∷ ts) h m = elim (Bool-cases (x == t)) [
  | inl e ↦ subst P (sym ((eq_iff x t).0 e)) h.0
  | inr e ↦ All-mem P x ts h.1 (rw e at m)
]
