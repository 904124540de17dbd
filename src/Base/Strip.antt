-- ===== src/Base/Strip.antt =====
-- Laws of `strip` and of the membership tests of Base/Text.antt.
use Prim.Native.Char.{Char}
use roc_robot_sdk.Base.Tests.{Bool-cases}
use Prim.Native.Nat.{◌≤◌}
use Prim.Native.String.{String}
use mathlib.Core.Path.{◌≡◌, refl}
use mathlib.Core.Logic.{inl, inr}
use mathlib.Core.Bool.{◌&&◌}
use text.Mathlib.TextLemmas.{nil≢cons, tail-eq_of_cons-eq}
use native.Mathlib.Omega.{arith}
use roc_robot_sdk.Base.Text.{is_space, text_length, is_empty, lstrip, rcons, rstrip, strip}

lstrip-lstrip : (s : String) → lstrip (lstrip s) ≡ lstrip s
unfolding lstrip
lstrip-lstrip String.[] = refl
lstrip-lstrip (String.◌∷◌ c s) = elim (Bool-cases (is_space c)) [
  | inl e ↦ rw e (lstrip-lstrip s)
  | inr e ↦ rw (e, lstrip) (rw e)
]

rstrip-rcons : (c : Char) (s : String) → rstrip s ≡ s → rstrip (rcons c s) ≡ rcons c s
unfolding rstrip
rstrip-rcons c s h = ground (arith, h)

rstrip-rstrip : (s : String) → rstrip (rstrip s) ≡ rstrip s
unfolding rstrip
rstrip-rstrip String.[] = refl
rstrip-rstrip (String.◌∷◌ c s) = rstrip-rcons c (rstrip s) (rstrip-rstrip s)

rcons-tail : (c : Char) (s t : String) → rcons c t ≡ String.◌∷◌ c s → t ≡ s
unfolding rcons
rcons-tail c s t h = elim (Bool-cases (is_space c && is_empty t)) [
  | inl e ↦ absurd (nil≢cons (rw e at h))
  | inr e ↦ tail-eq_of_cons-eq (rw e at h)
]

rstrip-lstrip : (s : String) → rstrip s ≡ s → rstrip (lstrip s) ≡ lstrip s
unfolding rstrip lstrip
rstrip-lstrip String.[] h = refl
rstrip-lstrip (String.◌∷◌ c s) h = elim (Bool-cases (is_space c)) [
  | inl e ↦ rw (e, lstrip) (rstrip-lstrip s (rcons-tail c s (rstrip s) h))
  | inr e ↦ rw (e, lstrip) h
]

pub strip-strip : (s : String) → strip (strip s) ≡ strip s
unfolding strip
strip-strip s = rw (rstrip-lstrip (rstrip s) (rstrip-rstrip s)) (lstrip-lstrip (rstrip s))

text_length-lstrip : (s : String) → text_length (lstrip s) ≤ text_length s
unfolding lstrip
text_length-lstrip String.[] = omega arith
text_length-lstrip (String.◌∷◌ c s) = ground (arith, text_length-lstrip s)

text_length-rstrip : (s : String) → text_length (rstrip s) ≤ text_length s
unfolding rstrip
text_length-rstrip String.[] = omega arith
text_length-rstrip (String.◌∷◌ c s) = ground (arith, text_length-rstrip s)

-- Stripping makes no text longer.
pub text_length-strip : (s : String) → text_length (strip s) ≤ text_length s
unfolding strip
text_length-strip s = omega (arith, text_length-lstrip (rstrip s), text_length-rstrip s)
