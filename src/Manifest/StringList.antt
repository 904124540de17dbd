-- ===== src/Manifest/StringList.antt =====
-- `string_list` of roc_adapter_runtime.py and its description without a loop.
use roc_robot_sdk.Base.{
  dedup, ◌∙◌, arith, if◌then◌else◌, mem-append, String, ◌≡◌, refl, ap, inl, inr, ◌||◌, List, [],
  ◌∷◌, ◌++◌, map, Bool-cases, ◌==◌, strip, mem, dedup_from,
}
use roc_robot_sdk.Py.Json.{Json, arr, Items, nil, cons}
use roc_robot_sdk.Failure.{Result, err, bad_string_item, ok, ◌>>=◌, Result-cases}
use mathlib.Core.List.{append_assoc, append-nil}
use roc_robot_sdk.Fields.{text_field, text_items}
use roc_robot_sdk.Manifest.{string_items, string_list}

abbrev Same : List String → List String → Type 0
Same xs ys = (x : String) → mem x xs ≡ mem x ys

-- `dedup_from` asks of `seen` only what is a member of it.
dedup_from-Same : (xs ys ts : List String) → Same xs ys → dedup_from xs ts ≡ dedup_from ys ts
unfolding dedup_from mem
dedup_from-Same xs ys [] h = refl
dedup_from-Same xs ys (t ∷ ts) h = elim (Bool-cases (mem t xs)) [
  | inl e ↦ rw (← h t, e) (dedup_from-Same xs ys ts h)
  | inr e ↦
      rw (← h t, e)
        (ap (λ r. t ∷ r)
          (dedup_from-Same (t ∷ xs) (t ∷ ys) ts (λ x. ap (λ b. (x == t) || b) (h x))))
]

Same-snoc : (t : String) (xs : List String) → Same (xs ++ t ∷ []) (t ∷ xs)
unfolding mem
Same-snoc t xs x = ground (arith, mem-append x xs (t ∷ []))

-- A new item goes to the end.
pub snoc-dedup_from :
    (normalized : List String) (t : String) (ts : List String)
    → (normalized ++ t ∷ []) ++ dedup_from (normalized ++ t ∷ []) ts
      ≡ normalized ++ t ∷ dedup_from (t ∷ normalized) ts
snoc-dedup_from normalized t ts =
    append_assoc normalized (t ∷ []) _
    ∙ ap (λ r. normalized ++ t ∷ r) (dedup_from-Same _ _ ts (Same-snoc t normalized))

-- One round of the loop: an item that is there is passed over, another goes to the end.
snoc-dedup :
    (normalized : List String) (t : String) (ts : List String)
    → let normalized' = if mem t normalized then normalized else normalized ++ t ∷ [] in
      normalized' ++ dedup_from normalized' ts ≡ normalized ++ dedup_from normalized (t ∷ ts)
unfolding dedup_from
snoc-dedup normalized t ts = elim (Bool-cases (mem t normalized)) [
  | inl e ↦ rw e
  | inr e ↦ rw e (snoc-dedup_from normalized t ts)
]

-- What the loop adds to what it has.
abbrev with_items : List String → List String → Result (List String)
with_items normalized ts = ok (normalized ++ dedup_from normalized (map strip ts))

with_items-cons :
    (normalized : List String) (s : String) (r : Result (List String))
    → (r
        >>= with_items
            (if mem (strip s) normalized then normalized else normalized ++ strip s ∷ []))
      ≡ ((r >>= λ rest. ok (s ∷ rest)) >>= with_items normalized)
unfolding ◌>>=◌
with_items-cons normalized s (ok ts) = ap ok (snoc-dedup normalized (strip s) (map strip ts))
with_items-cons normalized s (err e) = refl

string_items_lem :
    (what : String) (normalized : List String) (xs : Items)
    → string_items what normalized xs
      ≡ (text_items xs (bad_string_item what) >>= with_items normalized)
unfolding string_items text_items ◌>>=◌
string_items_lem what normalized nil = unfold dedup_from in simp append-nil
string_items_lem what normalized (cons v xs) =
    elim (Result-cases (text_field v (bad_string_item what))) [
      | inl (s, p) ↦ rw p (
          string_items_lem what
            (if mem (strip s) normalized then normalized else normalized ++ strip s ∷ []) xs
          ∙ with_items-cons normalized s (text_items xs (bad_string_item what)))
      | inr (e, p) ↦ rw p
    ]

-- `string_list` of a list that is not empty is the list of its stripped items, each once, in the
-- order of their first occurrence; it raises if an item is no text or is blank.
pub string_list_lem :
    (what : String) (v : Json) (xs : Items)
    → string_list what (arr (cons v xs))
      ≡ (text_items (cons v xs) (bad_string_item what) >>= λ ts. ok (dedup (map strip ts)))
unfolding string_list dedup
string_list_lem what v xs = string_items_lem what [] (cons v xs)
