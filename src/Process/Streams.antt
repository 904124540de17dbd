-- ===== src/Process/Streams.antt =====
-- The reading threads of `AdapterProcess` in roc_adapter_runtime.py.
use roc_robot_sdk.Base.{
  sym, ap, ◌∙◌, inl, inr, Bool-cases, length-append, length-drop, ℕ, zero, suc, ◌+◌, ◌-◌, ◌≤◌,
  String, ◌≡◌, refl, Option, none, some, List, [], ◌∷◌, ◌++◌, map, arith, ltb, if◌then◌else◌,
  length, drop, is_empty, rstrip, strip,
}
use roc_robot_sdk.Py.Json.{Json, null}
use native.Mathlib.Nat.{zero-add, suc-add}
use mathlib.Core.List.{append_assoc, append-nil}
use roc_robot_sdk.Process.{Item, value, invalid}

-- `lines[-n:]`
unfoldable pub last_lines : ℕ → List String → List String
last_lines n lines = drop (length lines - n) lines

-- One round of `_read_stderr`.
unfoldable push_stderr : List String → String → List String
unfolding last_lines
push_stderr lines line =
    let lines' = lines ++ line ∷ [] in
    if ltb 50 (length lines') then last_lines 50 lines' else lines'

-- `_read_stderr`, from the lines that are kept; `rstrip` is applied to each line.
unfoldable pub read_stderr : List String → List String → List String
unfolding push_stderr
read_stderr lines [] = lines
read_stderr lines (line ∷ rest) = read_stderr (push_stderr lines (rstrip line)) rest

module _ (parse : String → Option Json) where
  -- The item for one line that is not blank; `parse` is `json.loads`.
  abbrev item_of : String → Item
  item_of line = elim (parse line) [ none ↦ invalid line | some v ↦ value v ]

  -- `_read_stdout`: what is put into the queue for the lines of the output.
  unfoldable read_stdout : List String → List Item
  read_stdout [] = value null ∷ []
  read_stdout (line ∷ rest) =
      let s = strip line in if is_empty s then read_stdout rest else item_of s ∷ read_stdout rest

drop-append {ℓ} :
    {A : Type ℓ} (n : ℕ) (xs ys : List A) → n ≤ length xs → drop n (xs ++ ys) ≡ drop n xs ++ ys
drop-append zero xs ys h = refl
drop-append (suc n) [] ys h = absurd (omega arith)
drop-append (suc n) (x ∷ xs) ys h = drop-append n xs ys (omega arith)

module _ {ℓ} {A : Type ℓ} where
  drop-nil : (n : ℕ) → drop {A = A} n [] ≡ []
  drop-nil zero = refl
  drop-nil (suc n) = refl

  drop-drop : (m n : ℕ) (xs : List A) → drop m (drop n xs) ≡ drop (n + m) xs
  drop-drop m zero xs = rw zero-add
  drop-drop m (suc n) [] = rw (suc-add, drop-nil m)
  drop-drop m (suc n) (x ∷ xs) = rw suc-add (drop-drop m n xs)

-- One more line: the last 50 lines of the longer list.
push_stderr-last_lines :
    (xs : List String) (y : String)
    → push_stderr (last_lines 50 xs) y ≡ last_lines 50 (xs ++ y ∷ [])
unfolding push_stderr
push_stderr-last_lines xs y =
    let kept = drop (length xs - 50) xs ++ y ∷ [] in
    let same : kept ≡ drop (length xs - 50) (xs ++ y ∷ []) =
      sym (drop-append (length xs - 50) xs (y ∷ []) (omega arith)) in
    let size : length kept ≡ length xs - (length xs - 50) + 1 =
      omega (
        arith,
        length-append (drop (length xs - 50) xs) (y ∷ []),
        length-drop (length xs - 50) xs,
      ) in
    let size' = length-append xs (y ∷ []) in
    elim (Bool-cases (ltb 50 (length kept))) [
      | inl e ↦
          let one : length kept - 50 ≡ 1 = ground arith in
          let more : length xs - 50 + 1 ≡ length (xs ++ y ∷ []) - 50 = ground arith in
          rw (e, one, same)
            (drop-drop 1 (length xs - 50) (xs ++ y ∷ [])
              ∙ ap (λ (n : ℕ). drop n (xs ++ y ∷ [])) more)
      | inr e ↦
          let more : length xs - 50 ≡ length (xs ++ y ∷ []) - 50 = ground arith in
          rw e (same ∙ ap (λ (n : ℕ). drop n (xs ++ y ∷ [])) more)
    ]

read_stderr-last_lines :
    (done lines : List String)
    → read_stderr (last_lines 50 done) lines ≡ last_lines 50 (done ++ map rstrip lines)
unfolding read_stderr
read_stderr-last_lines done [] = rw append-nil
read_stderr-last_lines done (line ∷ lines) = rw (push_stderr-last_lines done (rstrip line)) (
    read_stderr-last_lines (done ++ rstrip line ∷ []) lines
    ∙ ap (last_lines 50) (append_assoc done (rstrip line ∷ []) (map rstrip lines)))

-- However much the adapter writes to its standard error, the last 50 lines of it are kept, and no
-- others.
pub read_stderr_lem :
    (lines : List String) → read_stderr [] lines ≡ last_lines 50 (map rstrip lines)
unfolding last_lines
read_stderr_lem lines = read_stderr-last_lines [] lines
