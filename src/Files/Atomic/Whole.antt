-- ===== src/Files/Atomic/Whole.antt =====
-- The writes of one path by `write_json_atomic` of roc_adapter_runtime.py, at every moment.
use Prim.Native.String.{◌++◌ as text_append}
use text.Mathlib.TextLemmas.{append_assoc, append-nil, nil-append}
use mathlib.Core.Path.{subst}
use mathlib.Core.List.{Mem, mem-cons_self, mem-cons_of_mem}
use roc_robot_sdk.Base.{
  ℕ, String, ◌≡◌, refl, sym, ap, ◌∙◌, ◌⊎◌, inl, inr, Bool-cases, false, Option, none, some, List,
  [], ◌∷◌, arith, eqb,
}
use roc_robot_sdk.Files.Atomic.{
  Directory, Effect, final, temporary, truncate, append, replace, filling, write_json_atomic,
  joined, effect, performed, Writes, with_pending, Step, call, go, stop, Reach, start, later,
}

-- How far the write of one process is, whose temporary file has a content.
data IsWriting (texts : List String) (pid : ℕ) : Option String → List Effect → Type 0 where
  idle : {content : Option String} → IsWriting texts pid content []
  opening :
      {content : Option String} (pieces : List String)
      → Mem (joined pieces) texts
      → IsWriting texts pid content (truncate pid ∷ filling pid pieces)
  appending :
      (text piece : String) (pieces : List String)
      → Mem (text_append text (text_append piece (joined pieces))) texts
      → IsWriting texts pid (some text) (append pid piece ∷ filling pid pieces)
  replacing : (text : String) → Mem text texts → IsWriting texts pid (some text) (replace pid ∷ [])

-- The file as it was, or one of the texts.
abbrev pub IsWhole : Directory → List String → Option String → Type 0
IsWhole before texts content =
    (content ≡ before final) ⊎ ((text : String) × Mem text texts × (content ≡ some text))

record Inv (before : Directory) (d : Writes) : Type 0 where
  whole : IsWhole before d.texts (d.files final)
  each : (pid : ℕ) → IsWriting d.texts pid (d.files (temporary pid)) (d.pending pid)

-- A further text that was to be written.
IsWriting-texts :
    {texts : List String} {pid : ℕ} {content : Option String} {es : List Effect} (text : String)
    → IsWriting texts pid content es
    → IsWriting (text ∷ texts) pid content es
IsWriting-texts text idle = idle
IsWriting-texts text (opening pieces m) = opening pieces (mem-cons_of_mem text m)
IsWriting-texts text (appending t piece pieces m) =
    appending t piece pieces (mem-cons_of_mem text m)
IsWriting-texts text (replacing t m) = replacing t (mem-cons_of_mem text m)

module _ (texts : List String) (pid : ℕ) where
  filling-IsWriting :
      (text : String) (pieces : List String)
      → Mem (text_append text (joined pieces)) texts
      → IsWriting texts pid (some text) (filling pid pieces)
  unfolding joined
  filling-IsWriting text [] m = replacing text (subst (λ t. Mem t texts) (append-nil text) m)
  filling-IsWriting text (piece ∷ pieces) m = appending text piece pieces m

  -- What the effect that is due makes of the process's own temporary file, of the others and of the
  -- target.
  record Due (e : Effect) (es : List Effect) (files : Directory) : Type 0 where
    content : Option String
    own : IsWriting texts pid content es
    own_content : effect e files (temporary pid) ≡ content
    others : (p : ℕ) → eqb p pid ≡ false → effect e files (temporary p) ≡ files (temporary p)
    whole :
        (effect e files final ≡ files final)
        ⊎ ((text : String) × Mem text texts × (effect e files final ≡ some text))

  IsWriting-Due :
      {content : Option String} {e : Effect} {es : List Effect} (files : Directory)
      → files (temporary pid) ≡ content
      → IsWriting texts pid content (e ∷ es)
      → Due e es files
  unfolding effect
  IsWriting-Due files q (opening pieces m) = record {
    content = some "";
    own =
        filling-IsWriting "" pieces (subst (λ t. Mem t texts) (sym (nil-append (joined pieces))) m);
    own_content = ground arith;
    others = λ p h. rw h refl;
    whole = inl refl;
  }
  IsWriting-Due files q (appending text piece pieces m) = record {
    content = some (text_append text piece);
    own =
        filling-IsWriting (text_append text piece) pieces
          (subst (λ t. Mem t texts) (sym (append_assoc text piece (joined pieces))) m);
    own_content = rw q (ground arith);
    others = λ p h. rw h refl;
    whole = inl refl;
  }
  IsWriting-Due files q (replacing text m) = record {
    content = none;
    own = idle;
    own_content = ground arith;
    others = λ p h. rw h refl;
    whole = inr (text, m, q);
  }

module _ (before : Directory) where
  IsWhole-kept :
      (texts : List String) (content content' : Option String)
      → (content' ≡ content) ⊎ ((text : String) × Mem text texts × (content' ≡ some text))
      → IsWhole before texts content
      → IsWhole before texts content'
  IsWhole-kept texts content content' (inl same) (inl old) = inl (same ∙ old)
  IsWhole-kept texts content content' (inl same) (inr (text, m, q)) = inr (text, m, same ∙ q)
  IsWhole-kept texts content content' (inr new) w = inr new

  IsWhole-texts :
      (texts : List String) (content : Option String) (text : String)
      → IsWhole before texts content
      → IsWhole before (text ∷ texts) content
  IsWhole-texts texts content text (inl old) = inl old
  IsWhole-texts texts content text (inr (t, m, q)) = inr (t, mem-cons_of_mem text m, q)

  -- The processes but one are where they were.
  each_after :
      (texts : List String) (files files' : Directory) (pending : ℕ → List Effect) (pid : ℕ)
      (es : List Effect)
      → ((p : ℕ) → eqb p pid ≡ false → files' (temporary p) ≡ files (temporary p))
      → ((p : ℕ) → IsWriting texts p (files (temporary p)) (pending p))
      → IsWriting texts pid (files' (temporary pid)) es
      → (p : ℕ) → IsWriting texts p (files' (temporary p)) (with_pending pid es pending p)
  each_after texts files files' pending pid es others each own p = elim (Bool-cases (eqb p pid)) [
    | inl same ↦
        rw same (
          subst (λ (n : ℕ). IsWriting texts n (files' (temporary n)) es) (ground (arith, same)) own)
    | inr other ↦
        rw other (subst (λ c. IsWriting texts p c (pending p)) (sym (others p other)) (each p))
  ]

  Step-Inv : {d e : Writes} → Step d e → Inv before d → Inv before e
  unfolding write_json_atomic
  Step-Inv (call {d} pid pieces free) inv = record {
    whole = IsWhole-texts d.texts (d.files final) (joined pieces) inv.whole;
    each =
        each_after (joined pieces ∷ d.texts) d.files d.files d.pending pid _ (λ p h. refl)
          (λ p. IsWriting-texts (joined pieces) (inv.each p)) (opening pieces mem-cons_self);
  }
  Step-Inv (go {d} pid e es h) inv =
      let due =
        IsWriting-Due d.texts pid d.files refl
          (subst (IsWriting d.texts pid (d.files (temporary pid))) h (inv.each pid)) in
      record {
        whole = IsWhole-kept d.texts (d.files final) _ due.whole inv.whole;
        each =
            each_after d.texts d.files (effect e d.files) d.pending pid es due.others inv.each
              (subst (λ c. IsWriting d.texts pid c es) (sym due.own_content) due.own);
      }
  Step-Inv (stop {d} pid) inv = record {
    whole = inv.whole;
    each = each_after d.texts d.files d.files d.pending pid [] (λ p h. refl) inv.each idle;
  }

  Reach-Inv : {d : Writes} → Reach before d → Inv before d
  Reach-Inv start = record { whole = inl refl; each = λ pid. idle }
  Reach-Inv (later r s) = Step-Inv s (Reach-Inv r)

performed-filling :
    (pid : ℕ) (text : String) (pieces : List String) (files : Directory)
    → files (temporary pid) ≡ some text
    → performed (filling pid pieces) files final ≡ some (text_append text (joined pieces))
unfolding performed effect joined
performed-filling pid text [] files q = rw (q, append-nil text) refl
performed-filling pid text (piece ∷ pieces) files q =
    performed-filling pid (text_append text piece) pieces (effect (append pid piece) files)
      (rw q (ground arith))
    ∙ ap some (append_assoc text piece (joined pieces))

-- At every moment, however the writes of several processes interleave and wherever any of them fails
-- or crashes, the file is as it was at first or is the whole text of one of the writes; and a write
-- that nothing interrupts from then on leaves its text there.
pub write_json_atomic-IsWhole :
    {before : Directory} {d : Writes}
    → Reach before d
    → (pid : ℕ) (pieces : List String)
    → IsWhole before d.texts (d.files final)
      × (performed (write_json_atomic pid pieces) d.files final ≡ some (joined pieces))
unfolding write_json_atomic performed effect
write_json_atomic-IsWhole {before} {d} r pid pieces = (
  (Reach-Inv before r).whole,
  performed-filling pid "" pieces (effect (truncate pid) d.files) (ground arith)
      ∙ ap some (nil-append (joined pieces)),
)
