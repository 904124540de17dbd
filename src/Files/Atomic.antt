-- ===== src/Files/Atomic.antt =====
-- `write_json_atomic` of roc_adapter_runtime.py, as the effects on one directory that it takes one after
-- the other, while other processes write the same file and any of them fails or crashes.
pub mod Whole
use Prim.Native.String.{◌++◌ as text_append}
use text.Mathlib.TextLemmas.{append_assoc, append-nil, nil-append}
use mathlib.Core.Path.{subst}
use mathlib.Core.List.{Mem, mem-cons_self, mem-cons_of_mem}
use roc_robot_sdk.Base.{
  ℕ, String, ◌≡◌, refl, sym, ap, ◌∙◌, ◌⊎◌, inl, inr, Bool-cases, false, Option, none, some, List,
  [], ◌∷◌, arith, eqb, if◌then◌else◌,
}

-- The files of the directory that the writes of one path touch: the path itself, and the file
-- `.{name}.{pid}.tmp` of each process.
pub data Entry : Type 0 where
  final : Entry
  temporary : ℕ → Entry

abbrev pub Directory : Type 0
Directory = Entry → Option String

pub data Effect : Type 0 where
  -- The file is opened for writing, which empties it.
  truncate : ℕ → Effect
  -- One more piece of the text has reached the file.
  append : ℕ → String → Effect
  -- `os.replace`
  replace : ℕ → Effect

-- The text, from the pieces in which the operating system takes it.
unfoldable pub joined : List String → String
joined [] = ""
joined (piece ∷ pieces) = text_append piece (joined pieces)

-- What is left to do once the temporary file is open.
abbrev pub filling : ℕ → List String → List Effect
filling pid [] = replace pid ∷ []
filling pid (piece ∷ pieces) = append pid piece ∷ filling pid pieces

-- The directory is there.
unfoldable pub write_json_atomic : ℕ → List String → List Effect
write_json_atomic pid pieces = truncate pid ∷ filling pid pieces

abbrev with_temporary : ℕ → Option String → Directory → Directory
with_temporary pid content files final = files final
with_temporary pid content files (temporary p) = if eqb p pid then content else files (temporary p)

abbrev with_final : Option String → Directory → Directory
with_final content files final = content
with_final content files (temporary p) = files (temporary p)

abbrev extended : Option String → String → Option String
extended none piece = none
extended (some text) piece = some (text_append text piece)

unfoldable pub effect : Effect → Directory → Directory
effect (truncate pid) files = with_temporary pid (some "") files
effect (append pid piece) files = with_temporary pid (extended (files (temporary pid)) piece) files
effect (replace pid) files = with_temporary pid none (with_final (files (temporary pid)) files)

-- The write of a process that nothing interrupts.
unfoldable pub performed : List Effect → Directory → Directory
performed [] files = files
performed (e ∷ es) files = performed es (effect e files)

-- What each process has left to do, and the texts that were to be written.
pub record Writes : Type 0 where
  pub files : Directory
  pub pending : ℕ → List Effect
  pub texts : List String

abbrev pub with_pending : ℕ → List Effect → (ℕ → List Effect) → ℕ → List Effect
with_pending pid es pending p = if eqb p pid then es else pending p

pub data Step : Writes → Writes → Type 0 where
  call :
      {d : Writes} (pid : ℕ) (pieces : List String)
      → d.pending pid ≡ []
      → Step d (record d {
        pending = with_pending pid (write_json_atomic pid pieces) d.pending;
        texts = joined pieces ∷ d.texts;
      })
  go :
      {d : Writes} (pid : ℕ) (e : Effect) (es : List Effect)
      → d.pending pid ≡ e ∷ es
      → Step d (record d { files = effect e d.files; pending = with_pending pid es d.pending })
  -- An exception is raised, or the process crashes.
  stop : {d : Writes} (pid : ℕ) → Step d (record d { pending = with_pending pid [] d.pending })

-- Any files may be there at the beginning, also temporary ones of processes that have crashed.
pub data Reach (before : Directory) : Writes → Type 0 where
  start : Reach before (record { files = before; pending = λ pid. []; texts = [] })
  later : {d e : Writes} → Reach before d → Step d e → Reach before e
