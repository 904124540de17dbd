-- ===== src/Process/Life.antt =====
-- How `AdapterProcess` of roc_adapter_runtime.py starts its process: `adapter_command`, the environment
-- of `start`, and `_process_error`.
use Prim.Native.String.{String, ◌++◌ as text_append}
use roc_robot_sdk.Base.{
  Bool, ◌||◌, Option, none, some, List, [], ◌∷◌, if◌then◌else◌, ◌==◌, is_empty, mem,
}
use roc_robot_sdk.Files.{FilePath, FileSystem}
use roc_robot_sdk.Manifest.{AdapterManifest, protocol}
use roc_robot_sdk.Process.Streams.{last_lines}
use roc_robot_sdk.Py.Text.{PyText}

-- `separator.join(texts)`
unfoldable pub join : String → List String → String
join separator [] = ""
join separator (s ∷ []) = s
join separator (s ∷ t ∷ ts) = text_append s (text_append separator (join separator (t ∷ ts)))

-- `text.endswith(end)`, for a text that is not shorter only if it ends so.
unfoldable ends_with : String → String → Bool
ends_with end String.[] = is_empty end
ends_with end (String.◌∷◌ c s) = (String.◌∷◌ c s == end) || ends_with end s

-- `executable` is `sys.executable`.
module _ (fs : FileSystem) (executable : String) (directory : FilePath) where
  abbrev with_python : List String → List String
  with_python [] = []
  with_python (program ∷ arguments) =
      (if mem program ("python" ∷ "python3" ∷ []) then executable else program) ∷ arguments

  -- A token that names a file of the adapter becomes its path.
  unfoldable resolve_tokens : List String → List String
  resolve_tokens [] = []
  resolve_tokens (token ∷ tokens) =
      let rest = resolve_tokens tokens in
      let candidate = fs.resolve_in directory token in
      (if fs.is_file candidate then fs.path_text candidate else token) ∷ rest

module _ ⦃t : PyText⦄ (executable : String) where
  -- A program that is one Python file is given to Python.
  abbrev with_interpreter : List String → List String
  with_interpreter (program ∷ []) =
      if ends_with ".py" (t.lower program) then executable ∷ program ∷ [] else program ∷ []
  with_interpreter command = command

  unfoldable adapter_command : FileSystem → AdapterManifest → List String
  unfolding resolve_tokens ends_with mem
  adapter_command fs m = with_interpreter (
      resolve_tokens fs executable m.directory (with_python fs executable m.directory m.entrypoint))

-- The variables that `start` adds to the environment.
abbrev adapter_environment : AdapterManifest → List (String × String) → List (String × String)
adapter_environment m environ =
    ("ROC_ADAPTER_PROTOCOL", protocol) ∷ ("ROC_ADAPTER_ID", m.adapter_id) ∷ environ

abbrev suffix_of : Option String → String
suffix_of none = ""
suffix_of (some exc) = text_append ": " exc

-- `_process_error`; `exc` is the exception's text, if there is one.
unfoldable process_error : List String → String → Option String → String
unfolding join last_lines
process_error stderr_lines message exc =
    let details = join "\n" (last_lines 10 stderr_lines) in
    let suffix = suffix_of exc in
    text_append (text_append message suffix)
      (if is_empty details then "" else text_append "; adapter stderr: " details)
