-- ===== src/Manifest.antt =====
-- `AdapterManifest`, `validate_manifest`, `string_list` and `adapter_command` of
-- roc_adapter_runtime.py.
pub mod StringList
pub mod Safety
use roc_robot_sdk.Base.{
  ℕ, String, Bool, true, false, not, ◌&&◌, ◌||◌, List, [], ◌∷◌, ◌++◌, map, leb, eqb, if◌then◌else◌,
  ◌==◌, text_length, is_empty, strip, mem, dedup,
}
use roc_robot_sdk.Py.Json.{Json, str, arr, Items, nil, cons, get_or, get, is_text, is_number}
use roc_robot_sdk.Failure.{
  bad_string_array, bad_string_item, bad_manifest_version, bad_adapter_id, display_name_required,
  version_required, bad_manifest_protocol, bad_platform, bad_requires, bad_entrypoint,
  bad_directory_name, entrypoint_escapes, entrypoint_missing, Result, ok, err, ◌>>=◌, ◌>>◌, require,
}
use roc_robot_sdk.Fields.{text_field, text_items, text_array}
use roc_robot_sdk.Files.{FilePath, FileSystem, parent, name, is_inside, read_json}
use Prim.Native.Char.{Char, code}
use roc_robot_sdk.Py.Text.{PyText, upper}

abbrev pub protocol : String
protocol = "roc.adapter.jsonl.v1"

pub record AdapterManifest : Type 0 where
  pub adapter_id : String
  pub display_name : String
  pub version : String
  pub protocol_id : String
  pub capabilities : List String
  pub job_types : List String
  pub requires : List String
  pub entrypoint : List String
  pub directory : FilePath
  pub path : FilePath

-- The class `[a-z0-9]`.
is_id_start : ℕ → Bool
is_id_start c = (leb b'a' c && leb c b'z') || (leb b'0' c && leb c b'9')

-- The class `[a-z0-9._-]`.
is_id_char : ℕ → Bool
unfolding is_id_start
is_id_char c = is_id_start c || eqb c b'.' || eqb c b'_' || eqb c b'-'

all_id_chars : String → Bool
unfolding is_id_char
all_id_chars String.[] = true
all_id_chars (String.◌∷◌ c s) = is_id_char (code c) && all_id_chars s

-- `ADAPTER_ID_RE.fullmatch(s)`
unfoldable pub is_adapter_id : String → Bool
unfolding all_id_chars is_id_start
is_adapter_id String.[] = false
is_adapter_id (String.◌∷◌ c s) = is_id_start (code c) && all_id_chars s && leb (text_length s) 63

-- The loop of `string_list`.
unfoldable pub string_items : String → List String → Items → Result (List String)
string_items what normalized nil = ok normalized
string_items what normalized (cons v xs) = do
  item ← text_field v (bad_string_item what)
  string_items what
      (if mem (strip item) normalized then normalized else normalized ++ strip item ∷ []) xs

unfoldable pub string_list : String → Json → Result (List String)
unfolding string_items
string_list what (arr (cons v xs)) = string_items what [] (cons v xs)
string_list what _ = err (bad_string_array what)

nonempty_items : Json → Result (List String)
nonempty_items (arr (cons v xs)) = text_items (cons v xs) bad_entrypoint
nonempty_items _ = err bad_entrypoint

-- The entry point: a text that is not blank, or a list of at least one of them.
unfoldable pub entrypoint_of : Json → Result (List String)
unfolding nonempty_items
entrypoint_of (str s) = if is_empty (strip s) then err bad_entrypoint else ok (strip s ∷ [])
entrypoint_of v = do tokens ← nonempty_items v; ok (map strip tokens)

-- `entrypoint[-1]`
unfoldable pub last_of : List String → String
last_of [] = ""
last_of (t ∷ []) = t
last_of (t ∷ u ∷ ts) = last_of (u ∷ ts)

module _ (fs : FileSystem) where
  -- No token that names a file names one outside the directory.
  unfoldable pub check_tokens : FilePath → List String → Result (Unit {0})
  check_tokens directory [] = ok tt
  check_tokens directory (token ∷ tokens) = do
    require
        (not (fs.exists (fs.resolve_in directory token))
          || is_inside directory (fs.resolve_in directory token))
        entrypoint_escapes
    check_tokens directory tokens

  unfoldable pub check_entrypoint : FilePath → List String → Result (Unit {0})
  unfolding check_tokens
  check_entrypoint directory entrypoint = do
    check_tokens directory entrypoint
    let file = fs.resolve_in directory (last_of entrypoint)
    require (fs.is_file file) entrypoint_missing
    require (is_inside directory file) entrypoint_escapes

unfoldable pub adapter_id_field : Json → Result String
adapter_id_field (str s) = if is_adapter_id s then ok s else err bad_adapter_id
adapter_id_field _ = err bad_adapter_id

module _ ⦃t : PyText⦄ (fs : FileSystem) where
  unfoldable pub validate_manifest : FilePath → Result AdapterManifest
  validate_manifest path = do
    raw ← read_json fs path
    require (is_number 1 (get "manifestVersion" raw)) bad_manifest_version
    adapter_id ← adapter_id_field (get "id" raw)
    display_name ← text_field (get "displayName" raw) display_name_required
    version ← text_field (get "version" raw) version_required
    require (is_text protocol (get "protocol" raw)) bad_manifest_protocol
    require (is_text "linux" (get "platform" raw)) bad_platform
    capabilities ← string_list "capabilities" (get "capabilities" raw)
    job_types ← string_list "jobTypes" (get "jobTypes" raw)
    requires ← text_array (get_or "requires" (arr nil) raw) bad_requires
    entrypoint ← entrypoint_of (get "entrypoint" raw)
    let directory = fs.resolve (parent path)
    require (name directory == adapter_id) bad_directory_name
    check_entrypoint fs directory entrypoint
    ok (record {
      adapter_id = adapter_id;
      display_name = strip display_name;
      version = strip version;
      protocol_id = protocol;
      capabilities = capabilities;
      job_types = map upper job_types;
      requires = dedup (map strip requires);
      entrypoint = entrypoint;
      directory = directory;
      path = fs.resolve path;
    })
