-- ===== src/Files.antt =====
-- The operating system's files, as the programs see them: a parameter of the models. A path is the
-- list of its components from the root.
pub mod Atomic
use roc_robot_sdk.Base.{String, Bool, true, false, ◌&&◌, Option, List, [], ◌∷◌, ◌==◌, none, some}
use roc_robot_sdk.Py.Json.{Json, Dict, as_dict}
use roc_robot_sdk.Failure.{Result, ok, err, cannot_read, json_object_required}

abbrev pub FilePath : Type 0
FilePath = List String

pub record FileSystem : Type 0 where
  -- `path.resolve()`
  pub resolve : FilePath → FilePath
  -- `(directory / token).resolve()`
  pub resolve_in : FilePath → String → FilePath
  pub exists : FilePath → Bool
  pub is_file : FilePath → Bool
  pub is_dir : FilePath → Bool
  -- `json.loads(path.read_text())`; none where that raises
  pub load : FilePath → Option Json
  -- `sorted(path.glob("*/adapter.json"))`
  pub manifests_in : FilePath → List FilePath
  -- `str(path)`
  pub path_text : FilePath → String

-- `path.parent`
unfoldable pub parent : FilePath → FilePath
parent [] = []
parent (x ∷ []) = []
parent (x ∷ y ∷ p) = x ∷ parent (y ∷ p)

-- `path.name`
unfoldable pub name : FilePath → String
name [] = ""
name (x ∷ []) = x
name (x ∷ y ∷ p) = name (y ∷ p)

-- `path.relative_to(directory)` does not raise.
unfoldable pub is_inside : FilePath → FilePath → Bool
is_inside [] p = true
is_inside (d ∷ ds) [] = false
is_inside (d ∷ ds) (x ∷ p) = (d == x) && is_inside ds p

unfoldable pub dict_of : Option Json → Result Dict
dict_of none = err cannot_read
dict_of (some v) = elim (as_dict v) [ none ↦ err json_object_required | some d ↦ ok d ]

unfoldable pub read_json : FileSystem → FilePath → Result Dict
unfolding dict_of
read_json fs path = dict_of (fs.load path)
