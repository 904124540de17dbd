-- ===== src/Enabled.antt =====
-- The registry of enabled adapters in roc_adapter_runtime.py, runtime/enabled-adapters.json:
-- `activate_adapters` and `enabled_manifests`.
use Prim.Native.Char.{Char, code}
use roc_robot_sdk.Session.{StateFile, missing, unreadable, holds}
use roc_robot_sdk.Table.{has, find, names}
pub mod Activation
use roc_robot_sdk.Base.{
  String, Bool, true, false, not, ◌||◌, none, some, List, [], ◌∷◌, ◌++◌, eqb, if◌then◌else◌, ◌==◌,
  is_empty, strip, mem, dedup, difference, sorted,
}
use roc_robot_sdk.Py.Json.{Json, str, arr, obj, Dict, end, field, get, is_text, texts_of, of_texts}
use roc_robot_sdk.Failure.{
  adapter_not_found, none_combined, bad_registry_protocol, bad_registry, not_installed,
  other_exception, Result, ok, err, ◌>>=◌, ◌>>◌, require,
}
use roc_robot_sdk.Discover.{Manifests}
use roc_robot_sdk.Manifest.{protocol}
use roc_robot_sdk.Runtime.{read_state}

-- `c + rest[0]` and the rest.
abbrev glue : Char → List String → List String
glue c [] = String.◌∷◌ c "" ∷ []
glue c (t ∷ ts) = String.◌∷◌ c t ∷ ts

-- `s.split(",")`
unfoldable pub split_commas : String → List String
split_commas String.[] = "" ∷ []
split_commas (String.◌∷◌ c s) =
    let rest = split_commas s in if eqb (code c) 44 then "" ∷ rest else glue c rest

-- The values of the argument; "" and "none" stand for no adapter.
unfoldable pub configured_values : String → List String
configured_values configured =
    if is_empty (strip configured) || strip configured == "none"
    then []
    else split_commas configured

-- The loop over the values, from the ids that have been chosen.
unfoldable pub choose : Manifests → List String → List String → Result (List String)
unfolding mem
choose manifests chosen [] = ok chosen
choose manifests chosen (value ∷ values) =
    let id = strip value in
    let skip = choose manifests chosen values in
    let take = choose manifests (chosen ++ id ∷ []) values in
    if is_empty id
    then skip
    else if id == "none"
    then err none_combined
    else if not (has id manifests)
    then err (adapter_not_found id)
    else if mem id chosen
    then skip
    else take

-- The record that is written.
unfoldable pub enabled_record : String → List String → Dict
enabled_record now ids =
    field "protocol" (str protocol)
      (field "updatedAt" (str now) (field "adapters" (arr (of_texts ids)) end))

-- What `write_json_atomic` makes of the file, and whether it raises.
abbrev write_enabled : Bool → Dict → StateFile → Result Dict × StateFile
write_enabled true d file = (ok d, holds (obj d))
write_enabled false d file = (err other_exception, file)

abbrev pub store : Bool → String → StateFile → Result (List String) → Result Dict × StateFile
store writes now file (ok ids) = write_enabled writes (enabled_record now ids) file
store writes now file (err e) = (err e, file)

-- `activate_adapters`; `writes` tells whether the disk takes the file.
unfoldable pub activate_adapters :
    Bool → String → Manifests → String → StateFile → Result Dict × StateFile
unfolding choose configured_values enabled_record
activate_adapters writes now manifests configured file =
    store writes now file (choose manifests [] (configured_values configured))

-- `{id: manifests[id] for id in ids}` of ids that are there, each once.
unfoldable pub pick : List String → Manifests → Manifests
unfolding find
pick [] manifests = []
pick (id ∷ ids) manifests = elim (find id manifests) [
  | none ↦ pick ids manifests
  | some m ↦ (id, m) ∷ pick ids manifests
]

-- The ids that the registry names: a list of texts.
unfoldable pub registry_ids : Json → Result (List String)
registry_ids (arr xs) = elim (texts_of xs) [ none ↦ err bad_registry | some ids ↦ ok ids ]
registry_ids _ = err bad_registry

abbrev all_installed : List String → Result (Unit {0})
all_installed [] = ok tt
all_installed (t ∷ ts) = err (not_installed (t ∷ ts))

unfoldable pub enabled_of : Manifests → Dict → Result Manifests
unfolding registry_ids sorted difference dedup
enabled_of manifests registry = do
  require (is_text protocol (get "protocol" registry)) bad_registry_protocol
  ids ← registry_ids (get "adapters" registry)
  all_installed (sorted (difference (dedup ids) (names manifests)))
  ok (pick (dedup ids) manifests)

-- `enabled_manifests`; `unregistered` tells whether ROC_ENABLE_UNREGISTERED_ADAPTERS is "1".
unfoldable pub enabled_manifests : Bool → StateFile → Manifests → Result Manifests
enabled_manifests unregistered missing manifests = ok (if unregistered then manifests else [])
enabled_manifests unregistered file manifests = read_state file >>= enabled_of manifests
