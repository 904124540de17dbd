-- ===== src/Select.antt =====
-- `select_adapter` of roc_adapter_runtime.py: the adapter that runs a job.
pub mod Sound
pub mod Least
use roc_robot_sdk.Base.{
  String, Bool, ◌&&◌, Option, none, some, List, [], ◌∷◌, if◌then◌else◌, ◌==◌, mem, subset, sorted,
}
use roc_robot_sdk.Py.Json.{keys}
use roc_robot_sdk.Failure.{
  adapter_not_found, adapter_cannot_execute, no_adapter_can_execute, Result, ok, err, ◌>>=◌, ◌>>◌,
}
use roc_robot_sdk.Table.{find, names}
use roc_robot_sdk.Manifest.{AdapterManifest}
use roc_robot_sdk.Discover.{Manifests}
use roc_robot_sdk.Job.{Job}

unfoldable pub can_execute : Job → AdapterManifest → Bool
can_execute job manifest =
    mem job.job_type manifest.job_types && subset job.required manifest.capabilities

-- The first candidate that can execute the job.
unfoldable pub first_capable : Job → List AdapterManifest → Option AdapterManifest
unfolding can_execute
first_capable job [] = none
first_capable job (manifest ∷ rest) =
    if can_execute job manifest then some manifest else first_capable job rest

abbrev add_found : Option AdapterManifest → List AdapterManifest → List AdapterManifest
add_found none rest = rest
add_found (some manifest) rest = manifest ∷ rest

-- `[manifests[key] for key in keys]`, where each key is one of the dictionary's.
unfoldable pub values_at : List String → Manifests → List AdapterManifest
values_at [] manifests = []
values_at (key ∷ keys) manifests = add_found (find key manifests) (values_at keys manifests)

unfoldable pub candidates : Manifests → String → Result (List AdapterManifest)
unfolding values_at
candidates manifests adapter_id =
    if adapter_id == "auto"
    then ok (values_at (sorted (names manifests)) manifests)
    else elim (find adapter_id manifests) [
      | none ↦ err (adapter_not_found adapter_id)
      | some manifest ↦ ok (manifest ∷ [])
    ]

abbrev pub or_refuse : String → Option AdapterManifest → Result AdapterManifest
or_refuse adapter_id (some manifest) = ok manifest
or_refuse adapter_id none =
    err (if adapter_id == "auto" then no_adapter_can_execute else adapter_cannot_execute adapter_id)

unfoldable pub select_adapter : Manifests → Job → String → Result AdapterManifest
unfolding candidates first_capable
select_adapter manifests job adapter_id = do
  found ← candidates manifests adapter_id
  or_refuse adapter_id (first_capable job found)
