-- ===== src/Discover.antt =====
-- `discover_adapters` of roc_adapter_runtime.py. The roots are given with `~` expanded.
pub mod Registry
use roc_robot_sdk.Base.{
  Bool, true, false, not, ◌&&◌, ◌||◌, List, [], ◌∷◌, ◌++◌, if◌then◌else◌, ◌==◌,
}
use roc_robot_sdk.Failure.{duplicate_adapter, Result, ok, ◌>>=◌, ◌>>◌, require}
use roc_robot_sdk.Files.{FilePath, FileSystem}
use roc_robot_sdk.Py.Text.{PyText}
use roc_robot_sdk.Table.{Table, find, has}
use roc_robot_sdk.Manifest.{AdapterManifest, validate_manifest}

abbrev pub Manifests : Type 0
Manifests = Table AdapterManifest

-- `path in seen_paths`
unfoldable pub same_path : FilePath → FilePath → Bool
same_path [] [] = true
same_path [] (y ∷ q) = false
same_path (x ∷ p) [] = false
same_path (x ∷ p) (y ∷ q) = (x == y) && same_path p q

unfoldable pub seen : FilePath → List FilePath → Bool
unfolding same_path
seen p [] = false
seen p (q ∷ qs) = same_path p q || seen p qs

module _ ⦃t : PyText⦄ (fs : FileSystem) where
  -- The manifests of one root, added to those that are there.
  unfoldable pub discover_manifests : List FilePath → Manifests → Result Manifests
  discover_manifests [] discovered = ok discovered
  discover_manifests (path ∷ paths) discovered = do
    manifest ← validate_manifest fs path
    require (not (has manifest.adapter_id discovered)) (duplicate_adapter manifest.adapter_id)
    discover_manifests paths (discovered ++ (manifest.adapter_id, manifest) ∷ [])

  unfoldable pub discover_roots : List FilePath → List FilePath → Manifests → Result Manifests
  unfolding discover_manifests
  discover_roots seen_paths [] discovered = ok discovered
  discover_roots seen_paths (root ∷ roots) discovered =
      let resolved = fs.resolve root in
      let skipped = discover_roots seen_paths roots discovered in
      let scanned =
        discover_manifests (fs.manifests_in resolved) discovered
        >>= discover_roots (resolved ∷ seen_paths) roots in
      if seen resolved seen_paths || not (fs.is_dir resolved) then skipped else scanned

  unfoldable pub discover_adapters : List FilePath → Result Manifests
  unfolding discover_roots
  discover_adapters roots = discover_roots [] roots []
