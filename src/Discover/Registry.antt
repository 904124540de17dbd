-- ===== src/Discover/Registry.antt =====
-- The dictionary that `discover_adapters` returns.
use roc_robot_sdk.Base.{
  String, ◌≡◌, refl, inl, inr, true, not, ◌||◌, some, List, [], ◌∷◌, ◌++◌, arith, eq_iff,
  Bool-cases, All, All-append, ◌==◌, Distinct, Distinct-append_one,
}
use roc_robot_sdk.Failure.{duplicate_adapter, ok, ok-injective, >>=-eq-ok, require-eq-ok}
use roc_robot_sdk.Files.{FilePath, FileSystem}
use mathlib.Core.Path.{subst}
use roc_robot_sdk.Py.Text.{PyText}
use roc_robot_sdk.Table.{find, names, has, has-names, names-append}
use roc_robot_sdk.Manifest.{AdapterManifest, validate_manifest}
use roc_robot_sdk.Manifest.Safety.{IsSafe, validate_manifest-IsSafe}
use roc_robot_sdk.Discover.{Manifests, discover_manifests, discover_roots, discover_adapters, seen}

-- Each adapter stands under its own id.
abbrev pub Keyed : Manifests → Type 0
Keyed d = All (λ (e : String × AdapterManifest). e.0 ≡ e.1.adapter_id) d

pub find-Keyed :
    (k : String) (m : AdapterManifest) (d : Manifests)
    → Keyed d
    → find k d ≡ some m
    → m.adapter_id ≡ k
unfolding find
find-Keyed k m [] h f = absurd (cc f)
find-Keyed k m ((j, n) ∷ d) h f = elim (Bool-cases (k == j)) [
  | inl e ↦ cc (h.0, (eq_iff k j).0 e, (rw e at f))
  | inr e ↦ find-Keyed k m d h.1 (rw e at f)
]

pub record IsRegistry ⦃t : PyText⦄ (fs : FileSystem) (d : Manifests) : Type 0 where
  pub keyed : Keyed d
  pub safe : All (λ (e : String × AdapterManifest). IsSafe fs e.1) d
  pub distinct : Distinct (names d)

module _ ⦃t : PyText⦄ (fs : FileSystem) where
  IsRegistry-nil : IsRegistry fs []
  unfolding names
  IsRegistry-nil = record { keyed = tt; safe = tt; distinct = tt }

  IsRegistry-snoc :
      (d : Manifests) (m : AdapterManifest)
      → IsRegistry fs d
      → IsSafe fs m
      → not (has m.adapter_id d) ≡ true
      → IsRegistry fs (d ++ (m.adapter_id, m) ∷ [])
  IsRegistry-snoc d m r s h = record {
    keyed = All-append _ d _ r.keyed (refl, tt);
    safe = All-append _ d _ r.safe (s, tt);
    distinct = rw (names-append d ((m.adapter_id, m) ∷ [])) (
        unfold names in
        Distinct-append_one (names d) m.adapter_id r.distinct
          (rw (← has-names m.adapter_id d) (ground arith)));
  }

  discover_manifests-IsRegistry :
      (paths : List FilePath) (d e : Manifests)
      → IsRegistry fs d
      → discover_manifests fs paths d ≡ ok e
      → IsRegistry fs e
  unfolding discover_manifests
  discover_manifests-IsRegistry [] d e r h = subst (IsRegistry fs) (ok-injective h) r
  discover_manifests-IsRegistry (path ∷ paths) d e r h =
      let (m, p, q) = >>=-eq-ok (validate_manifest fs path) _ h in
      let (new, rest) = require-eq-ok _ (duplicate_adapter m.adapter_id) _ q in
      discover_manifests-IsRegistry paths (d ++ (m.adapter_id, m) ∷ []) e
        (IsRegistry-snoc d m r (validate_manifest-IsSafe fs path m p) new) rest

  discover_roots-IsRegistry :
      (seen_paths roots : List FilePath) (d e : Manifests)
      → IsRegistry fs d
      → discover_roots fs seen_paths roots d ≡ ok e
      → IsRegistry fs e
  unfolding discover_roots
  discover_roots-IsRegistry seen_paths [] d e r h = subst (IsRegistry fs) (ok-injective h) r
  discover_roots-IsRegistry seen_paths (root ∷ roots) d e r h =
      elim (Bool-cases (seen (fs.resolve root) seen_paths || not (fs.is_dir (fs.resolve root)))) [
        | inl skip ↦ discover_roots-IsRegistry seen_paths roots d e r (rw skip at h)
        | inr scan ↦
            let (d', p, q) =
              >>=-eq-ok (discover_manifests fs (fs.manifests_in (fs.resolve root)) d) _
                (rw scan at h) in
            discover_roots-IsRegistry (fs.resolve root ∷ seen_paths) roots d' e
              (discover_manifests-IsRegistry _ d d' r p) q
      ]

  -- What `discover_adapters` returns names no adapter twice, holds each under its own id, and holds
  -- only manifests that are safe.
  pub discover_adapters-IsRegistry :
      (roots : List FilePath) (d : Manifests) → discover_adapters fs roots ≡ ok d → IsRegistry fs d
  unfolding discover_adapters
  discover_adapters-IsRegistry roots d = discover_roots-IsRegistry [] roots [] d IsRegistry-nil
