-- ===== src/Manifest/Safety.antt =====
-- The manifests that `validate_manifest` of roc_adapter_runtime.py accepts.
use roc_robot_sdk.Failure.{
  require-true, bad_requires, entrypoint_missing, bad_string_item, entrypoint_escapes, ok,
  ok-injective, >>=-eq-ok, require-eq-ok, Ensures, Ensures-bind, Ensures-require, Ensures-ok,
}
use roc_robot_sdk.Base.{
  refl, map, eq_iff, dedup, All-dedup_from, Distinct-dedup, String, ◌≡◌, inl, inr, true, List, [],
  ◌∷◌, ◌++◌, arith, Bool-cases, All, All-append, strip, mem, Distinct, Distinct-append_one,
}
use roc_robot_sdk.Files.{parent, FilePath, FileSystem, name, is_inside}
use mathlib.Core.Path.{subst}
use roc_robot_sdk.Py.Json.{Json, null, str, arr, Items, nil, cons}
use roc_robot_sdk.Fields.{text_field}
use roc_robot_sdk.Py.Text.{PyText}
use roc_robot_sdk.Manifest.{
  AdapterManifest, protocol, is_adapter_id, adapter_id_field, string_list, string_items, last_of,
  check_tokens, check_entrypoint, validate_manifest,
}
use roc_robot_sdk.Fields.Clean.{
  IsClean, IsClean-strip, text_field-Filled, text_array-Filled, All-IsClean,
}

string_items-IsClean :
    (what : String) (normalized : List String) (xs : Items) (ts : List String)
    → All IsClean normalized
    → Distinct normalized
    → string_items what normalized xs ≡ ok ts
    → All IsClean ts × Distinct ts
unfolding string_items
string_items-IsClean what normalized nil ts c d h =
    let e = ok-injective h in (subst (All IsClean) e c, subst Distinct e d)
string_items-IsClean what normalized (cons v xs) ts c d h =
    let (s, p, q) = >>=-eq-ok (text_field v (bad_string_item what)) _ h in
    elim (Bool-cases (mem (strip s) normalized)) [
      | inl e ↦ string_items-IsClean what normalized xs ts c d (rw e at q)
      | inr e ↦
          string_items-IsClean what (normalized ++ strip s ∷ []) xs ts
            (All-append IsClean normalized (strip s ∷ []) c
              (IsClean-strip s (text_field-Filled v _ s p), tt))
            (Distinct-append_one normalized (strip s) d e) (rw e at q)
    ]

string_list-IsClean :
    (what : String) (v : Json) (ts : List String)
    → string_list what v ≡ ok ts
    → All IsClean ts × Distinct ts
unfolding string_list
string_list-IsClean what (arr (cons v xs)) ts h =
    string_items-IsClean what [] (cons v xs) ts tt tt h
string_list-IsClean what (arr nil) ts h = cc
string_list-IsClean what _ ts h = cc

module _ (fs : FileSystem) (directory : FilePath) where
  -- A token names no file, or one inside the directory.
  abbrev StaysInside : String → Type 0
  StaysInside token =
      fs.exists (fs.resolve_in directory token) ≡ true
      → is_inside directory (fs.resolve_in directory token) ≡ true

  check_tokens-StaysInside :
      (tokens : List String) → check_tokens fs directory tokens ≡ ok tt → All StaysInside tokens
  unfolding check_tokens
  check_tokens-StaysInside [] h = tt
  check_tokens-StaysInside (token ∷ tokens) h =
      let (inside, rest) = require-eq-ok _ entrypoint_escapes _ h in
      (λ e. ground arith, check_tokens-StaysInside tokens rest)

  check_entrypoint-checked :
      (entrypoint : List String) (u : Unit {0})
      → check_entrypoint fs directory entrypoint ≡ ok u
      → let file = fs.resolve_in directory (last_of entrypoint) in
        All StaysInside entrypoint × (fs.is_file file ≡ true) × (is_inside directory file ≡ true)
  unfolding check_entrypoint
  check_entrypoint-checked entrypoint u h =
      let (_, tokens, rest) = >>=-eq-ok (check_tokens fs directory entrypoint) _ h in
      let (file, rest') = require-eq-ok _ entrypoint_missing _ rest in
      (check_tokens-StaysInside entrypoint tokens, file, require-true _ entrypoint_escapes u rest')

-- What the runtime relies on when it starts an adapter.
pub record IsSafe ⦃t : PyText⦄ (fs : FileSystem) (m : AdapterManifest) : Type 0 where
  pub id_valid : is_adapter_id m.adapter_id ≡ true
  pub id_names_directory : name m.directory ≡ m.adapter_id
  pub protocol_known : m.protocol_id ≡ protocol
  pub capabilities_clean : All IsClean m.capabilities
  pub capabilities_distinct : Distinct m.capabilities
  pub requires_clean : All IsClean m.requires
  pub requires_distinct : Distinct m.requires
  pub tokens_inside : All (StaysInside fs m.directory) m.entrypoint
  pub program_exists : fs.is_file (fs.resolve_in m.directory (last_of m.entrypoint)) ≡ true
  pub program_inside :
      is_inside m.directory (fs.resolve_in m.directory (last_of m.entrypoint)) ≡ true

adapter_id_field-valid :
    (v : Json) (s : String) → adapter_id_field v ≡ ok s → is_adapter_id s ≡ true
unfolding adapter_id_field
adapter_id_field-valid (str r) s h = ground arith
adapter_id_field-valid null s h = cc
adapter_id_field-valid _ s h = cc

module _ ⦃t : PyText⦄ (fs : FileSystem) where
  validate_manifest-Ensures : (path : FilePath) → Ensures (IsSafe fs) (validate_manifest fs path)
  unfolding validate_manifest check_entrypoint
  validate_manifest-Ensures path = Ensures-bind _ _ λ raw _. Ensures-require _ _ _ λ _.
      Ensures-bind _ _ λ adapter_id i. Ensures-bind _ _ λ display_name _.
        Ensures-bind _ _ λ version _. Ensures-require _ _ _ λ _. Ensures-require _ _ _ λ _.
          Ensures-bind _ _ λ capabilities c. Ensures-bind _ _ λ job_types j.
            Ensures-bind _ _ λ requires r. Ensures-bind _ _ λ entrypoint e.
              Ensures-require _ _ _ λ named. Ensures-bind _ _ λ _ checked.
                let (tokens, file, inside) =
                  check_entrypoint-checked fs (fs.resolve (parent path)) entrypoint _ checked in
                let (clean, distinct) = string_list-IsClean "capabilities" _ capabilities c in
                Ensures-ok _ (record {
                  id_valid = adapter_id_field-valid _ adapter_id i;
                  id_names_directory = (eq_iff _ adapter_id).0 named;
                  protocol_known = refl;
                  capabilities_clean = clean;
                  capabilities_distinct = distinct;
                  requires_clean =
                      unfold dedup in
                      All-dedup_from IsClean [] (map strip requires)
                        (All-IsClean requires (text_array-Filled _ bad_requires requires r));
                  requires_distinct = Distinct-dedup (map strip requires);
                  tokens_inside = tokens;
                  program_exists = file;
                  program_inside = inside;
                })

  -- Every manifest that `validate_manifest` returns is safe: its id has the prescribed form and is
  -- the name of its directory, its protocol is the runtime's, its capabilities and requirements are
  -- stripped, not empty and without repetition, and its program is a file inside the directory, as
  -- is every token of the entry point that names something.
  pub validate_manifest-IsSafe :
      (path : FilePath) (m : AdapterManifest) → validate_manifest fs path ≡ ok m → IsSafe fs m
  validate_manifest-IsSafe path m = (validate_manifest-Ensures path).of_ok m
