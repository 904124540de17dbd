-- ===== src/Enabled/Activation.antt =====
-- The proofs that relate `activate_adapters` and `enabled_manifests` of roc_adapter_runtime.py.
use mathlib.Core.List.{append-nil}
use mathlib.Core.Path.{subst}
use roc_robot_sdk.Manifest.StringList.{snoc-dedup_from}
use roc_robot_sdk.Base.{
  if◌then◌else◌, dedup, dedup_from, ◌++◌, String, ◌≡◌, refl, sym, ap, ◌∙◌, inl, inr, Bool, true,
  false, Option, none, some, List, [], ◌∷◌, Bool-cases, is_some, All, All-append, ◌==◌, is_empty,
  strip, mem, difference, sorted, Distinct, dedup-Distinct, Distinct-append_one,
}
use roc_robot_sdk.Py.Json.{arr, Dict, lookup, get_or, get, is_text, texts_of, of_texts}
use roc_robot_sdk.Session.{StateFile}
use roc_robot_sdk.Failure.{
  none_combined, ok-injective, Result, ok, err, ◌>>=◌, Ensures, Ensures-ok, Ensures-err,
}
use roc_robot_sdk.Table.{find, names, has, has-names}
use roc_robot_sdk.Discover.{Manifests}
use roc_robot_sdk.Manifest.{AdapterManifest}
use roc_robot_sdk.Enabled.{
  configured_values, choose, enabled_record, store, activate_adapters, pick, registry_ids,
  enabled_of, enabled_manifests,
}

-- The ids that are chosen: each is installed, and none is named twice.
record IsChoice (manifests : Manifests) (ids : List String) : Type 0 where
  distinct : Distinct ids
  installed : All (λ id. has id manifests ≡ true) ids

choose-Ensures :
    (manifests : Manifests) (chosen values : List String)
    → IsChoice manifests chosen
    → Ensures (IsChoice manifests) (choose manifests chosen values)
unfolding choose
choose-Ensures manifests chosen [] c = Ensures-ok chosen c
choose-Ensures manifests chosen (value ∷ values) c = elim (Bool-cases (is_empty (strip value))) [
  | inl blank ↦ rw blank (choose-Ensures manifests chosen values c)
  | inr filled ↦ elim (Bool-cases (strip value == "none")) [
    | inl e ↦ rw (filled, e) (Ensures-err none_combined)
    | inr named ↦ elim (Bool-cases (has (strip value) manifests)) [
      | inr e ↦ rw (filled, named, e) (Ensures-err _)
      | inl there ↦ elim (Bool-cases (mem (strip value) chosen)) [
        | inl again ↦ rw (filled, named, there, again) (choose-Ensures manifests chosen values c)
        | inr new ↦
            rw (filled, named, there, new)
              (choose-Ensures manifests (chosen ++ strip value ∷ []) values (record {
                distinct = Distinct-append_one chosen (strip value) c.distinct new;
                installed = All-append _ chosen (strip value ∷ []) c.installed (there, tt);
              }))
      ]
    ]
  ]
]

-- The values but the blank ones, stripped.
unfoldable pub stripped : List String → List String
stripped [] = []
stripped (value ∷ values) =
    if is_empty (strip value) then stripped values else strip value ∷ stripped values

-- The ids that are chosen are those that are named, each once, in the order of their first occurrence.
choose-stripped :
    (manifests : Manifests) (chosen values : List String)
    → Ensures
        (λ ids. ids ≡ chosen ++ dedup_from chosen (stripped values))
        (choose manifests chosen values)
unfolding choose stripped dedup_from
choose-stripped manifests chosen [] = Ensures-ok chosen (sym (append-nil chosen))
choose-stripped manifests chosen (value ∷ values) = elim (Bool-cases (is_empty (strip value))) [
  | inl blank ↦ rw blank (choose-stripped manifests chosen values)
  | inr filled ↦ elim (Bool-cases (strip value == "none")) [
    | inl e ↦ rw (filled, e) (Ensures-err none_combined)
    | inr named ↦ elim (Bool-cases (has (strip value) manifests)) [
      | inr e ↦ rw (filled, named, e) (Ensures-err _)
      | inl there ↦ elim (Bool-cases (mem (strip value) chosen)) [
        | inl again ↦ rw (filled, named, there, again) (choose-stripped manifests chosen values)
        | inr new ↦
            rw (filled, named, there, new)
              (subst
                (λ x.
                  Ensures (λ ids. ids ≡ x) (choose manifests (chosen ++ strip value ∷ []) values))
                (snoc-dedup_from chosen (strip value) (stripped values))
                (choose-stripped manifests (chosen ++ strip value ∷ []) values))
      ]
    ]
  ]
]

texts_of-of_texts : (ts : List String) → texts_of (of_texts ts) ≡ some ts
unfolding texts_of of_texts
texts_of-of_texts [] = refl
texts_of-of_texts (t ∷ ts) = rw (texts_of-of_texts ts) refl

difference-installed :
    (manifests : Manifests) (ids : List String)
    → All (λ id. has id manifests ≡ true) ids
    → difference ids (names manifests) ≡ []
unfolding difference
difference-installed manifests [] h = refl
difference-installed manifests (id ∷ ids) h =
    rw (sym (has-names id manifests) ∙ h.0) (difference-installed manifests ids h.1)

names-pick :
    (manifests : Manifests) (ids : List String)
    → All (λ id. has id manifests ≡ true) ids
    → names (pick ids manifests) ≡ ids
unfolding pick names
names-pick manifests [] h = refl
names-pick manifests (id ∷ ids) h = named (names-pick manifests ids h.1) (find id manifests) h.0
  where
    named :
        names (pick ids manifests) ≡ ids
        → (o : Option AdapterManifest) → is_some o ≡ true
        → names (elim o [ none ↦ pick ids manifests | some m ↦ (id, m) ∷ pick ids manifests ])
          ≡ id ∷ ids
    named rest none e = absurd (cc e)
    named rest (some m) e = ap (λ r. id ∷ r) rest

registry_ids-of_texts : (ids : List String) → registry_ids (arr (of_texts ids)) ≡ ok ids
unfolding registry_ids
registry_ids-of_texts ids = rw (texts_of-of_texts ids, registry_ids) refl

enabled_of-record :
    (manifests : Manifests) (now : String) (ids : List String)
    → IsChoice manifests ids
    → enabled_of manifests (enabled_record now ids) ≡ ok (pick ids manifests)
unfolding enabled_of enabled_record is_text get get_or lookup sorted ◌>>=◌
enabled_of-record manifests now ids c =
    rw (registry_ids-of_texts ids) (
      rw (dedup-Distinct ids c.distinct) (rw (difference-installed manifests ids c.installed) refl))

-- What is enabled: the ids that are named, each once and each installed; they are what the returned
-- record holds, and reading the registry yields their adapters in this order.
pub record IsActivated (unregistered : Bool) (now : String) (manifests : Manifests)
    (configured : String) (d : Dict) (file : StateFile) : Type 0 where
  pub ids : List String
  pub requested : ids ≡ dedup (stripped (configured_values configured))
  pub recorded : d ≡ enabled_record now ids
  pub installed : All (λ id. has id manifests ≡ true) ids
  pub reads : enabled_manifests unregistered file manifests ≡ ok (pick ids manifests)
  pub named : names (pick ids manifests) ≡ ids

stored-IsActivated :
    (writes unregistered : Bool) (now : String) (manifests : Manifests) (configured : String)
    (file : StateFile) (d : Dict) (r : Result (List String))
    → Ensures (IsChoice manifests) r
    → Ensures (λ ids. ids ≡ dedup (stripped (configured_values configured))) r
    → (store writes now file r).0 ≡ ok d
    → IsActivated unregistered now manifests configured d (store writes now file r).1
unfolding enabled_manifests ◌>>=◌
stored-IsActivated writes unregistered now manifests configured file d (err e) c w h = absurd (cc h)
stored-IsActivated false unregistered now manifests configured file d (ok ids) c w h = absurd (cc h)
stored-IsActivated true unregistered now manifests configured file d (ok ids) c w h = record {
  ids = ids;
  requested = w.of_ok ids refl;
  recorded = sym (ok-injective h);
  installed = (c.of_ok ids refl).installed;
  reads = enabled_of-record manifests now ids (c.of_ok ids refl);
  named = names-pick manifests ids (c.of_ok ids refl).installed;
}

-- If `activate_adapters` returns, then it has chosen exactly the ids that the configuration names, each
-- once in the order of their first occurrence, and each is installed; it returns the record of these,
-- and `enabled_manifests` accepts the file that was written and returns exactly their adapters,
-- whatever the environment says of unregistered adapters.
pub enabled_manifests-activate_adapters :
    (writes unregistered : Bool) (now : String) (manifests : Manifests) (configured : String)
    (file : StateFile) (d : Dict)
    → (activate_adapters writes now manifests configured file).0 ≡ ok d
    → IsActivated unregistered now manifests configured d
        (activate_adapters writes now manifests configured file).1
unfolding activate_adapters dedup
enabled_manifests-activate_adapters writes unregistered now manifests configured file d =
    stored-IsActivated writes unregistered now manifests configured file d _
      (choose-Ensures manifests [] (configured_values configured)
        (record { distinct = tt; installed = tt }))
      (choose-stripped manifests [] (configured_values configured))
