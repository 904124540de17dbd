-- ===== src/Tests/Registry.antt =====
-- Tests of the manifests, the registry, the selection and the jobs, and the theorems at concrete inputs.
use roc_robot_sdk.Base.{
  ◌≡◌, refl, true, false, some, [], ◌∷◌, map, dedup, dedup_from, difference, insert_sorted,
  is_space, lstrip, mem, rcons, rstrip, sorted, strip, subset, text_leb,
}
use roc_robot_sdk.Tests.Data.{
  caseless, caseless-IsCaseMap, disk, wheel, job_json, delivery, registry,
}
use roc_robot_sdk.Py.Json.{
  str, arr, nil, cons, get, get_or, is_number, is_text, is_true, keys, lookup, number_of, of_texts,
  or_else, put, same_number, size, texts_of, truthy,
}
use roc_robot_sdk.Files.{FilePath, dict_of, is_inside, name, parent, read_json}
use roc_robot_sdk.Manifest.{
  AdapterManifest, adapter_id_field, check_entrypoint, check_tokens, entrypoint_of, is_adapter_id,
  last_of, string_items, string_list, validate_manifest,
}
use roc_robot_sdk.Manifest.Safety.{IsSafe, validate_manifest-IsSafe}
use roc_robot_sdk.Manifest.StringList.{string_list_lem}
use roc_robot_sdk.Job.{Job, no_unknown_fields, to_dict, validate_job}
use roc_robot_sdk.Job.Normal.{IsNormal, validate_job-IsNormal}
use roc_robot_sdk.Job.RoundTrip.{validate_job-validate_job}
use roc_robot_sdk.Discover.{
  Manifests, discover_adapters, discover_manifests, discover_roots, same_path, seen,
}
use roc_robot_sdk.Discover.Registry.{IsRegistry, discover_adapters-IsRegistry}
use roc_robot_sdk.Select.Sound.{IsAnswer, select_adapter-IsAnswer}
use roc_robot_sdk.Select.Least.{select_adapter-least, select_adapter_complete}
use roc_robot_sdk.Failure.{
  ◌>>=◌, ok, err, bad_string_item, no_adapter_can_execute, ◌>>=◌ as bind_result,
}
use roc_robot_sdk.Py.Float.{of_ℤ}
use roc_robot_sdk.Fields.{dict_field, text_array, text_field, text_items}
use roc_robot_sdk.Table.{find, names}
use roc_robot_sdk.Select.{can_execute, candidates, first_capable, select_adapter, values_at}
use roc_robot_sdk.Py.Text.{to_text, upper_text}

abbrev wheel_path : FilePath
wheel_path = "opt" ∷ "mock-wheel" ∷ "adapter.json" ∷ []

validate_manifest_test : validate_manifest ⦃t = caseless⦄ disk wheel_path ≡ ok wheel
unfolding is_space lstrip rcons rstrip strip mem dedup_from dedup subset difference text_leb
    insert_sorted sorted lookup get_or get put keys truthy or_else is_text is_true number_of
    same_number is_number texts_of of_texts size of_ℤ bind_result text_field text_items text_array
    dict_field parent name is_inside dict_of read_json is_adapter_id string_items string_list
    entrypoint_of last_of check_tokens check_entrypoint adapter_id_field validate_manifest
validate_manifest_test = refl

validate_manifest-IsSafe_example : IsSafe ⦃t = caseless⦄ disk wheel
validate_manifest-IsSafe_example =
    validate_manifest-IsSafe ⦃t = caseless⦄ disk wheel_path wheel validate_manifest_test

string_list_lem_example : string_list "jobTypes" (arr (cons (str " A") (cons (str "A ") nil))) ≡ (
    text_items (cons (str " A") (cons (str "A ") nil)) (bad_string_item "jobTypes") >>= λ ts.
    ok (dedup (map strip ts)))
string_list_lem_example = string_list_lem "jobTypes" (str " A") (cons (str "A ") nil)

string_list_test :
    string_list "jobTypes" (arr (cons (str " A") (cons (str "A ") nil))) ≡ ok ("A" ∷ [])
unfolding is_space lstrip rcons rstrip strip mem dedup_from dedup subset difference text_leb
    insert_sorted sorted bind_result text_field text_items text_array dict_field is_adapter_id
    string_items string_list entrypoint_of last_of check_tokens check_entrypoint adapter_id_field
    validate_manifest
string_list_test = refl

discover_adapters_test :
    discover_adapters ⦃t = caseless⦄ disk (("opt" ∷ []) ∷ ("opt" ∷ []) ∷ []) ≡ ok registry
unfolding is_space lstrip rcons rstrip strip mem dedup_from dedup subset difference text_leb
    insert_sorted sorted lookup get_or get put keys truthy or_else is_text is_true number_of
    same_number is_number texts_of of_texts size of_ℤ bind_result text_field text_items text_array
    dict_field parent name is_inside dict_of read_json is_adapter_id string_items string_list
    entrypoint_of last_of check_tokens check_entrypoint adapter_id_field validate_manifest find
    names same_path seen discover_manifests discover_roots discover_adapters
discover_adapters_test = refl

discover_adapters-IsRegistry_example : IsRegistry ⦃t = caseless⦄ disk registry
discover_adapters-IsRegistry_example =
    discover_adapters-IsRegistry ⦃t = caseless⦄ disk (("opt" ∷ []) ∷ ("opt" ∷ []) ∷ []) registry
      discover_adapters_test

-- A second adapter, which cannot drive.
abbrev arm : AdapterManifest
arm = record wheel { adapter_id = "arm"; capabilities = "job.cancel" ∷ [] }

abbrev two : Manifests
two = ("mock-wheel", wheel) ∷ ("arm", arm) ∷ []

abbrev patrol : Job
patrol = record delivery { required = [] }

abbrev cleaning : Job
cleaning = record delivery { job_type = "CLEANING" }

select_test : select_adapter two delivery "auto" ≡ ok wheel
unfolding is_space lstrip rcons rstrip strip mem dedup_from dedup subset difference text_leb
    insert_sorted sorted bind_result find names can_execute first_capable values_at candidates
    select_adapter
select_test = refl

select_patrol_test : select_adapter two patrol "auto" ≡ ok arm
unfolding is_space lstrip rcons rstrip strip mem dedup_from dedup subset difference text_leb
    insert_sorted sorted bind_result find names can_execute first_capable values_at candidates
    select_adapter
select_patrol_test = refl

select_cleaning_test : select_adapter two cleaning "auto" ≡ err no_adapter_can_execute
unfolding is_space lstrip rcons rstrip strip mem dedup_from dedup subset difference text_leb
    insert_sorted sorted bind_result find names can_execute first_capable values_at candidates
    select_adapter
select_cleaning_test = refl

find-wheel : find "mock-wheel" two ≡ some wheel
unfolding is_space lstrip rcons rstrip strip mem dedup_from dedup subset difference text_leb
    insert_sorted sorted bind_result find names can_execute first_capable values_at candidates
    select_adapter
find-wheel = refl

wheel_can_patrol : can_execute patrol wheel ≡ true
unfolding is_space lstrip rcons rstrip strip mem dedup_from dedup subset difference text_leb
    insert_sorted sorted bind_result find names can_execute first_capable values_at candidates
    select_adapter
wheel_can_patrol = refl

select_adapter-IsAnswer_example : IsAnswer two delivery "auto" wheel
select_adapter-IsAnswer_example =
    select_adapter-IsAnswer two (refl, (refl, tt)) delivery "auto" wheel select_test

select_adapter-least_example : text_leb "arm" "mock-wheel" ≡ true
select_adapter-least_example =
    select_adapter-least two (refl, (refl, tt)) patrol arm wheel "mock-wheel" select_patrol_test
      find-wheel wheel_can_patrol

select_adapter_complete_example : can_execute cleaning wheel ≡ false
select_adapter_complete_example =
    select_adapter_complete two (refl, (refl, tt)) cleaning no_adapter_can_execute wheel
      "mock-wheel" select_cleaning_test find-wheel

validate_job_test : validate_job ⦃t = caseless⦄ job_json ≡ ok delivery
unfolding is_space lstrip rcons rstrip strip mem dedup_from dedup subset difference text_leb
    insert_sorted sorted lookup get_or get put keys truthy or_else is_text is_true number_of
    same_number is_number texts_of of_texts size to_text upper_text bind_result text_field
    text_items text_array dict_field no_unknown_fields validate_job to_dict
validate_job_test = refl

validate_job-IsNormal_example : IsNormal ⦃t = caseless⦄ delivery
validate_job-IsNormal_example =
    validate_job-IsNormal ⦃t = caseless⦄ caseless-IsCaseMap job_json delivery validate_job_test

validate_job-validate_job_example : validate_job ⦃t = caseless⦄ (to_dict delivery) ≡ ok delivery
validate_job-validate_job_example =
    validate_job-validate_job ⦃t = caseless⦄ caseless-IsCaseMap job_json delivery validate_job_test
