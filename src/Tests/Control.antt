-- ===== src/Tests/Control.antt =====
-- Tests of the registry of enabled adapters and of the cancellation, and the theorems at them.
use roc_robot_sdk.Base.{
  String, ◌≡◌, refl, true, false, none, some, [], ◌∷◌, All, dedup, dedup_from, difference,
  insert_sorted, is_space, lstrip, mem, rcons, rstrip, sorted, strip, subset, text_leb,
}
use roc_robot_sdk.Tests.Data.{calm, wheel, good_script, registry}
use roc_robot_sdk.Py.Json.{
  int, str, obj, end, field, get, get_or, is_number, is_text, is_true, keys, lookup, number_of,
  of_texts, or_else, put, same_number, size, texts_of, truthy,
}
use roc_robot_sdk.Enabled.Activation.{IsActivated, enabled_manifests-activate_adapters}
use roc_robot_sdk.Cancel.{
  Processes, cancel_active_job, check_arguments, names_runtime, target, to_int,
  verify_runtime_process,
}
use roc_robot_sdk.Cancel.Checked.{IsRuntimeOf, cancel_active_job-IsRuntimeOf}
use roc_robot_sdk.Base.Int.{pos}
use roc_robot_sdk.Probe.{probe_adapter, snapshot_adapter}
use roc_robot_sdk.Probe.Harmless.{IsHarmless, probe_adapter-snapshot_adapter}
use roc_robot_sdk.Process.{new_process}
use roc_robot_sdk.Session.{StateFile, missing, holds}
use roc_robot_sdk.Failure.{ok, err, none_combined, lock_of_other, ◌>>=◌ as bind_result}
use roc_robot_sdk.Table.{find, names}
use roc_robot_sdk.Enabled.{
  activate_adapters, choose, configured_values, enabled_manifests, enabled_of, enabled_record, pick,
  registry_ids, split_commas,
}
use roc_robot_sdk.Discover.{discover_adapters, discover_manifests, discover_roots, same_path, seen}

abbrev named_twice : String
named_twice = " mock-wheel,,mock-wheel"

activate_test :
    (activate_adapters true "now" registry named_twice missing).0
    ≡ ok (enabled_record "now" ("mock-wheel" ∷ []))
unfolding is_space lstrip rcons rstrip strip mem dedup_from dedup subset difference text_leb
    insert_sorted sorted lookup get_or get put keys truthy or_else is_text is_true number_of
    same_number is_number texts_of of_texts size bind_result find names split_commas
    configured_values choose enabled_record activate_adapters pick registry_ids enabled_of
    enabled_manifests
activate_test = refl

activate_none_test :
    (activate_adapters true "now" registry "mock-wheel,none" missing).0 ≡ err none_combined
unfolding is_space lstrip rcons rstrip strip mem dedup_from dedup subset difference text_leb
    insert_sorted sorted lookup get_or get put keys truthy or_else is_text is_true number_of
    same_number is_number texts_of of_texts size bind_result find names split_commas
    configured_values choose enabled_record activate_adapters pick registry_ids enabled_of
    enabled_manifests
activate_none_test = refl

enabled_manifests-activate_adapters_example :
    IsActivated false "now" registry named_twice
      (enabled_record "now" ("mock-wheel" ∷ []))
      (activate_adapters true "now" registry named_twice missing).1
enabled_manifests-activate_adapters_example =
    enabled_manifests-activate_adapters true false "now" registry named_twice missing
      (enabled_record "now" ("mock-wheel" ∷ [])) activate_test

-- Process 7 runs a job, and holds the lock.
abbrev processes : Processes
processes = record {
  is_linux = true;
  arguments = λ pid. some ("python3" ∷ "runtime.py" ∷ "run" ∷ []);
  resolve_argument = λ argument. some (argument ∷ []);
  runtime_path = "runtime.py" ∷ [];
  parse_int = λ text. none;
  can_signal = λ pid. true;
}

abbrev running_state : StateFile
running_state =
    holds (
      obj
        (field "jobId" (str "j1") (field "state" (str "RUNNING") (field "pid" (int (pos 7)) end))))

cancel_test : (cancel_active_job processes running_state (some (some (pos 7))) "j1").1 ≡ pos 7 ∷ []
unfolding is_space lstrip rcons rstrip strip mem dedup_from dedup subset difference text_leb
    insert_sorted sorted lookup get_or get put keys truthy or_else is_text is_true number_of
    same_number is_number texts_of of_texts size bind_result same_path seen discover_manifests
    discover_roots discover_adapters names_runtime check_arguments verify_runtime_process to_int
    target cancel_active_job
cancel_test = refl

cancel_stale_test :
    (cancel_active_job processes running_state (some (some (pos 8))) "j1").0 ≡ err lock_of_other
unfolding is_space lstrip rcons rstrip strip mem dedup_from dedup subset difference text_leb
    insert_sorted sorted lookup get_or get put keys truthy or_else is_text is_true number_of
    same_number is_number texts_of of_texts size bind_result same_path seen discover_manifests
    discover_roots discover_adapters names_runtime check_arguments verify_runtime_process to_int
    target cancel_active_job
cancel_stale_test = refl

cancel_active_job-IsRuntimeOf_example :
    All
      (IsRuntimeOf processes running_state (some (some (pos 7))) "j1")
      (cancel_active_job processes running_state (some (some (pos 7))) "j1").1
cancel_active_job-IsRuntimeOf_example =
    cancel_active_job-IsRuntimeOf processes running_state (some (some (pos 7))) "j1"

probe_adapter-snapshot_adapter_example :
    IsHarmless (probe_adapter (new_process wheel true good_script calm) 0)
    × IsHarmless (snapshot_adapter (new_process wheel true good_script calm) 0)
probe_adapter-snapshot_adapter_example =
    probe_adapter-snapshot_adapter wheel true good_script calm 0
