-- ===== src/Tests/Commands.antt =====
-- Commands of roc_adapter_runtime.py on a machine with the mock adapter, and the theorem at one.
use roc_robot_sdk.Process.{
  judge_response, judge, await, next_exchange, later_exchanges, after_send, request,
}
use roc_robot_sdk.Process.Life.{join}
use roc_robot_sdk.Base.{
  ℕ, ◌≡◌, refl, true, false, none, some, [], ◌∷◌, is_space, lstrip, rcons, rstrip, strip, mem,
  dedup_from, dedup, subset, difference, text_leb, insert_sorted, sorted,
}
use roc_robot_sdk.CommandLine.{
  list_adapters, run_one, text_lines, Machine, Exit, exits, refuses, traceback, load_job,
  public_record, ask_all, ask_enabled, registration, listing, validation, with_enabled,
  with_installed, dispatch, main,
}
use roc_robot_sdk.Tests.Data.{calm, disk, job_json, good_script, idle, caseless}
use roc_robot_sdk.Session.{
  missing, ◌>>=◌ as bind_action, pure, lift, gets, modify, set_state, state_record, event_record,
  wrote_state, emitted, transition, call, cancelled, pause,
}
use roc_robot_sdk.Failure.{cannot_read, bad_timing, ◌>>=◌ as bind_result}
use roc_robot_sdk.Py.Float.{nan, units, of_ℕ, of_ℤ}
use roc_robot_sdk.Py.Json.{
  obj, lookup, get_or, get, put, keys, truthy, or_else, is_text, is_true, number_of, same_number,
  is_number, texts_of, of_texts, size, py_eq, items_eq, fields_eq,
}
use roc_robot_sdk.Py.Text.{to_text, upper_text}
use roc_robot_sdk.Enabled.{
  split_commas, configured_values, choose, enabled_record, activate_adapters, pick, registry_ids,
  enabled_of, enabled_manifests,
}
use roc_robot_sdk.Cancel.{
  names_runtime, check_arguments, verify_runtime_process, to_int, target, cancel_active_job,
}
use roc_robot_sdk.Probe.{probe_adapter, snapshot_adapter}
use roc_robot_sdk.Outbox.{
  is_success, deliver, stamped, emit, retry, has_separator, splits, items_split, dict_splits,
  flush_lines, count_delivered, counts_of, finish, flush_file, flush,
}
use roc_robot_sdk.Run.{
  safety_cancel, record_failure, handle_failure, entered, run_locked, previous_result, run,
}
use roc_robot_sdk.Runtime.{
  is_terminal, is_reportable, reported_texts, check_capabilities, cancel_payload, finally_do,
  reported_state, prepare, launch, cancel_job, time_out, note_state, poll_status, wait_and_poll,
  watch_round, watch, attempt,
}
use roc_robot_sdk.Lock.{pid_is_active, acquire_rounds, acquire_lock, release_lock}
use roc_robot_sdk.Select.{can_execute, first_capable, values_at, candidates, select_adapter}
use roc_robot_sdk.Job.{no_unknown_fields, validate_job, to_dict}
use roc_robot_sdk.Discover.{same_path, seen, discover_manifests, discover_roots, discover_adapters}
use roc_robot_sdk.Manifest.{
  is_adapter_id, string_items, string_list, entrypoint_of, last_of, check_tokens, check_entrypoint,
  adapter_id_field, validate_manifest,
}
use roc_robot_sdk.Table.{find, names}
use roc_robot_sdk.Files.{parent, name, is_inside, dict_of, read_json}
use roc_robot_sdk.Fields.{text_field, text_items, text_array, dict_field}

abbrev machine : Machine
machine = record {
  files = disk;
  adapter_roots = [];
  own_adapters = "opt" ∷ [];
  adapter_path = [];
  stdin = some (obj job_json);
  job_file = λ path. none;
  processes = record {
    is_linux = true;
    arguments = λ pid. none;
    resolve_argument = λ argument. none;
    runtime_path = [];
    parse_int = λ s. none;
    can_signal = λ pid. false;
  };
  unregistered = true;
  writes = true;
  utc_now = "now";
  spawns = λ id. true;
  script = λ id. [];
  child = λ id. calm;
  registry = missing;
  session = idle good_script none;
  signalled = [];
}

abbrev end_code : Exit → ℕ
end_code (exits code what) = code
end_code (refuses e) = 2
end_code traceback = 1

-- A job from standard input succeeds.
run_test : end_code (main ⦃t = caseless⦄ (run_one "-" "auto" (of_ℕ 1) (units 1 1073)) machine).0 ≡ 0
unfolding is_space lstrip rcons rstrip strip mem dedup_from dedup subset difference text_leb
    insert_sorted sorted lookup get_or get put keys truthy or_else is_text is_true number_of
    same_number is_number texts_of of_texts size py_eq items_eq fields_eq of_ℤ to_text upper_text
    load_job public_record join ask_all ask_enabled registration listing validation with_enabled
    with_installed dispatch main split_commas configured_values choose enabled_record
    activate_adapters pick registry_ids enabled_of enabled_manifests names_runtime check_arguments
    verify_runtime_process to_int target cancel_active_job probe_adapter snapshot_adapter is_success
    deliver stamped emit has_separator splits items_split dict_splits retry flush_lines
    count_delivered counts_of finish flush_file flush safety_cancel record_failure handle_failure
    entered run_locked previous_result run is_terminal is_reportable reported_texts
    check_capabilities cancel_payload finally_do reported_state prepare launch cancel_job time_out
    note_state poll_status wait_and_poll watch_round watch attempt pure lift gets modify set_state
    state_record event_record wrote_state emitted transition call cancelled pause judge_response
    judge await next_exchange later_exchanges after_send request pid_is_active acquire_rounds
    acquire_lock release_lock can_execute first_capable values_at candidates select_adapter
    no_unknown_fields validate_job to_dict same_path seen discover_manifests discover_roots
    discover_adapters is_adapter_id string_items string_list entrypoint_of last_of check_tokens
    check_entrypoint adapter_id_field validate_manifest find names parent name is_inside dict_of
    read_json text_field text_items text_array dict_field bind_result bind_action
run_test = refl

unreadable_job_test :
    (main ⦃t = caseless⦄ (run_one "job.json" "auto" (of_ℕ 1) (of_ℕ 1)) machine).0
    ≡ refuses cannot_read
unfolding is_space lstrip rcons rstrip strip mem dedup_from dedup subset difference text_leb
    insert_sorted sorted lookup get_or get put keys truthy or_else is_text is_true number_of
    same_number is_number texts_of of_texts size py_eq items_eq fields_eq of_ℤ to_text upper_text
    load_job public_record join ask_all ask_enabled registration listing validation with_enabled
    with_installed dispatch main split_commas configured_values choose enabled_record
    activate_adapters pick registry_ids enabled_of enabled_manifests names_runtime check_arguments
    verify_runtime_process to_int target cancel_active_job probe_adapter snapshot_adapter is_success
    deliver stamped emit has_separator splits items_split dict_splits retry flush_lines
    count_delivered counts_of finish flush_file flush safety_cancel record_failure handle_failure
    entered run_locked previous_result run is_terminal is_reportable reported_texts
    check_capabilities cancel_payload finally_do reported_state prepare launch cancel_job time_out
    note_state poll_status wait_and_poll watch_round watch attempt pure lift gets modify set_state
    state_record event_record wrote_state emitted transition call cancelled pause judge_response
    judge await next_exchange later_exchanges after_send request pid_is_active acquire_rounds
    acquire_lock release_lock can_execute first_capable values_at candidates select_adapter
    no_unknown_fields validate_job to_dict same_path seen discover_manifests discover_roots
    discover_adapters is_adapter_id string_items string_list entrypoint_of last_of check_tokens
    check_entrypoint adapter_id_field validate_manifest find names parent name is_inside dict_of
    read_json text_field text_items text_array dict_field bind_result bind_action
unreadable_job_test = refl

bad_timing_test :
    (main ⦃t = caseless⦄ (run_one "-" "auto" nan (of_ℕ 1)) machine).0 ≡ refuses bad_timing
unfolding is_space lstrip rcons rstrip strip mem dedup_from dedup subset difference text_leb
    insert_sorted sorted lookup get_or get put keys truthy or_else is_text is_true number_of
    same_number is_number texts_of of_texts size py_eq items_eq fields_eq of_ℤ to_text upper_text
    load_job public_record join ask_all ask_enabled registration listing validation with_enabled
    with_installed dispatch main split_commas configured_values choose enabled_record
    activate_adapters pick registry_ids enabled_of enabled_manifests names_runtime check_arguments
    verify_runtime_process to_int target cancel_active_job probe_adapter snapshot_adapter is_success
    deliver stamped emit has_separator splits items_split dict_splits retry flush_lines
    count_delivered counts_of finish flush_file flush safety_cancel record_failure handle_failure
    entered run_locked previous_result run is_terminal is_reportable reported_texts
    check_capabilities cancel_payload finally_do reported_state prepare launch cancel_job time_out
    note_state poll_status wait_and_poll watch_round watch attempt pure lift gets modify set_state
    state_record event_record wrote_state emitted transition call cancelled pause judge_response
    judge await next_exchange later_exchanges after_send request pid_is_active acquire_rounds
    acquire_lock release_lock can_execute first_capable values_at candidates select_adapter
    no_unknown_fields validate_job to_dict same_path seen discover_manifests discover_roots
    discover_adapters is_adapter_id string_items string_list entrypoint_of last_of check_tokens
    check_entrypoint adapter_id_field validate_manifest find names parent name is_inside dict_of
    read_json text_field text_items text_array dict_field bind_result bind_action
bad_timing_test = refl

list_test :
    (main ⦃t = caseless⦄ (list_adapters false) machine).0
    ≡ exits 0 (text_lines ("mock-wheel\t1.0.0\tDELIVERY,PATROL" ∷ []))
unfolding is_space lstrip rcons rstrip strip mem dedup_from dedup subset difference text_leb
    insert_sorted sorted lookup get_or get put keys truthy or_else is_text is_true number_of
    same_number is_number texts_of of_texts size py_eq items_eq fields_eq of_ℤ to_text upper_text
    load_job public_record join ask_all ask_enabled registration listing validation with_enabled
    with_installed dispatch main split_commas configured_values choose enabled_record
    activate_adapters pick registry_ids enabled_of enabled_manifests names_runtime check_arguments
    verify_runtime_process to_int target cancel_active_job probe_adapter snapshot_adapter is_success
    deliver stamped emit has_separator splits items_split dict_splits retry flush_lines
    count_delivered counts_of finish flush_file flush safety_cancel record_failure handle_failure
    entered run_locked previous_result run is_terminal is_reportable reported_texts
    check_capabilities cancel_payload finally_do reported_state prepare launch cancel_job time_out
    note_state poll_status wait_and_poll watch_round watch attempt pure lift gets modify set_state
    state_record event_record wrote_state emitted transition call cancelled pause judge_response
    judge await next_exchange later_exchanges after_send request pid_is_active acquire_rounds
    acquire_lock release_lock can_execute first_capable values_at candidates select_adapter
    no_unknown_fields validate_job to_dict same_path seen discover_manifests discover_roots
    discover_adapters is_adapter_id string_items string_list entrypoint_of last_of check_tokens
    check_entrypoint adapter_id_field validate_manifest find names parent name is_inside dict_of
    read_json text_field text_items text_array dict_field bind_result bind_action
list_test = refl
