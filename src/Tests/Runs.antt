-- ===== src/Tests/Runs.antt =====
-- Tests of the adapter's process, the outbox, the lock and whole runs, and the theorems at them.
use roc_robot_sdk.Py.Json.{
  bool, int, str, obj, Dict, end, field, get, get_or, is_number, is_text, is_true, keys, lookup,
  number_of, of_texts, or_else, put, same_number, size, texts_of, truthy,
}
use roc_robot_sdk.Manifest.{protocol}
use roc_robot_sdk.Process.{
  close_process, value, Delivery, new_process, after_send, await, judge, judge_response,
  later_exchanges, next_exchange, request,
}
use roc_robot_sdk.Process.Close.{close, end_child}
use roc_robot_sdk.Process.Await.{IsAnswer, await-IsAnswer, time_after, await-stale}
use roc_robot_sdk.Process.Streams.{last_lines, read_stderr, read_stderr_lem}
use roc_robot_sdk.Outbox.{
  status, Line, blank, entry, EventOutbox, Counts, count_delivered, counts_of, deliver, emit,
  finish as finish_flush, flush, flush_file, flush_lines, is_success, retry, has_separator, splits,
  items_split, dict_splits, stamped,
}
use roc_robot_sdk.Outbox.Flush.{IsFlushed, flush-IsFlushed}
use roc_robot_sdk.Lock.{is_held, acquire_lock, acquire_rounds, pid_is_active, release_lock}
use roc_robot_sdk.Session.{
  Event, Session, call, cancelled, emitted, event_record, gets, lift, modify, pause, pure,
  set_state, state_record, transition, wrote_state, ◌>>=◌ as bind_action,
}
use roc_robot_sdk.Runtime.Order.{Legal}
use roc_robot_sdk.Runtime.Guard.{sent, types}
use roc_robot_sdk.Runtime.Fuel.{watch_lem}
use roc_robot_sdk.Run.Cases.{Untouched}
use roc_robot_sdk.Run.Promises.{IsReleased, run-Legal, run-IsSettled, run-IsReleased, run-Untouched}
use roc_robot_sdk.Run.Twice.{run-run}
use roc_robot_sdk.Run.Safety.{IsSettled}
use roc_robot_sdk.Base.Int.{pos}
use roc_robot_sdk.Base.{
  String, ◌≡◌, refl, true, false, none, some, List, [], ◌∷◌, ◌++◌, map, arith, eqb, dedup,
  dedup_from, difference, insert_sorted, is_space, lstrip, mem, rcons, rstrip, sorted, strip,
  subset, text_leb,
}
use roc_robot_sdk.Tests.Data.{
  calm, caseless, wheel, job_json, response, answers, says, good_script, bad_script, idle, timing,
  registry,
}
use roc_robot_sdk.Failure.{Result, ok, err, invalid_job_state, out_of_fuel, ◌>>=◌ as bind_result}
use roc_robot_sdk.Py.Text.{to_text, upper_text}
use roc_robot_sdk.Fields.{dict_field, text_array, text_field, text_items}
use roc_robot_sdk.Job.{no_unknown_fields, to_dict, validate_job}
use roc_robot_sdk.Table.{find, names}
use roc_robot_sdk.Select.{can_execute, candidates, first_capable, select_adapter, values_at}
use roc_robot_sdk.Runtime.{
  attempt, cancel_job, cancel_payload, check_capabilities, finally_do, is_reportable, is_terminal,
  launch, note_state, poll_status, prepare, reported_state, reported_texts, time_out, wait_and_poll,
  watch, watch_round,
}
use roc_robot_sdk.Run.{
  entered, finish as finish_run, handle_failure, previous_result, record_failure, run, run_locked,
  safety_cancel,
}

abbrev late_answer : Delivery
late_answer = (5, value (response "x" end))

abbrev answer : Delivery
answer = (7, value (response "y" (says "RUNNING")))

await-IsAnswer_example :
    IsAnswer "y" 100 3 (await "job.status" "y" 100 3 (late_answer ∷ answer ∷ []))
await-IsAnswer_example = await-IsAnswer "job.status" "y" 100 3 (late_answer ∷ answer ∷ [])

await-stale_example :
    await "job.status" "y" 100 3 ((late_answer ∷ []) ++ answer ∷ [])
    ≡ await "job.status" "y" 100 (time_after 3 (late_answer ∷ [])) (answer ∷ [])
await-stale_example =
    await-stale "job.status" "y" 100 3 (late_answer ∷ []) (answer ∷ []) (omega arith)
      ((omega arith, other_id), tt)
  where
    other_id :
        is_text "y" (
          get "requestId" (
            field "requestId"
              (str "x")
              (field "protocol" (str protocol) (field "ok" (bool true) end))))
        ≡ false
    other_id = unfold is_text in unfold get in unfold get_or in unfold lookup in refl

read_stderr_lem_example :
    read_stderr [] ("a " ∷ "b" ∷ []) ≡ last_lines 50 (map rstrip ("a " ∷ "b" ∷ []))
read_stderr_lem_example = read_stderr_lem ("a " ∷ "b" ∷ [])

-- An outbox with an event that was delivered, and one that was not.
abbrev sent_event : Dict
sent_event = field "eventId" (str "e1") (field "delivered" (bool true) end)

abbrev new_event : Dict
new_event = field "eventId" (str "e2") (field "delivered" (bool false) end)

abbrev event_lines : List Line
event_lines = entry (obj sent_event) ∷ blank ∷ entry (obj new_event) ∷ []

abbrev outbox : EventOutbox
outbox = record {
  endpoint = "https://example.org/events";
  replies = λ n. status 204;
  posted = [];
  file = some event_lines;
}

abbrev all_sent : Counts
all_sent = record { total = 2; delivered = 2; pending = 0 }

flush_test : (flush outbox).0 ≡ ok all_sent
unfolding lookup get_or get put keys truthy or_else is_text is_true number_of same_number is_number
    texts_of of_texts size is_success deliver stamped emit has_separator splits items_split
    dict_splits retry flush_lines count_delivered counts_of finish_flush flush_file flush
flush_test = refl

flush-IsFlushed_example : IsFlushed outbox event_lines all_sent (flush outbox).1
flush-IsFlushed_example = flush-IsFlushed outbox event_lines all_sent refl refl flush_test

-- A run that succeeds, with the record that it returns, and one whose adapter misbehaves.
abbrev good : Result Dict × Session
good = run ⦃t = caseless⦄ registry job_json "auto" timing (idle good_script none)

abbrev bad : Result Dict × Session
bad = run ⦃t = caseless⦄ registry job_json "auto" timing (idle bad_script none)

abbrev done : Dict
done = field "protocol" (str protocol) (
    field "jobId" (str "mock-delivery-001") (
      field "jobType" (str "DELIVERY") (
        field "idempotencyKey" (str "key-001") (
          field "adapterId" (str "mock-wheel") (
            field "state" (str "SUCCEEDED") (
              field "pid" (int (pos 7))
                (field "updatedAt" (str "now") (field "detail" (obj end) end))))))))

good_result : good.0 ≡ ok done
unfolding is_space lstrip rcons rstrip strip mem dedup_from dedup subset difference text_leb
    insert_sorted sorted lookup get_or get put keys truthy or_else is_text is_true number_of
    same_number is_number texts_of of_texts size to_text upper_text bind_result text_field
    text_items text_array dict_field no_unknown_fields validate_job to_dict find names can_execute
    first_capable values_at candidates select_adapter judge_response judge await next_exchange
    later_exchanges after_send request is_success deliver stamped emit has_separator splits
    items_split dict_splits retry flush_lines count_delivered counts_of finish_flush flush_file
    flush pid_is_active acquire_rounds acquire_lock release_lock bind_action pure lift gets modify
    set_state state_record event_record wrote_state emitted transition call cancelled pause
    is_terminal is_reportable reported_texts check_capabilities cancel_payload finally_do
    reported_state prepare launch cancel_job time_out note_state poll_status wait_and_poll
    watch_round watch attempt safety_cancel record_failure handle_failure finish_run close_process
    close end_child entered run_locked previous_result run
good_result = refl

abbrev states : List Event → List String
states [] = []
states (e ∷ es) = e.state ∷ states es

good_states :
    states good.1.events ≡ "SUCCEEDED" ∷ "RUNNING" ∷ "STARTING" ∷ "VALIDATED" ∷ "RECEIVED" ∷ []
unfolding is_space lstrip rcons rstrip strip mem dedup_from dedup subset difference text_leb
    insert_sorted sorted lookup get_or get put keys truthy or_else is_text is_true number_of
    same_number is_number texts_of of_texts size to_text upper_text bind_result text_field
    text_items text_array dict_field no_unknown_fields validate_job to_dict find names can_execute
    first_capable values_at candidates select_adapter judge_response judge await next_exchange
    later_exchanges after_send request is_success deliver stamped emit has_separator splits
    items_split dict_splits retry flush_lines count_delivered counts_of finish_flush flush_file
    flush pid_is_active acquire_rounds acquire_lock release_lock bind_action pure lift gets modify
    set_state state_record event_record wrote_state emitted transition call cancelled pause
    is_terminal is_reportable reported_texts check_capabilities cancel_payload finally_do
    reported_state prepare launch cancel_job time_out note_state poll_status wait_and_poll
    watch_round watch attempt safety_cancel record_failure handle_failure finish_run close_process
    close end_child entered run_locked previous_result run
good_states = refl

bad_result : bad.0 ≡ err (invalid_job_state "PAUSED")
unfolding is_space lstrip rcons rstrip strip mem dedup_from dedup subset difference text_leb
    insert_sorted sorted lookup get_or get put keys truthy or_else is_text is_true number_of
    same_number is_number texts_of of_texts size to_text upper_text bind_result text_field
    text_items text_array dict_field no_unknown_fields validate_job to_dict find names can_execute
    first_capable values_at candidates select_adapter judge_response judge await next_exchange
    later_exchanges after_send request is_success deliver stamped emit has_separator splits
    items_split dict_splits retry flush_lines count_delivered counts_of finish_flush flush_file
    flush pid_is_active acquire_rounds acquire_lock release_lock bind_action pure lift gets modify
    set_state state_record event_record wrote_state emitted transition call cancelled pause
    is_terminal is_reportable reported_texts check_capabilities cancel_payload finally_do
    reported_state prepare launch cancel_job time_out note_state poll_status wait_and_poll
    watch_round watch attempt safety_cancel record_failure handle_failure finish_run close_process
    close end_child entered run_locked previous_result run
bad_result = refl

bad_sent : sent bad.1.adapter ≡ "job.cancel" ∷ "job.status" ∷ "job.start" ∷ "capabilities.get" ∷ []
unfolding is_space lstrip rcons rstrip strip mem dedup_from dedup subset difference text_leb
    insert_sorted sorted lookup get_or get put keys truthy or_else is_text is_true number_of
    same_number is_number texts_of of_texts size to_text upper_text bind_result text_field
    text_items text_array dict_field no_unknown_fields validate_job to_dict find names can_execute
    first_capable values_at candidates select_adapter judge_response judge await next_exchange
    later_exchanges after_send request is_success deliver stamped emit has_separator splits
    items_split dict_splits retry flush_lines count_delivered counts_of finish_flush flush_file
    flush pid_is_active acquire_rounds acquire_lock release_lock bind_action pure lift gets modify
    set_state state_record event_record wrote_state emitted transition call cancelled pause
    is_terminal is_reportable reported_texts check_capabilities cancel_payload finally_do
    reported_state prepare launch cancel_job time_out note_state poll_status wait_and_poll
    watch_round watch attempt safety_cancel record_failure handle_failure finish_run close_process
    close end_child entered run_locked previous_result run types
bad_sent = refl

bad_states : states bad.1.events ≡ "FAILED" ∷ "RUNNING" ∷ "STARTING" ∷ "VALIDATED" ∷ "RECEIVED" ∷ []
unfolding is_space lstrip rcons rstrip strip mem dedup_from dedup subset difference text_leb
    insert_sorted sorted lookup get_or get put keys truthy or_else is_text is_true number_of
    same_number is_number texts_of of_texts size to_text upper_text bind_result text_field
    text_items text_array dict_field no_unknown_fields validate_job to_dict find names can_execute
    first_capable values_at candidates select_adapter judge_response judge await next_exchange
    later_exchanges after_send request is_success deliver stamped emit has_separator splits
    items_split dict_splits retry flush_lines count_delivered counts_of finish_flush flush_file
    flush pid_is_active acquire_rounds acquire_lock release_lock bind_action pure lift gets modify
    set_state state_record event_record wrote_state emitted transition call cancelled pause
    is_terminal is_reportable reported_texts check_capabilities cancel_payload finally_do
    reported_state prepare launch cancel_job time_out note_state poll_status wait_and_poll
    watch_round watch attempt safety_cancel record_failure handle_failure finish_run close_process
    close end_child entered run_locked previous_result run
bad_states = refl

run-Legal_example : Legal bad.1.events
run-Legal_example =
    run-Legal ⦃t = caseless⦄ registry job_json "auto" timing (idle bad_script none) refl refl

run-IsSettled_example : IsSettled bad.1
run-IsSettled_example =
    run-IsSettled ⦃t = caseless⦄ registry job_json "auto" timing (idle bad_script none) refl

run-IsReleased_example :
    IsReleased
      (idle bad_script (some (some (pos 8))))
      (run ⦃t = caseless⦄ registry job_json "auto" timing (idle bad_script (some (some (pos 8)))))
run-IsReleased_example =
    run-IsReleased ⦃t = caseless⦄ registry job_json "auto" timing
      (idle bad_script (some (some (pos 8)))) refl

abbrev locked_out : Session
locked_out = idle good_script (some (some (pos 9)))

is_locked_out : is_held (λ pid. eqb pid 9) 7 (some (some (pos 9))) ≡ true
unfolding pid_is_active acquire_rounds acquire_lock release_lock
is_locked_out = refl

run-Untouched_example :
    Untouched locked_out (run ⦃t = caseless⦄ registry job_json "auto" timing locked_out).1
run-Untouched_example =
    run-Untouched ⦃t = caseless⦄ registry job_json "auto" timing locked_out is_locked_out

-- A later runtime, which finds the state file of the run that succeeded and no adapters.
abbrev later : Session
later = record (idle [] none) { state_file = good.1.state_file }

run-run_example :
    ((run ⦃t = caseless⦄ [] job_json "auto" timing later).0 ≡ ok done)
    × Untouched later (run ⦃t = caseless⦄ [] job_json "auto" timing later).1
run-run_example =
    run-run ⦃t = caseless⦄ registry [] job_json "auto" "auto" timing timing (idle good_script none)
      later done good_result refl

abbrev running : Session
running = record (idle good_script none) {
  now = 20;
  last_state = "RUNNING";
  adapter = some (
      new_process wheel true
        (answers "c" 100 (says "RUNNING") ∷ answers "d" 200 (says "SUCCEEDED") ∷ []) calm);
}

watch_lem_example :
    watch ⦃t = caseless⦄ (pure tt) 23 timing 1020 running
    ≡ watch ⦃t = caseless⦄ (lift (err out_of_fuel)) 23 timing 1020 running
watch_lem_example = watch_lem ⦃t = caseless⦄ timing (pure tt) (lift (err out_of_fuel)) running
