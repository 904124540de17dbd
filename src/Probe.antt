-- ===== src/Probe.antt =====
-- `probe_adapter` and `snapshot_adapter` of roc_adapter_runtime.py: questions to an adapter that runs
-- no job.
pub mod Harmless
use roc_robot_sdk.Base.{ℕ, String, true}
use roc_robot_sdk.Py.Json.{bool, str, arr, obj, nil, Dict, end, field, get_or}
use roc_robot_sdk.Failure.{Result, ok, err, ◌>>◌}
use roc_robot_sdk.Process.{AdapterProcess, request, close_process}

-- `try` with `process.close()` in the `finally` clause: an exception of this takes the place of the
-- result.
unfoldable pub closing : Result Dict × AdapterProcess → Result Dict × AdapterProcess
unfolding close_process
closing (r, p) = let (c, q) = close_process p in (c >> r, q)

abbrev probe_record : String → Result Dict → Result Dict
probe_record adapter_id (err e) = err e
probe_record adapter_id (ok response) = ok (
    field "id" (str adapter_id) (
      field "ok" (bool true) (
        field "capabilities" (get_or "capabilities" (arr nil) response)
          (field "jobTypes" (get_or "jobTypes" (arr nil) response) end))))

-- `probe_adapter`, of a process that is new.
unfoldable pub probe_adapter : AdapterProcess → ℕ → Result Dict × AdapterProcess
unfolding closing
probe_adapter p now =
    let (r, _, q) = request p now "capabilities.get" 10000 end in
    closing (probe_record p.manifest.adapter_id r, q)

abbrev snapshot_record : String → Dict → Result Dict → Result Dict
snapshot_record adapter_id telemetry (err e) = err e
snapshot_record adapter_id telemetry (ok incidents) = ok (
    field "id" (str adapter_id) (
      field "telemetry" (get_or "telemetry" (obj end) telemetry)
        (field "incidents" (get_or "incidents" (arr nil) incidents) end)))

-- The second question, once the first was answered.
abbrev pub ask_incidents : String → Result Dict × ℕ × AdapterProcess → Result Dict × AdapterProcess
ask_incidents adapter_id (err e, now, p) = (err e, p)
ask_incidents adapter_id (ok telemetry, now, p) =
    let (r, _, q) = request p now "incidents.get" 10000 end in
    (snapshot_record adapter_id telemetry r, q)

-- `snapshot_adapter`, of a process that is new.
unfoldable pub snapshot_adapter : AdapterProcess → ℕ → Result Dict × AdapterProcess
unfolding closing
snapshot_adapter p now =
    let (r, q) = ask_incidents p.manifest.adapter_id (request p now "telemetry.get" 10000 end) in
    closing (r, q)
