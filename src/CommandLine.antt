-- ===== src/CommandLine.antt =====
-- The command line of roc_adapter_runtime.py: `load_job`, `default_adapter_roots` and `main` after
-- argparse has read the arguments, from the command to the exit code. Times are whole milliseconds.
use roc_robot_sdk.Process.Life.{join}
use roc_robot_sdk.Base.{
  ℕ, ◌*◌, ◌/◌, ◌^◌, String, Bool, true, ◌&&◌, ◌||◌, Option, List, [], ◌∷◌, map, if◌then◌else◌, ◌==◌,
  is_empty, sorted,
}
use roc_robot_sdk.Failure.{
  Failure, adapter_not_found, not_enabled, no_runtime_state, bad_timing, unknown_command,
  other_exception, Result, ok, err, ◌>>=◌, ◌>>◌, require,
}
use roc_robot_sdk.Files.{FilePath, FileSystem, name, dict_of}
use roc_robot_sdk.Manifest.{protocol, AdapterManifest}
use roc_robot_sdk.Table.{names, has}
use roc_robot_sdk.Discover.{Manifests, discover_adapters}
use roc_robot_sdk.Enabled.{activate_adapters, enabled_manifests}
use roc_robot_sdk.Cancel.{Processes, cancel_active_job}
use roc_robot_sdk.Probe.{probe_adapter, snapshot_adapter}
use roc_robot_sdk.Outbox.{Counts, flush}
use roc_robot_sdk.Run.{run}
use roc_robot_sdk.Process.Close.{Child}
use roc_robot_sdk.Process.{Exchange, AdapterProcess, new_process}
use roc_robot_sdk.Select.{values_at}
use roc_robot_sdk.Py.Float.{Float, fin, ltb_float, is_finite, of_ℕ}
use roc_robot_sdk.Py.Json.{
  Json, bool, int, str, arr, obj, Items, nil, cons, Dict, end, field, get, is_text, of_texts,
}
use roc_robot_sdk.Base.Int.{ℤ, pos}
use roc_robot_sdk.Session.{Session, StateFile, missing}
use roc_robot_sdk.Py.Text.{PyText}
use roc_robot_sdk.Runtime.{Timing, read_state}

-- The arguments that argparse gives.
pub data Command : Type 0 where
  cancel activate validate probe snapshot : String → Command
  show_status flush_outbox capabilities : Command
  list_adapters : Bool → Command
  run_one : String → String → Float → Float → Command
  other_command : String → Command

-- What `print` writes.
pub data Printed : Type 0 where
  json_text : Json → Printed
  text_lines : List String → Printed

-- Where a job is read from: a file, or standard input for "-"; none is no JSON.
pub record Machine : Type 0 where
  pub files : FileSystem
  pub adapter_roots : List FilePath
  pub own_adapters : FilePath
  pub adapter_path : List FilePath
  pub stdin : Option Json
  pub job_file : String → Option Json
  pub processes : Processes
  pub unregistered : Bool
  pub writes : Bool
  pub utc_now : String
  pub spawns : String → Bool
  pub child : String → Child
  pub script : String → List Exchange
  -- what the commands may change
  pub registry : StateFile
  pub session : Session
  pub signalled : List ℤ

-- `default_adapter_roots`; `adapter_path` are the values of ROC_ADAPTER_PATH that are not blank.
abbrev default_adapter_roots : Machine → List FilePath
default_adapter_roots c = c.own_adapters ∷ c.adapter_path

abbrev roots_of : Machine → List FilePath
roots_of c = elim c.adapter_roots [ [] ↦ default_adapter_roots c | root ∷ roots ↦ root ∷ roots ]

-- `load_job`
unfoldable pub load_job : Machine → String → Result Dict
unfolding dict_of
load_job c path_value =
    if path_value == "-" then dict_of c.stdin else dict_of (c.job_file path_value)

-- `public_record`
unfoldable pub public_record : FileSystem → AdapterManifest → Dict
public_record fs m = field "id" (str m.adapter_id) (
    field "displayName" (str m.display_name) (
      field "version" (str m.version) (
        field "protocol" (str m.protocol_id) (
          field "capabilities" (arr (of_texts m.capabilities)) (
            field "jobTypes" (arr (of_texts m.job_types)) (
              field "requires" (arr (of_texts m.requires))
                (field "path" (str (fs.path_text m.path)) end)))))))

abbrev summary : AdapterManifest → String
summary m = join "\t" (m.adapter_id ∷ m.version ∷ join "," m.job_types ∷ [])

abbrev array : List Dict → Items
array [] = nil
array (d ∷ ds) = cons (obj d) (array ds)

-- `[args.adapter] if args.adapter else sorted(manifests)`
abbrev selected : String → Manifests → List String
selected adapter manifests = if is_empty adapter then sorted (names manifests) else adapter ∷ []

abbrev counts_record : Counts → Dict
counts_record n =
    field "total" (int (pos n.total))
      (field "delivered" (int (pos n.delivered)) (field "pending" (int (pos n.pending)) end))

-- A value that a command prints, and the exit code with it.
abbrev Returned : Type 0
Returned = Result (ℕ × Printed)

abbrev printed : Result Dict → Returned
printed (ok d) = ok (0, json_text (obj d))
printed (err e) = err e

abbrev printed_counts : Result Counts → Returned
printed_counts (ok n) = ok (0, json_text (obj (counts_record n)))
printed_counts (err e) = err e

-- 3 is the code of a job that has not succeeded.
abbrev printed_result : Result Dict → Returned
printed_result (ok d) = ok (if is_text "SUCCEEDED" (get "state" d) then 0 else 3, json_text (obj d))
printed_result (err e) = err e

-- The state file, which must be there.
abbrev pub last_state : StateFile → Result Dict
last_state missing = err no_runtime_state
last_state file = read_state file

-- A question to each of these adapters, until one raises.
unfoldable pub ask_all : (AdapterManifest → Result Dict) → List AdapterManifest → Result (List Dict)
ask_all ask [] = ok []
ask_all ask (m ∷ ms) = do d ← ask m; ds ← ask_all ask ms; ok (d ∷ ds)

abbrev process_of : Machine → AdapterManifest → AdapterProcess
process_of c m =
    new_process m (c.spawns m.adapter_id) (c.script m.adapter_id) (c.child m.adapter_id)

-- The commands that ask enabled adapters, of one adapter or of all.
unfoldable pub ask_enabled : (AdapterManifest → Result Dict) → String → Manifests → Returned
unfolding ask_all values_at sorted
ask_enabled ask adapter active = do
  require (is_empty adapter || has adapter active) (not_enabled adapter)
  answers ← ask_all ask (values_at (selected adapter active) active)
  ok (0, json_text (arr (array answers)))

unfoldable pub registration : Machine → Manifests → Dict
unfolding values_at sorted public_record
registration c active = field "protocol" (str protocol) (
    field "generatedAt" (str c.utc_now) (
      field "adapters"
        (arr (array (map (public_record c.files) (values_at (sorted (names active)) active)))) end))

unfoldable pub listing : Machine → Bool → Manifests → Printed
unfolding values_at sorted public_record
listing c as_json manifests =
    let ms = values_at (sorted (names manifests)) manifests in
    if as_json
    then json_text (arr (array (map (public_record c.files) ms)))
    else text_lines (map summary ms)

unfoldable pub validation : String → Manifests → Returned
unfolding sorted
validation adapter manifests = do
  require (is_empty adapter || has adapter manifests) (adapter_not_found adapter)
  ok (
    0,
    json_text (
        obj (
          field "ok" (bool true) (
            field "protocol" (str protocol)
              (field "adapters" (arr (of_texts (selected adapter manifests))) end)))),
  )

-- `math.isfinite(value) and value > 0`
abbrev is_positive : Float → Bool
is_positive f = is_finite f && ltb_float (of_ℕ 0) f

abbrev milliseconds_of : Float → ℕ
milliseconds_of (fin (pos n)) = n * 1000 / 2 ^ 1074
milliseconds_of f = 0

abbrev timing_of : Float → Float → Timing
timing_of timeout poll_interval = record {
  timeout = milliseconds_of timeout;
  poll_interval = milliseconds_of poll_interval;
  timeout_seconds = timeout;
}

-- How the program ends: with a code and what it prints, with the message of a `RuntimeFailure` and
-- the code 2, or with the traceback of another exception.
pub data Exit : Type 0 where
  exits : ℕ → Printed → Exit
  refuses : Failure → Exit
  traceback : Exit

abbrev conclude : Returned → Exit
conclude (ok (code, what)) = exits code what
conclude (err other_exception) = traceback
conclude (err e) = refuses e

module _ ⦃t : PyText⦄ where
  abbrev run_loaded : Manifests → String → Timing → Machine → Result Dict → Returned × Machine
  run_loaded active adapter timing c (err e) = (err e, c)
  run_loaded active adapter timing c (ok raw_job) =
      let (r, s) = run active raw_job adapter timing c.session in
      (printed_result r, record c { session = s })

  -- The commands that need the enabled adapters.
  unfoldable pub with_enabled : Command → Machine → Result Manifests → Returned × Machine
  unfolding load_job ask_enabled registration
  with_enabled command c (err e) = (err e, c)
  with_enabled capabilities c (ok active) = (ok (0, json_text (obj (registration c active))), c)
  with_enabled (probe adapter) c (ok active) =
      (ask_enabled (λ m. (probe_adapter (process_of c m) c.session.now).0) adapter active, c)
  with_enabled (snapshot adapter) c (ok active) =
      (ask_enabled (λ m. (snapshot_adapter (process_of c m) c.session.now).0) adapter active, c)
  with_enabled (run_one job adapter timeout poll_interval) c (ok active) =
      if is_positive timeout && is_positive poll_interval
      then run_loaded active adapter (timing_of timeout poll_interval) c (load_job c job)
      else (err bad_timing, c)
  with_enabled (other_command name) c (ok active) = (err (unknown_command name), c)
  -- The other commands do not come here.
  with_enabled command c (ok active) = (err other_exception, c)

  -- The commands that need the installed adapters.
  unfoldable pub with_installed : Command → Machine → Result Manifests → Returned × Machine
  unfolding listing validation with_enabled
  with_installed command c (err e) = (err e, c)
  with_installed (activate adapters) c (ok manifests) =
      let (r, file) = activate_adapters c.writes c.utc_now manifests adapters c.registry in
      (printed r, record c { registry = file })
  with_installed (list_adapters as_json) c (ok manifests) = (ok (0, listing c as_json manifests), c)
  with_installed (validate adapter) c (ok manifests) = (validation adapter manifests, c)
  with_installed command c (ok manifests) =
      with_enabled command c (enabled_manifests c.unregistered c.registry manifests)

  -- The `try` statement of `main`.
  unfoldable pub dispatch : Command → Machine → Returned × Machine
  unfolding with_installed
  dispatch (cancel job_id) c =
      let (r, pids) = cancel_active_job c.processes c.session.state_file c.session.lock job_id in
      (printed r, record c { signalled = pids })
  dispatch show_status c = (printed (last_state c.session.state_file), c)
  dispatch flush_outbox c =
      let (r, outbox) = flush c.session.outbox in
      (printed_counts r, record c { session = record c.session { outbox = outbox } })
  dispatch command c = with_installed command c (discover_adapters c.files (roots_of c))

  unfoldable pub main : Command → Machine → Exit × Machine
  unfolding dispatch
  main command c = let (r, after) = dispatch command c in (conclude r, after)
