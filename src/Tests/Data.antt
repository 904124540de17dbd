-- ===== src/Tests/Data.antt =====
-- The data of the tests: the adapter of adapters/mock-wheel, the job of
-- examples/mock-delivery-job.json, and the states of a runtime.
use roc_robot_sdk.Process.Close.{Child}
use roc_robot_sdk.Base.{
  ℕ, String, refl, Bool, true, false, Option, none, some, List, [], ◌∷◌, ◌++◌, eqb, ◌==◌,
  strip-strip,
}
use roc_robot_sdk.Py.Json.{Json, bool, int, str, arr, obj, nil, cons, Dict, end, field, of_texts}
use roc_robot_sdk.Py.Text.{PyText, IsCaseMap}
use roc_robot_sdk.Py.Float.{fin}
use roc_robot_sdk.Files.{FilePath, FileSystem}
use roc_robot_sdk.Manifest.{protocol, AdapterManifest}
use roc_robot_sdk.Job.{job_schema_version, Job}
use roc_robot_sdk.Process.{value, Exchange}
use roc_robot_sdk.Outbox.{unreachable}
use roc_robot_sdk.Lock.{Content}
use roc_robot_sdk.Session.{works, missing, previous, Host, Session}
use roc_robot_sdk.Discover.{Manifests}
use roc_robot_sdk.Runtime.{Timing}
use roc_robot_sdk.Base.Int.{pos}

-- Texts without lower case stay as they are.
abbrev pub caseless : PyText
caseless = record { upper = λ s. s; lower = λ s. s; show = λ v. "" }

pub caseless-IsCaseMap : IsCaseMap caseless
caseless-IsCaseMap = record {
  upper_upper = λ s. refl;
  strip_upper = strip-strip;
  is_empty_upper = λ s. refl;
}

abbrev mock_capabilities : List String
mock_capabilities = "job.cancel" ∷ "motion.linear" ∷ "navigation.obstacle-avoidance" ∷ []

abbrev wheel_json : Dict
wheel_json = field "manifestVersion" (int (pos 1)) (
    field "id" (str "mock-wheel") (
      field "displayName" (str " Mock Robot ") (
        field "version" (str "1.0.0") (
          field "platform" (str "linux") (
            field "protocol" (str protocol) (
              field "capabilities" (arr (of_texts mock_capabilities)) (
                field "jobTypes" (arr (cons (str "DELIVERY") (cons (str "PATROL") nil))) (
                  field "requires" (arr nil) (
                    field "entrypoint" (arr (cons (str "python3") (cons (str "adapter.py") nil)))
                      end)))))))))

abbrev wheel_directory : FilePath
wheel_directory = "opt" ∷ "mock-wheel" ∷ []

abbrev is_program : FilePath → Bool
is_program (a ∷ b ∷ c ∷ []) = c == "adapter.py"
is_program _ = false

-- A disk with the one adapter.
abbrev pub disk : FileSystem
disk = record {
  resolve = λ p. p;
  resolve_in = λ d token. d ++ token ∷ [];
  exists = is_program;
  is_file = is_program;
  is_dir = λ p. true;
  load = λ p. some (obj wheel_json);
  manifests_in = λ p. ("opt" ∷ "mock-wheel" ∷ "adapter.json" ∷ []) ∷ [];
  path_text = λ p. "";
}

abbrev pub wheel : AdapterManifest
wheel = record {
  adapter_id = "mock-wheel";
  display_name = "Mock Robot";
  version = "1.0.0";
  protocol_id = protocol;
  capabilities = mock_capabilities;
  job_types = "DELIVERY" ∷ "PATROL" ∷ [];
  requires = [];
  entrypoint = "python3" ∷ "adapter.py" ∷ [];
  directory = wheel_directory;
  path = "opt" ∷ "mock-wheel" ∷ "adapter.json" ∷ [];
}

abbrev pub job_json : Dict
job_json = field "schemaVersion" (str job_schema_version) (
    field "id" (str " mock-delivery-001") (
      field "idempotencyKey" (str "key-001") (
        field "type" (str "DELIVERY ") (
          field "requiredCapabilities"
            (arr (cons (str "motion.linear") (cons (str "motion.linear") nil)))
            (field "parameters" (obj end) (field "safetyPolicy" (obj end) end))))))

abbrev pub delivery : Job
delivery = record {
  schema = none;
  id = "mock-delivery-001";
  idempotency_key = "key-001";
  job_type = "DELIVERY";
  required = "motion.linear" ∷ [];
  parameters = end;
  safety_policy = end;
}

abbrev pub response : String → Dict → Json
response id rest =
    obj (field "requestId" (str id) (field "protocol" (str protocol) (field "ok" (bool true) rest)))

-- What the adapter writes about one request, so many milliseconds after the beginning.
abbrev pub answers : String → ℕ → Dict → Exchange
answers id at rest = record {
  request_id = id;
  accepts = true;
  arrivals = (at, value (response id rest)) ∷ [];
}

abbrev pub says : String → Dict
says state = field "state" (str state) end

-- The adapter starts the job, reports it as running once, and then as done.
abbrev pub good_script : List Exchange
good_script =
    answers "a" 10 (field "capabilities" (arr (of_texts mock_capabilities)) end)
    ∷ answers "b" 20 (says "RUNNING")
    ∷ answers "c" 100 (says "RUNNING")
    ∷ answers "d" 200 (says "SUCCEEDED")
    ∷ []

-- The adapter starts the job and then reports a state that there is not.
abbrev pub bad_script : List Exchange
bad_script =
    answers "a" 10 (field "capabilities" (arr (of_texts mock_capabilities)) end)
    ∷ answers "b" 20 (says "RUNNING")
    ∷ answers "c" 100 (says "PAUSED")
    ∷ answers "d" 110 (says "CANCELLED")
    ∷ []

-- It quits when its input ends.
abbrev pub calm : Child
calm = record {
  running = true;
  stdin_open = true;
  stdin_breaks = false;
  quits = true;
  obeys = true;
  dies = true;
}

abbrev pub host : List Exchange → Host
host script = record {
  pid = 7;
  alive = λ pid. eqb pid 9;
  unlinks = true;
  disk = λ n. works;
  cancel_at = none;
  spawns = true;
  script = script;
  child = calm;
  fresh_id = λ n. "id";
  now_text = λ n. "now";
  message = λ e. "failure";
}

abbrev pub idle : List Exchange → Option Content → Session
idle script lock = record {
  host = host script;
  now = 0;
  transitions = 0;
  state_file = missing;
  lock = lock;
  outbox = record { endpoint = ""; replies = λ n. unreachable; posted = []; file = none };
  events = [];
  handlers = (previous 1, previous 2);
  job = delivery;
  manifest = none;
  adapter = none;
  last_state = "";
  start_attempted = false;
}

abbrev pub timing : Timing
timing = record { timeout = 1000; poll_interval = 50; timeout_seconds = fin (pos 0) }

abbrev pub registry : Manifests
registry = ("mock-wheel", wheel) ∷ []
