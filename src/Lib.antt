-- ===== src/Lib.antt =====
-- A model of the adapter runtime of the ROC robot SDK, and theorems about it.
--
-- The program is roc_adapter_runtime.py, with two adapters, the reference adapter
-- adapters/mock-wheel/adapter.py and adapters/go2/runtime_adapter.py, and the HTTP bridge
-- adapters/go2/go2_bridge.py that the second adapter calls. The runtime finds adapters (a directory
-- with an adapter.json and a program each), validates their manifests, selects one for a job, starts it
-- as a process that answers requests in lines of JSON, and watches the job until it ends, fails, is
-- cancelled by a signal or times out. It records the job's state in a file, gives each change of it to
-- an outbox of events, and keeps a lock file so that one runtime is active at a time.
--
-- The files, and what of the source each is about:
--   Base.antt      Python's text operations (strip, sorted, dict.fromkeys), lists and integers
--   Py.antt        JSON values and dictionaries, floats, str and upper
--   Failure.antt   the exceptions, as values: one constructor for each message of RuntimeFailure
--   Fields.antt    the checks of text, list and dictionary fields
--   Files.antt     the file system, which is a parameter, and read_json; Files/Atomic: write_json_atomic
--   Manifest.antt  AdapterManifest, string_list, validate_manifest
--   Discover.antt  discover_adapters
--   Table.antt     dictionaries with texts as keys
--   Select.antt    select_adapter
--   Job.antt       validate_job
--   Process.antt   adapter_command, AdapterProcess: request, _read_stdout, _read_stderr, close
--   Outbox.antt    EventOutbox: emit, _deliver, flush
--   Lock.antt      _acquire_lock, _release_lock, _pid_is_active
--   Session.antt   the state of JobRuntime, its actions with exceptions, _transition
--   Runtime.antt   the try block of JobRuntime.run
--   Run.antt       the rest of JobRuntime.run: replay, lock, exception handler, finally
--   Enabled.antt   activate_adapters, enabled_manifests
--   Cancel.antt    cancel_active_job, verify_runtime_process
--   Probe.antt     probe_adapter, snapshot_adapter
--   CommandLine.antt  load_job, public_record, main
--   Wheel.antt     adapters/mock-wheel/adapter.py: handle and the main loop
--   Bridge.antt    adapters/go2/runtime_adapter.py: bridge_request, bounded_parameter, stop_active_job
--   Go2.antt       adapters/go2/runtime_adapter.py: handle and main
--   Executor.antt  adapters/go2/go2_bridge.py: the state that the threads share, the atomic operations
--     Program, Settings, Helpers, Motion, Linear, Actions, Handler, Startup, Pool: what the threads do
--     Rules, Bounds, Quiet, Threads, Performed, Requests, Exclusion, Preserved, Safety, Completion,
--     Schedule, Queue: proofs; Delivery: the Go2 adapter and the bridge together
--   Tests.antt     concrete inputs, and the theorems at them
--
-- How the state corresponds to the code. A Session holds the fields of JobRuntime, the local variables
-- last_state and start_attempted of run, the files that it writes, and its Host: what the operating
-- system and the adapter will do. The adapter's behaviour is a script of timed lines for each request,
-- the disk may fail at each transition, at the state file or at the outbox, and a signal may come at any
-- moment. An action returns a result or an exception with the
-- state that it leaves, so that what was changed before an exception stays changed. Times are whole
-- milliseconds and only requests and waits take time. A request may send its message whether or not the
-- process reads it: the attempts of a process are the messages that were written to it or failed to be.
--
-- The bridge runs a thread for each HTTP request and each motion. A thread is a Program: a tree of
-- atomic operations on the shared RobotExecutor and on processes, files and connections, with a branch
-- for each answer. A block under _motion_process_lock is one operation. A step of the bridge is the
-- arrival of a request or one operation of one thread, and the environment decides what processes, files,
-- sockets and the clock do; a reachable state is one after any sequence of steps. Theorems about a
-- program hold for every answer to each of its operations, so for every interleaving.
--
-- Bounds. Integers and floats are exact: Python's integers have no width, and a finite double is a
-- multiple of 2 ^ -1074; the mock adapter's clock counts in this unit, so that its deadlines are exact
-- sums. The one loop that is not structural is the watching loop. It gets
-- timeout / max(50, poll_interval) + 3 rounds, in milliseconds: a round that neither ends the loop nor
-- is ended by a signal waits for at least max(50, poll_interval), and a signal or the deadline ends the
-- loop in the round after it. In the bridge, products and quotients of floats are rounded to the
-- nearest double; the waiting loop of the mock mode has 41 rounds, as a round takes at least 50 ms and
-- the motion at most 2 s, and the wait for the network interface one round for each second of its
-- timeout.
--
-- The end of an adapter's process. A Child says what close will meet: whether closing the standard input
-- raises, and after which of the end of its input, SIGTERM and SIGKILL the process ends in time. An
-- exception of close leaves the finally clause of run before the handlers and the lock are restored.
--
-- Not modelled: argparse; other exceptions of _acquire_lock than its refusals; the texts of most
-- exceptions; runtimes whose calls of _acquire_lock and _release_lock overlap; the methods
-- _call_sport_method and _call_sport_method_isolated, which nothing calls; logging; the shell scripts and
-- the C++ helpers.
pub mod Base
pub mod Py
pub mod Failure
pub mod Fields
pub mod Files
pub mod Manifest
pub mod Process
pub mod Outbox
pub mod Lock
pub mod Job
pub mod Session
pub mod Table
pub mod Discover
pub mod Select
pub mod Runtime
pub mod Run
pub mod Enabled
pub mod Cancel
pub mod Probe
pub mod CommandLine
pub mod Wheel
pub mod Bridge
pub mod Go2
pub mod Executor
pub mod Tests
