-- ===== src/Session.antt =====
-- The state of `JobRuntime` in roc_adapter_runtime.py while it runs a job, its actions that may raise,
-- and `_transition`. Times are in milliseconds.
pub mod Triple
use roc_robot_sdk.Failure.{Failure, Result, ok, err, other_exception}
use roc_robot_sdk.Base.{
  ℕ, ◌+◌, String, Bool, false, Option, none, some, List, ◌∷◌, leb, if◌then◌else◌,
}
use roc_robot_sdk.Base.Int.{pos}
use roc_robot_sdk.Py.Json.{Json, null, int, str, obj, Dict, end, field, or_else}
use Prim.Native.Nat.{max}
use roc_robot_sdk.Manifest.{AdapterManifest, protocol}
use roc_robot_sdk.Job.{Job, to_dict}
use roc_robot_sdk.Lock.{Content}
use roc_robot_sdk.Outbox.{EventOutbox, emit}
use roc_robot_sdk.Process.Close.{Child}
use roc_robot_sdk.Process.{AdapterProcess, Exchange, request}

-- What a `_transition` meets: it may fail to write the state file, or the outbox.
pub data Disk : Type 0 where
  works state_fails outbox_fails : Disk

pub data StateFile : Type 0 where
  missing unreadable : StateFile
  holds : Json → StateFile

-- A signal's handler: the one of before, or the runtime's.
pub data Handler : Type 0 where
  previous : ℕ → Handler
  handle_signal : Handler

-- The environment of a run: this process and the others, the disk at each transition, the moment of
-- a SIGINT or SIGTERM, the adapter's behaviour, and what `uuid4` and `utc_now` return.
pub record Host : Type 0 where
  pub pid : ℕ
  -- `os.kill(pid, 0)` of this process succeeds
  pub alive : ℕ → Bool
  -- removing the lock file succeeds
  pub unlinks : Bool
  pub disk : ℕ → Disk
  pub cancel_at : Option ℕ
  pub spawns : Bool
  pub script : List Exchange
  pub child : Child
  pub fresh_id : ℕ → String
  pub now_text : ℕ → String
  -- `str` of an exception
  pub message : Failure → String

pub record Event : Type 0 where
  pub state : String
  pub detail : Json

-- `events` are those that this run has emitted, the last one first. `transitions` counts the
-- attempts at a transition.
pub record Session : Type 0 where
  pub host : Host
  pub now : ℕ
  pub transitions : ℕ
  pub state_file : StateFile
  pub lock : Option Content
  pub outbox : EventOutbox
  pub events : List Event
  pub handlers : Handler × Handler
  pub job : Job
  pub manifest : Option AdapterManifest
  pub adapter : Option AdapterProcess
  pub last_state : String
  pub start_attempted : Bool

-- What was changed before an exception stays changed.
abbrev pub Action : Type 0 → Type 0
Action A = Session → Result A × Session

module _ {A B : Type 0} where
  abbrev pub continue : Result A → (A → Action B) → Action B
  continue (ok a) f s = f a s
  continue (err e) f s = (err e, s)

  infixl 5 ◌>>=◌ ◌>>◌
  unfoldable pub ◌>>=◌ : Action A → (A → Action B) → Action B
  ◌>>=◌ m f s = let (r, s') = m s in continue r f s'

  abbrev pub ◌>>◌ : Action A → Action B → Action B
  m >> n = m >>= λ _. n

module _ {A : Type 0} where
  unfoldable pub pure : A → Action A
  pure a s = (ok a, s)

  unfoldable pub lift : Result A → Action A
  lift r s = (r, s)

  unfoldable pub gets : (Session → A) → Action A
  gets f s = (ok (f s), s)

unfoldable pub modify : (Session → Session) → Action (Unit {0})
modify f s = (ok tt, f s)

unfoldable pub set_state : String → Action (Unit {0})
set_state state s = (ok tt, record s { last_state = state })

abbrev adapter_id_of : Option AdapterManifest → Json
adapter_id_of none = null
adapter_id_of (some m) = str m.adapter_id

-- The record that `_transition` writes to the state file.
unfoldable pub state_record : Session → String → Json → Dict
state_record s state detail = field "protocol" (str protocol) (
    field "jobId" (str s.job.id) (
      field "jobType" (str s.job.job_type) (
        field "idempotencyKey" (str s.job.idempotency_key) (
          field "adapterId" (adapter_id_of s.manifest) (
            field "state" (str state) (
              field "pid" (int (pos s.host.pid))
                (field "updatedAt" (str (s.host.now_text s.now)) (field "detail" detail end))))))))

-- The event that `_transition` gives to the outbox.
unfoldable pub event_record : Session → String → Json → Dict
event_record s state detail = field "type" (str "job.state.changed") (
    field "jobId" (str s.job.id) (
      field "jobType" (str s.job.job_type) (
        field "idempotencyKey" (str s.job.idempotency_key) (
          field "adapterId" (adapter_id_of s.manifest)
            (field "state" (str state) (field "detail" detail end))))))

unfoldable pub wrote_state : Session → String → Json → Session
unfolding state_record
wrote_state s state detail = record s {
  state_file = holds (obj (state_record s state detail));
  transitions = s.transitions + 1;
}

unfoldable pub emitted : Session → String → Json → Session
unfolding event_record
emitted s state detail = record s {
  outbox =
      emit s.outbox (s.host.fresh_id s.transitions) (s.host.now_text s.now)
        (event_record s state detail);
  events = record { state = state; detail = detail } ∷ s.events;
}

-- The event has been posted, if there is an endpoint, but it could not be added to the file.
abbrev lost : Session → String → Json → Session
lost s state detail =
    let o = (emitted s state detail).outbox in
    record s { outbox = record o { file = s.outbox.file } }

abbrev pub transition_on : Disk → String → Json → Action (Unit {0})
transition_on works state detail s = (ok tt, emitted (wrote_state s state detail) state detail)
transition_on state_fails state detail s =
    (err other_exception, record s { transitions = s.transitions + 1 })
transition_on outbox_fails state detail s =
    (err other_exception, lost (wrote_state s state detail) state detail)

-- `_transition`
unfoldable pub transition : String → Json → Action (Unit {0})
unfolding wrote_state emitted
transition state detail s =
    transition_on (s.host.disk s.transitions) state (or_else detail (obj end)) s

abbrev pub call_on : Option AdapterProcess → String → ℕ → Dict → Action Dict
call_on none message_type timeout payload s = (err other_exception, s)
call_on (some p) message_type timeout payload s =
    let (r, now', p') = request p s.now message_type timeout payload in
    (r, record s { now = now'; adapter = some p' })

-- `self.adapter.request`
unfoldable pub call : String → ℕ → Dict → Action Dict
call message_type timeout payload s = call_on s.adapter message_type timeout payload s

-- The signal of that moment has come.
abbrev pub signalled : Option ℕ → ℕ → Bool
signalled none now = false
signalled (some at) now = leb at now

-- `self.cancel_requested.is_set()`
unfoldable pub cancelled : Session → Bool
cancelled s = signalled s.host.cancel_at s.now

abbrev pub woken : Option ℕ → ℕ → ℕ → ℕ
woken none now wake = wake
woken (some at) now wake = if leb at wake then max now at else wake

-- `self.cancel_requested.wait`: until the signal, or for so long.
unfoldable pub pause : ℕ → Action (Unit {0})
pause ms s = (ok tt, record s { now = woken s.host.cancel_at s.now (s.now + ms) })
