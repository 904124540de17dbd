-- ===== src/Process.antt =====
-- `AdapterProcess` of roc_adapter_runtime.py: requests to an adapter's process over its standard
-- streams. Times are in milliseconds.
pub mod Await
pub mod Streams
pub mod Close
pub mod Life
use roc_robot_sdk.Py.Json.{is_true, Json, null, bool, str, obj, Dict, get, or_else, is_text}
use roc_robot_sdk.Base.{
  ℕ, ◌+◌, String, Bool, true, false, not, ◌&&◌, List, [], ◌∷◌, ◌++◌, ltb, leb, if◌then◌else◌,
}
use roc_robot_sdk.Failure.{
  cannot_start, input_closed, process_exited, response_not_object, bad_response_protocol,
  request_timed_out, invalid_json, rejected, Result, ok, err,
}
use Prim.Native.Nat.{max}
use roc_robot_sdk.Process.Close.{Child, Ending, close}
use roc_robot_sdk.Manifest.{AdapterManifest, protocol}

-- What the reading thread puts into the queue: the value of a line (`null` also stands for the end
-- of the output, as `None` does), or the exception for a line that is no JSON.
pub data Item : Type 0 where
  value : Json → Item
  invalid : String → Item

-- An item with the time at which it comes into the queue.
abbrev pub Delivery : Type 0
Delivery = ℕ × Item

-- What the process does about one request: the request's fresh id, whether its standard input takes
-- the line, and what it then writes.
pub record Exchange : Type 0 where
  pub request_id : String
  pub accepts : Bool
  pub arrivals : List Delivery

-- A process about which nothing more is laid down is silent.
abbrev pub silent : Exchange
silent = record { request_id = ""; accepts = true; arrivals = [] }

pub record Message : Type 0 where
  pub message_type : String
  pub payload : Dict

-- `spawns` and `script` are the environment's: whether the program can be started, and how it
-- answers; `child` tells how the process behaves when it is closed, and `endings` what was then done to
-- it. `attempts` are the messages that were handed to the process, the last one first.
pub record AdapterProcess : Type 0 where
  pub manifest : AdapterManifest
  pub spawns : Bool
  pub script : List Exchange
  pub started : Bool
  pub child : Child
  pub endings : List Ending
  pub responses : List Delivery
  pub attempts : List Message

-- The waiting loop's answer, with the time at which it comes and the queue that it leaves.
pub record Answer : Type 0 where
  pub result : Result Dict
  pub at : ℕ
  pub queue : List Delivery

-- The checks of a response that has the request's id.
unfoldable pub judge_response : Dict → Result Dict
judge_response d =
    if is_text protocol (get "protocol" d)
    then if is_true (get "ok" d)
      then ok d
      else err (rejected (or_else (get "error" d) (str "Adapter rejected request")))
    else err bad_response_protocol

-- What the loop does about an item; `later` is what it answers from the rest of the queue.
unfoldable pub judge : String → Item → ℕ → List Delivery → Answer → Answer
unfolding judge_response
judge id (invalid line) now rest later = record {
  result = err (invalid_json line);
  at = now;
  queue = rest;
}
judge id (value null) now rest later = record {
  result = err process_exited;
  at = now;
  queue = rest;
}
judge id (value (obj d)) now rest later =
    if is_text id (get "requestId" d)
    then record { result = judge_response d; at = now; queue = rest }
    else later
judge id (value _) now rest later = record {
  result = err response_not_object;
  at = now;
  queue = rest;
}

-- The loop of `request`: it waits for the response with the id until the deadline.
unfoldable pub await : String → String → ℕ → ℕ → List Delivery → Answer
unfolding judge
await what id deadline now [] = record {
  result = err (request_timed_out what);
  at = max now deadline;
  queue = [];
}
await what id deadline now ((at, item) ∷ rest) =
    let late : Answer = record {
      result = err (request_timed_out what);
      at = max now deadline;
      queue = (at, item) ∷ rest;
    } in
    let later = await what id deadline (max now at) rest in
    if leb deadline now
    then late
    else if ltb deadline at
    then late
    else judge id item (max now at) rest later

unfoldable pub next_exchange : List Exchange → Exchange
next_exchange [] = silent
next_exchange (x ∷ xs) = x

unfoldable pub later_exchanges : List Exchange → List Exchange
later_exchanges [] = []
later_exchanges (x ∷ xs) = xs

-- The process after a message was handed to it.
unfoldable pub after_send : AdapterProcess → Message → AdapterProcess
unfolding later_exchanges
after_send p m = record p {
  started = true;
  script = later_exchanges p.script;
  attempts = m ∷ p.attempts;
}

-- `request`, at the time `now`: the result, the time after it, and the process.
unfoldable pub request : AdapterProcess → ℕ → String → ℕ → Dict → Result Dict × ℕ × AdapterProcess
unfolding await next_exchange after_send
request p now message_type timeout payload =
    let exchange = next_exchange p.script in
    let sent = after_send p (record { message_type = message_type; payload = payload }) in
    let answer =
      await message_type exchange.request_id (now + timeout) now
        (p.responses ++ exchange.arrivals) in
    if not p.started && not p.spawns
    then (err cannot_start, now, p)
    else if exchange.accepts
    then (answer.result, answer.at, record sent { responses = answer.queue })
    else (err input_closed, now, sent)

-- `AdapterProcess(manifest)`
abbrev pub new_process : AdapterManifest → Bool → List Exchange → Child → AdapterProcess
new_process manifest spawns script child = record {
  manifest = manifest;
  spawns = spawns;
  script = script;
  started = false;
  child = child;
  endings = [];
  responses = [];
  attempts = [];
}

-- `close`; where no process was started there is nothing to do.
unfoldable pub close_process : AdapterProcess → Result (Unit {0}) × AdapterProcess
unfolding close
close_process p =
    let (r, endings) = close p.child in
    if p.started then (r, record p { endings = endings }) else (ok tt, p)
