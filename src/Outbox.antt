-- ===== src/Outbox.antt =====
-- `EventOutbox` of roc_adapter_runtime.py: the file of events, and their delivery to an endpoint.
pub mod Flush
use roc_robot_sdk.Base.{
  ◌||◌, eqb, ℕ, suc, ◌+◌, ◌-◌, String, Bool, false, ◌&&◌, Option, none, some, List, [], ◌∷◌, ◌++◌,
  map, ltb, leb, if◌then◌else◌, length, is_empty,
}
use roc_robot_sdk.Py.Json.{
  Json, bool, str, arr, obj, Items, nil, cons, Dict, end, field, get, put, truthy, or_else,
}
use Prim.Native.Char.{code}
use roc_robot_sdk.Failure.{event_url_required, bad_outbox_record, other_exception, Result, ok, err}

-- What a `POST` of a record comes to: a response's status, or no response.
pub data Reply : Type 0 where
  status : ℕ → Reply
  unreachable : Reply

-- A line of the file, as it was written: blank, no JSON, or a value as `json.dumps` writes it with
-- `ensure_ascii=False`.
pub data Line : Type 0 where
  blank corrupt : Line
  entry : Json → Line

-- `replies` is the environment's: the reply to each attempt, by its number. `posted` are the records
-- that were posted, in order. The file may be missing.
pub record EventOutbox : Type 0 where
  pub endpoint : String
  pub replies : ℕ → Reply
  pub posted : List Dict
  pub file : Option (List Line)

-- `200 <= response.status < 300`, and false where there is no response.
unfoldable pub is_success : Reply → Bool
is_success (status n) = leb 200 n && ltb n 300
is_success unreachable = false

-- U+0085, U+2028 and U+2029, which `json.dumps` writes as they are, and at which `splitlines` splits.
unfoldable pub has_separator : String → Bool
has_separator String.[] = false
has_separator (String.◌∷◌ c s) =
    (eqb (code c) 0x85 || (eqb (code c) 0x2028 || eqb (code c) 0x2029)) || has_separator s

unfoldable mutual
  unfolding has_separator

  -- The value's line is read back as several lines, the first of which is no JSON.
  pub splits : Json → Bool
  splits (str s) = has_separator s
  splits (arr xs) = items_split xs
  splits (obj d) = dict_splits d
  splits _ = false

  pub items_split : Items → Bool
  items_split nil = false
  items_split (cons v xs) = splits v || items_split xs

  pub dict_splits : Dict → Bool
  dict_splits end = false
  dict_splits (field key v d) = has_separator key || (splits v || dict_splits d)

-- `_deliver`
unfoldable pub deliver : EventOutbox → Dict → Bool × EventOutbox
unfolding is_success
deliver o record_value =
    (is_success (o.replies (length o.posted)), record o { posted = o.posted ++ record_value ∷ [] })

abbrev lines_of : Option (List Line) → List Line
lines_of none = []
lines_of (some lines) = lines

-- The event with its id and time; a fresh id and the present time stand in for missing ones.
unfoldable pub stamped : String → String → Dict → Dict
stamped fresh_id now_text event =
    let identified = put "eventId" (or_else (get "eventId" event) (str fresh_id)) event in
    put "occurredAt" (or_else (get "occurredAt" identified) (str now_text)) identified

-- `emit`
unfoldable pub emit : EventOutbox → String → String → Dict → EventOutbox
unfolding stamped deliver
emit o fresh_id now_text event =
    let r = stamped fresh_id now_text event in
    let (delivered, o') = if is_empty o.endpoint then (false, o) else deliver o r in
    record o' {
      file = some (lines_of o'.file ++ entry (obj (put "delivered" (bool delivered) r)) ∷ []);
    }

pub record Counts : Type 0 where
  pub total : ℕ
  pub delivered : ℕ
  pub pending : ℕ

abbrev pub is_delivered : Dict → Bool
is_delivered d = truthy (get "delivered" d)

-- A record that is not delivered is posted again.
unfoldable pub retry : EventOutbox → Dict → Dict × EventOutbox
unfolding deliver
retry o d =
    let (delivered, o') = deliver o d in
    if is_delivered d then (d, o) else (put "delivered" (bool delivered) d, o')

abbrev cons_ok : Dict → Result (List Dict) × EventOutbox → Result (List Dict) × EventOutbox
cons_ok r (ok rs, o) = (ok (r ∷ rs), o)
cons_ok r (err e, o) = (err e, o)

-- The loop of `flush` over the lines, from the number of the first.
unfoldable pub flush_lines : ℕ → List Line → EventOutbox → Result (List Dict) × EventOutbox
unfolding retry splits
flush_lines n [] o = (ok [], o)
flush_lines n (blank ∷ lines) o = flush_lines (n + 1) lines o
flush_lines n (corrupt ∷ lines) o = (err (bad_outbox_record n), o)
flush_lines n (entry (obj d) ∷ lines) o =
    let (r, o') = retry o d in
    let flushed = cons_ok r (flush_lines (n + 1) lines o') in
    if dict_splits d then (err (bad_outbox_record n), o) else flushed
flush_lines n (entry v ∷ lines) o =
    (err (if splits v then bad_outbox_record n else other_exception), o)

-- `sum(1 for record in records if record.get("delivered"))`
unfoldable pub count_delivered : List Dict → ℕ
count_delivered [] = 0
count_delivered (r ∷ rs) = if is_delivered r then suc (count_delivered rs) else count_delivered rs

pub as_entry : Dict → Line
as_entry r = entry (obj r)

unfoldable pub counts_of : List Dict → Counts
unfolding count_delivered
counts_of rs = record {
  total = length rs;
  delivered = count_delivered rs;
  pending = length rs - count_delivered rs;
}

abbrev no_records : Counts
no_records = record { total = 0; delivered = 0; pending = 0 }

-- The file is replaced only if every line was read.
unfoldable pub finish : Result (List Dict) × EventOutbox → Result Counts × EventOutbox
unfolding counts_of as_entry
finish (ok rs, o) = (ok (counts_of rs), record o { file = some (map as_entry rs) })
finish (err e, o) = (err e, o)

unfoldable pub flush_file : Option (List Line) → EventOutbox → Result Counts × EventOutbox
unfolding flush_lines finish
flush_file none o = (ok no_records, o)
flush_file (some lines) o = finish (flush_lines 1 lines o)

-- `flush`
unfoldable pub flush : EventOutbox → Result Counts × EventOutbox
unfolding flush_file
flush o = if is_empty o.endpoint then (err event_url_required, o) else flush_file o.file o
