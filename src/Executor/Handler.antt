-- ===== src/Executor/Handler.antt =====
-- `BridgeHandler` of adapters/go2/go2_bridge.py: what a thread does for one HTTP request. The path is
-- that of a target which begins with one slash.
use roc_robot_sdk.Base.{
  ℕ, String, ◌||◌, Option, none, some, List, [], ◌∷◌, eqb, if◌then◌else◌, length, ◌==◌, is_empty,
  mem,
}
use roc_robot_sdk.Executor.{
  Trouble, bad_payload, bad_length, client_gone, upstream_unreachable, Body, json_body, raw_body,
  Upstream, answered, http_error, unreachable, respond, forward,
}
use roc_robot_sdk.Executor.Program.{Code, pure, raise, op, ◌>>=◌, ◌>>◌, attempt, on_trouble}
use roc_robot_sdk.Executor.Helpers.{attempt_of}
use roc_robot_sdk.Executor.Settings.{Settings}
use roc_robot_sdk.Executor.Actions.{reply, execute_action, status}
use roc_robot_sdk.Base.Int.{ℤ, pos, leb_ℤ, eqb_ℤ}
use roc_robot_sdk.Py.Json.{Json, null, str, obj, Dict, end, get, is_number}
use Prim.Native.Char.{code}
use Prim.Native.String.{◌++◌ as text_append}
use roc_robot_sdk.Py.Text.{PyText}

-- A request: `body` is what reading the declared number of bytes gives.
pub record Request : Type 0 where
  pub method : String
  pub target : String
  pub headers : List (String × String)
  pub body : String

-- `int` of a text and `json.loads` of the decoded body, none where they raise, and the URL of the
-- upstream service; `unsupported` is the page that the server sends for a method without handler.
pub record Server : Type 0 where
  pub settings : Settings
  pub parse_int : String → Option ℤ
  pub parse_json : String → Option Json
  pub real_server_url : String
  pub unsupported : String → String

-- The path of a target ends before its query or its fragment.
unfoldable pub path_of : String → String
path_of String.[] = String.[]
path_of (String.◌∷◌ c rest) =
    let path = path_of rest in
    if eqb (code c) 63 || eqb (code c) 35 then String.[] else String.◌∷◌ c path

-- `_send_json` and the other responses: a write to a client that is gone raises.
unfoldable pub send : ℕ → Body → Code (Unit {0})
unfolding ◌>>=◌
send status payload =
    op (respond status payload) >>= λ reads. if reads then pure tt else raise client_gone

unfoldable pub send_json : ℕ → Dict → Code (Unit {0})
unfolding send
send_json status payload = send status (json_body (obj payload))

abbrev content_type_of : Option String → String
content_type_of none = "application/json; charset=utf-8"
content_type_of (some content_type) = content_type

module _ (server : Server) ⦃t : PyText⦄ where
  -- `self.headers.get(name)`, whatever the case of the name.
  unfoldable pub header : String → List (String × String) → Option String
  header name [] = none
  header name ((key, value) ∷ headers) =
      if t.lower key == t.lower name then some value else header name headers

  -- `int(self.headers.get('Content-Length') or 0)`
  abbrev pub parsed_length : Option String → Code ℤ
  parsed_length none = pure (pos 0)
  parsed_length (some text) =
      if is_empty text then pure (pos 0) else attempt_of (server.parse_int text) bad_length

  unfoldable pub content_length : Request → Code ℤ
  unfolding header
  content_length request = parsed_length (header "Content-Length" request.headers)

  unfoldable pub read_json : Request → Code Json
  unfolding content_length ◌>>=◌
  read_json request = do
    length ← content_length request
    if leb_ℤ length (pos 0) || is_empty request.body
        then pure (obj end)
        else attempt_of (server.parse_json request.body) bad_payload

  -- The headers that are passed on.
  unfoldable pub passed_on : List (String × String) → List (String × String)
  passed_on [] = []
  passed_on ((key, value) ∷ headers) =
      let rest = passed_on headers in
      if mem (t.lower key) ("host" ∷ "content-length" ∷ "connection" ∷ [])
      then rest
      else (key, value) ∷ rest

  unfoldable pub unreachable_reply : Trouble → Code (Unit {0})
  unfolding send_json
  unreachable_reply e = send_json 502 (
      reply 502 (text_append "Upstream ROC service unreachable: " (server.settings.describe e)) end)

  -- The answer of the upstream service; the client may be gone when it is passed on.
  unfoldable pub passed_back : Upstream → Code (Unit {0})
  unfolding send unreachable_reply attempt
  passed_back (answered status content_type content) =
      attempt (send status (raw_body (content_type_of content_type) content))
        (on_trouble unreachable_reply)
  passed_back (http_error status content_type content) =
      send status (raw_body (content_type_of content_type) content)
  passed_back unreachable = unreachable_reply upstream_unreachable

  unfoldable pub proxy : Request → Code (Unit {0})
  unfolding content_length passed_on passed_back ◌>>=◌
  proxy request = do
    length ← content_length request
    upstream ← op (
        forward (record {
          method = request.method;
          path = text_append server.real_server_url request.target;
          headers = passed_on request.headers;
          body = if eqb_ℤ length (pos 0) then none else some request.body;
        }))
    passed_back upstream

  -- `payload.get`, which only a dictionary has.
  abbrev pub payload_fields : Json → Code Dict
  payload_fields (obj d) = pure d
  payload_fields v = raise bad_payload

  -- The block of `try` of an action request.
  unfoldable pub action_body : Request → Code (Unit {0})
  unfolding read_json get execute_action is_number send_json ◌>>=◌
  action_body request = do
    value ← read_json request
    payload ← payload_fields value
    result ←
        execute_action server.settings (get "action" payload) (get "meters" payload)
          (get "seconds" payload) (get "yawRate" payload)
    send_json (if is_number 200 (get "code" result) then 200 else 500) result

  unfoldable pub action_failure : Trouble → Code (Unit {0})
  unfolding send_json
  action_failure e = send_json 500 (reply 500 (server.settings.describe e) end)

  unfoldable pub cancel_body : Request → Code (Unit {0})
  unfolding read_json execute_action send_json ◌>>=◌
  cancel_body request = do
    read_json request
    execute_action server.settings (str "STOP") null null null
    send_json 200 (reply 200 "Task cancelled and robot stopped" end)

  unfoldable pub do_get : Request → Code (Unit {0})
  unfolding path_of status send_json proxy ◌>>=◌
  do_get request =
      if path_of request.target == "/api/v1/status"
      then (status server.settings >>= λ report. send_json 200 report)
      else proxy request

  unfoldable pub do_post : Request → Code (Unit {0})
  unfolding path_of action_body action_failure cancel_body proxy attempt
  do_post request =
      if path_of request.target == "/api/v1/action"
      then attempt (action_body request) (on_trouble action_failure)
      else if path_of request.target == "/api/v1/cancel"
      then cancel_body request
      else proxy request

  -- The method of the handler for a request; `do_PUT` and `do_DELETE` pass it on, and for any other
  -- method the server sends 501.
  unfoldable pub handle_request : Request → Code (Unit {0})
  unfolding do_get do_post proxy send
  handle_request request =
      if request.method == "GET"
      then do_get request
      else if request.method == "POST"
      then do_post request
      else if request.method == "PUT" || request.method == "DELETE"
      then proxy request
      else send 501 (raw_body "text/html;charset=utf-8" (server.unsupported request.method))
