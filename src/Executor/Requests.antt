-- ===== src/Executor/Requests.antt =====
-- The threads of requests in adapters/go2/go2_bridge.py under the rules of Executor/Rules.antt.
use roc_robot_sdk.Executor.Rules.{
  IsServing, Stage, Obeys, Follows, Follows-sequence, OnReturn, Quiet, Any, Quiet-pure, Quiet-raise,
  Quiet-if, Quiet-op, Quiet-then,
}
use roc_robot_sdk.Executor.Performed.{status-Quiet, execute_action-Quiet}
use roc_robot_sdk.Py.Json.{get, null, bool, int, str, arr, obj, float, Dict, Json}
use roc_robot_sdk.Base.{
  ◌||◌, Option, is_empty, none, some, ℕ, suc, String, ◌≡◌, refl, sym, Bool, true, false,
  if◌then◌else◌, ◌==◌,
}
use roc_robot_sdk.Executor.{
  bad_payload, bad_length, Upstream, answered, http_error, unreachable, forward, Trouble, Body,
}
use roc_robot_sdk.Executor.Program.{
  Attempt, returned, raised, Code, sequence, passing, ◌>>=◌, attempt, on_trouble,
}
use roc_robot_sdk.Executor.Actions.{status}
use roc_robot_sdk.Executor.Handler.{
  Request, Server, path_of, send_json, parsed_length, content_length, read_json, unreachable_reply,
  passed_back, proxy, payload_fields, action_body, action_failure, cancel_body, do_get, do_post,
  handle_request, send,
}
use roc_robot_sdk.Executor.Quiet.{attempt_of-Quiet}
use mathlib.Core.Path.{subst}
use roc_robot_sdk.Py.Text.{PyText}

-- A request that ends well has been answered; one that raises has not.
abbrev pub Answers : {A : Type 0} → Stage → Stage → Attempt A → Type 0
Answers m m' (returned a) = m' ≡ record m { answers = suc m.answers }
Answers m m' (raised e) = m' ≡ m

module _ {A B : Type 0} {P : A → Type 0} {m : Stage} where
  Answers-bind :
      (p : Code A) (f : A → Code B)
      → Quiet P m p
      → ((a : A) → P a → Follows (Answers m) m (f a))
      → Follows (Answers m) m (p >>= f)
  unfolding ◌>>=◌ Obeys
  Answers-bind p f h k =
      Follows-sequence p (passing f) h
        λ m' r q. subst (λ n. Follows (Answers m) n (passing f r)) (sym q.0) (passing-Answers r q.1)
    where
      passing-Answers : (r : Attempt A) → OnReturn P r → Follows (Answers m) m (passing f r)
      passing-Answers (returned a) x = k a x
      passing-Answers (raised e) x = record { obeys = refl }

module _ {m : Stage} where
  Answers-attempt :
      (p : Code (Unit {0})) (f : Trouble → Code (Unit {0}))
      → Follows (Answers m) m p
      → ((e : Trouble) → Follows (Answers m) m (f e))
      → Follows (Answers m) m (attempt p (on_trouble f))
  unfolding attempt Obeys
  Answers-attempt p f h k = Follows-sequence p (on_trouble f) h handled
    where
      handled :
          (m' : Stage) (r : Attempt (Unit {0}))
          → Answers m m' r
          → Follows (Answers m) m' (on_trouble f r)
      handled m' (returned a) q = record { obeys = q }
      handled m' (raised e) q =
          subst (λ n. Follows (Answers m) n (on_trouble f (raised e))) (sym q) (k e)

  Answers-if :
      {A : Type 0} (b : Bool) (p q : Code A)
      → Follows (Answers m) m p
      → Follows (Answers m) m q
      → Follows (Answers m) m (if b then p else q)
  Answers-if true p q h k = h
  Answers-if false p q h k = k

  send-Answers :
      (status : ℕ) (payload : Body) → m.answers ≡ 0 → Follows (Answers m) m (send status payload)
  unfolding send ◌>>=◌ sequence Obeys
  send-Answers status payload h = record { obeys = (h, elim [ true ↦ refl | false ↦ refl ]) }

module _ {m : Stage} (server : Server) ⦃t : PyText⦄ where
  parsed_length-Quiet : (text : Option String) → Quiet Any m (parsed_length server text)
  parsed_length-Quiet none = Quiet-pure _ tt
  parsed_length-Quiet (some text) =
      Quiet-if (is_empty text) _ _ (Quiet-pure _ tt)
        (attempt_of-Quiet (server.parse_int text) bad_length)

  read_json-Quiet : (request : Request) → Quiet Any m (read_json server request)
  unfolding read_json content_length
  read_json-Quiet request = Quiet-then _ _ (parsed_length-Quiet _) λ length.
      Quiet-if _ _ _ (Quiet-pure _ tt)
        (attempt_of-Quiet (server.parse_json request.body) bad_payload)

  payload_fields-Quiet : (v : Json) → Quiet Any m (payload_fields server v)
  payload_fields-Quiet (obj d) = Quiet-pure d tt
  payload_fields-Quiet null = Quiet-raise _
  payload_fields-Quiet (bool b) = Quiet-raise _
  payload_fields-Quiet (int k) = Quiet-raise _
  payload_fields-Quiet (float f) = Quiet-raise _
  payload_fields-Quiet (str s) = Quiet-raise _
  payload_fields-Quiet (arr xs) = Quiet-raise _

  module _ (fresh : m.answers ≡ 0) where
    send_json-Answers :
        (status : ℕ) (payload : Dict) → Follows (Answers m) m (send_json status payload)
    unfolding send_json
    send_json-Answers status payload = send-Answers status _ fresh

    passed_back-Answers :
        (upstream : Upstream) → Follows (Answers m) m (passed_back server upstream)
    unfolding passed_back unreachable_reply
    passed_back-Answers (answered status content_type content) =
        Answers-attempt _ _ (send-Answers status _ fresh) λ e. send_json-Answers 502 _
    passed_back-Answers (http_error status content_type content) = send-Answers status _ fresh
    passed_back-Answers unreachable = send_json-Answers 502 _

    proxy-Answers : (request : Request) → Follows (Answers m) m (proxy server request)
    unfolding proxy content_length
    proxy-Answers request = Answers-bind _ _ (parsed_length-Quiet _) λ length _.
        Answers-bind _ _ (Quiet-op (forward _) tt λ a. refl)
          λ upstream _. passed_back-Answers upstream

    do_get-Answers : (request : Request) → Follows (Answers m) m (do_get server request)
    unfolding do_get
    do_get-Answers request =
        Answers-if (path_of request.target == "/api/v1/status") _ _
          (Answers-bind _ _ (status-Quiet server.settings) λ report _. send_json-Answers 200 report)
          (proxy-Answers request)

    action_body-Answers :
        (request : Request) → IsServing m → Follows (Answers m) m (action_body server request)
    unfolding action_body
    action_body-Answers request h = Answers-bind _ _ (read_json-Quiet request) λ value _.
        Answers-bind _ _ (payload_fields-Quiet value) λ payload _.
          Answers-bind _ _
            (execute_action-Quiet server.settings (get "action" payload) (get "meters" payload)
              (get "seconds" payload) (get "yawRate" payload) h)
            λ result _. send_json-Answers _ result

    do_post-Answers :
        (request : Request) → IsServing m → Follows (Answers m) m (do_post server request)
    unfolding do_post action_failure cancel_body
    do_post-Answers request h =
        Answers-if (path_of request.target == "/api/v1/action") _ _
          (Answers-attempt _ _ (action_body-Answers request h) λ e. send_json-Answers 500 _)
          (Answers-if (path_of request.target == "/api/v1/cancel") _ _
            (Answers-bind _ _ (read_json-Quiet request) λ value _.
              Answers-bind _ _ (execute_action-Quiet server.settings (str "STOP") null null null h)
                λ result _. send_json-Answers 200 _)
            (proxy-Answers request))

    -- At the stage of a request's thread that has not answered, and whatever other threads do: the
    -- thread answers exactly once if it ends well and not at all if it raises, keeps no claim on
    -- linear motions, and starts only commands within the limits.
    pub handle_request-Answers :
        (request : Request) → IsServing m → Follows (Answers m) m (handle_request server request)
    unfolding handle_request
    handle_request-Answers request h =
        Answers-if (request.method == "GET") _ _ (do_get-Answers request) (
          Answers-if (request.method == "POST") _ _ (do_post-Answers request h) (
            Answers-if (request.method == "PUT" || request.method == "DELETE") _ _
              (proxy-Answers request) (send-Answers 501 _ fresh)))
