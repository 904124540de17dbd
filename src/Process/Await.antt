-- ===== src/Process/Await.antt =====
-- The waiting loop of `request`.
use roc_robot_sdk.Base.{
  ℕ, ◌≤◌, ◌<◌, refl, inl, inr, false, List, [], ◌∷◌, ◌++◌, arith, ltb, leb, Bool-cases, All, String,
  ◌≡◌, true,
}
use roc_robot_sdk.Py.Json.{null, obj, is_true, Dict, get, is_text}
use roc_robot_sdk.Failure.{ok-injective, ok}
use mathlib.Core.Path.{subst}
use Prim.Native.Nat.{max}
use roc_robot_sdk.Manifest.{protocol}
use roc_robot_sdk.Process.{Item, value, invalid, Delivery, Answer, judge_response, judge, await}

-- The response is for the request, of the protocol, and positive.
pub record IsResponse (id : String) (d : Dict) : Type 0 where
  pub answers : is_text id (get "requestId" d) ≡ true
  pub known_protocol : is_text protocol (get "protocol" d) ≡ true
  pub positive : is_true (get "ok" d) ≡ true

judge_response-positive :
    (id : String) (d e : Dict)
    → is_text id (get "requestId" d) ≡ true
    → judge_response d ≡ ok e
    → IsResponse id e
unfolding judge_response
judge_response-positive id d e i h = elim (Bool-cases (is_text protocol (get "protocol" d))) [
  | inl p ↦ elim (Bool-cases (is_true (get "ok" d))) [
    | inl o ↦
        subst (IsResponse id) (ok-injective (rw (p, o) at h))
          (record { answers = i; known_protocol = p; positive = o })
    | inr o ↦ absurd (cc (rw (p, o) at h))
  ]
  | inr p ↦ absurd (cc (rw p at h))
]

-- What every answer satisfies: a result is a response to the request, and comes by the deadline.
pub record IsAnswer (id : String) (deadline now : ℕ) (a : Answer) : Type 0 where
  pub responds : (d : Dict) → a.result ≡ ok d → IsResponse id d
  pub in_time : a.at ≤ max now deadline
  pub no_sooner : now ≤ a.at

judge-IsAnswer :
    (id : String) (item : Item) (deadline now at : ℕ) (rest : List Delivery) (later : Answer)
    → now ≤ at
    → at ≤ max now deadline
    → IsAnswer id deadline now later
    → IsAnswer id deadline now (judge id item at rest later)
unfolding judge
judge-IsAnswer id (value (obj d)) deadline now at rest later h k l =
    elim (Bool-cases (is_text id (get "requestId" d))) [
      | inl i ↦ rw i (record {
        responds = λ e p. judge_response-positive id d e i p;
        in_time = k;
        no_sooner = h;
      })
      | inr i ↦ rw i l
    ]
judge-IsAnswer id (invalid line) deadline now at rest later h k l = record {
  responds = λ e p. cc;
  in_time = k;
  no_sooner = h;
}
judge-IsAnswer id (value null) deadline now at rest later h k l = record {
  responds = λ e p. cc;
  in_time = k;
  no_sooner = h;
}
judge-IsAnswer id (value _) deadline now at rest later h k l = record {
  responds = λ e p. cc;
  in_time = k;
  no_sooner = h;
}

-- Whatever comes into the queue: `await` returns a response only if it has the request's id, the
-- protocol and a positive `ok`, and it returns or raises by the deadline.
pub await-IsAnswer :
    (what id : String) (deadline now : ℕ) (queue : List Delivery)
    → IsAnswer id deadline now (await what id deadline now queue)
unfolding await
await-IsAnswer what id deadline now [] = record {
  responds = λ d p. cc;
  in_time = omega arith;
  no_sooner = omega arith;
}
await-IsAnswer what id deadline now ((at, item) ∷ rest) = elim (Bool-cases (leb deadline now)) [
  | inl e ↦ rw e (record { responds = λ d p. cc; in_time = omega arith; no_sooner = omega arith })
  | inr e ↦ elim (Bool-cases (ltb deadline at)) [
    | inl f ↦
        rw (e, f) (record { responds = λ d p. cc; in_time = omega arith; no_sooner = omega arith })
    | inr f ↦
        let before : now ≤ deadline = ground arith in
        let there : at ≤ deadline = ground arith in
        let i = await-IsAnswer what id deadline (max now at) rest in
        rw (e, f)
          (judge-IsAnswer id item deadline now (max now at) rest _ (omega arith) (omega arith)
            (record {
              responds = i.responds;
              in_time = omega (arith, i.in_time);
              no_sooner = omega (arith, i.no_sooner);
            }))
  ]
]

-- A response to another request.
abbrev IsStale : String → ℕ → Delivery → Type 0
IsStale id deadline (at, value (obj d)) = (at < deadline) × (is_text id (get "requestId" d) ≡ false)
IsStale id deadline (at, _) = ⊥

-- The time after the last of some deliveries.
abbrev pub time_after : ℕ → List Delivery → ℕ
time_after now [] = now
time_after now ((at, _) ∷ rest) = time_after (max now at) rest

-- Responses to other requests that come before the deadline, such as those of a request that timed
-- out, are passed over: `await` answers as if they were not in the queue.
pub await-stale :
    (what id : String) (deadline now : ℕ) (stale rest : List Delivery)
    → now < deadline
    → All (IsStale id deadline) stale
    → await what id deadline now (stale ++ rest)
      ≡ await what id deadline (time_after now stale) rest
unfolding await judge
await-stale what id deadline now [] rest h s = refl
await-stale what id deadline now ((at, value (obj d)) ∷ stale) rest h s =
    let early : leb deadline now ≡ false = ground arith in
    let there : ltb deadline at ≡ false = ground (arith, s.0) in
    rw (early, there, s.0.1)
      (await-stale what id deadline (max now at) stale rest (omega (arith, s.0)) s.1)
await-stale what id deadline now ((at, value null) ∷ stale) rest h s = absurd s.0
await-stale what id deadline now ((at, invalid line) ∷ stale) rest h s = absurd s.0
await-stale what id deadline now ((at, value _) ∷ stale) rest h s = absurd s.0
