-- ===== src/Executor/Preserved.antt =====
-- A step of the bridge of adapters/go2/go2_bridge.py, and the invariant of Executor/Exclusion.antt.
use roc_robot_sdk.Base.{
  sym, ap, ◌∙◌, inl, inr, Bool-cases, suc, arith, ℕ, ◌+◌, ◌≡◌, refl, Bool, true, false, List, ◌∷◌,
  ◌++◌,
}
use mathlib.Core.Path.{subst}
use roc_robot_sdk.Executor.Pool.{
  Bridge, Step, arrive, turn, Reach, start, later, Turn, own, other, begun,
}
use roc_robot_sdk.Executor.Exclusion.{
  no_command, Inv, serving, handle_request-Ends, AllLimited, and_limited, task_stage, run_task-Ends,
  Ends, Claims, no_thread, free, holder, claims_of,
}
use roc_robot_sdk.Executor.Rules.{Obeys, Stage, next, IsAllowed, Follows}
use roc_robot_sdk.Executor.{
  is_active, run_command, wait_cancel, linear_motion, patrol_inspection, Op, claim_motion,
  release_motion, start_thread, launch, respond, Answer, Input, RobotExecutor, perform,
}
use roc_robot_sdk.Executor.Program.{act, Code}
use roc_robot_sdk.Executor.Handler.{Server}
use roc_robot_sdk.Executor.Bounds.{IsSafe}
use roc_robot_sdk.Py.Text.{PyText}

abbrev with_claim : Bool → ℕ → ℕ
with_claim true n = suc n
with_claim false n = n

cons-Claims :
    {n : ℕ} {thread : Code (Unit {0})} {ts : List (Code (Unit {0}))} (m : Stage) (b : Bool)
    → m.holds ≡ b
    → Follows Ends m thread
    → Claims n ts
    → Claims (with_claim b n) (thread ∷ ts)
cons-Claims m true h f c = holder m h f c
cons-Claims m false h f c = free m h f c

-- The first thread's stage, and the claims of the others.
record Split (n : ℕ) (thread : Code (Unit {0})) (ts : List (Code (Unit {0}))) : Type 0 where
  stage : Stage
  others : ℕ
  first : Follows Ends stage thread
  rest : Claims others ts
  total : n ≡ with_claim stage.holds others

Claims-Split :
    {n : ℕ} {thread : Code (Unit {0})} {ts : List (Code (Unit {0}))}
    → Claims n (thread ∷ ts)
    → Split n thread ts
Claims-Split (free {n} m h f c) = record {
  stage = m;
  others = n;
  first = f;
  rest = c;
  total = rw h refl;
}
Claims-Split (holder {n} m h f c) = record {
  stage = m;
  others = n;
  first = f;
  rest = c;
  total = rw h refl;
}

shifted :
    (b c : Bool) (k extra : ℕ)
    → with_claim b (with_claim c k) + extra ≡ with_claim b (with_claim c (k + extra))
shifted true true k extra = omega arith
shifted true false k extra = omega arith
shifted false true k extra = omega arith
shifted false false k extra = refl

-- Whether a thread is started that begins with the claim.
abbrev begins_claim : (o : Op) → Answer o → Bool
begins_claim (start_thread (linear_motion action distance seconds)) true = true
begins_claim o a = false

perform-count :
    (o : Op) (input : Input o) (e : RobotExecutor) (m : Stage) (k : ℕ)
    → IsAllowed m o
    → with_claim m.holds k ≡ claims_of e.linear_motion_pending
    → with_claim
        (next m o (perform o input e).0).holds
        (with_claim (begins_claim o (perform o input e).0) k)
      ≡ claims_of (perform o input e).1.linear_motion_pending
unfolding perform
perform-count claim_motion input e m k h q = ground arith
perform-count release_motion input e m k h q = ground arith
perform-count (start_thread (linear_motion _ _ _)) true e m k h q = ground (arith, h.0)
perform-count (start_thread (linear_motion _ _ _)) false e m k h q = q
perform-count (start_thread (patrol_inspection _ _)) input e m k h q = q
perform-count (launch c) input e m k h q = ground arith
perform-count (respond code payload) input e m k h q = ground arith
perform-count (wait_cancel) input e m k h q = ground arith
perform-count o input e m k h q = q

perform-AllLimited :
    (o : Op) (input : Input o) (e : RobotExecutor) (m : Stage)
    → IsAllowed m o
    → AllLimited e.launched
    → AllLimited (perform o input e).1.launched
unfolding perform
perform-AllLimited (launch c) true e m h l = and_limited h.0 l
perform-AllLimited (launch c) false e m h l = l
perform-AllLimited (run_command c seconds) input e m h l = and_limited h.0 l
perform-AllLimited claim_motion input e m h l = elim (Bool-cases (is_active e input)) [
  | inl active ↦ rw active l
  | inr quiet ↦ rw quiet l
]
perform-AllLimited (respond code payload) true e m h l = l
perform-AllLimited (respond code payload) false e m h l = l
perform-AllLimited o input e m h l = l

module _ (server : Server) ⦃t : PyText⦄ (safe : IsSafe server.settings) where
  begun-Claims :
      (o : Op) (a : Answer o) (m : Stage) (n : ℕ) {ts : List (Code (Unit {0}))}
      → IsAllowed m o
      → Claims n ts
      → Claims (with_claim (begins_claim o a) n) (begun server o a ++ ts)
  begun-Claims (start_thread (linear_motion action distance seconds)) true m n h c =
      holder (task_stage (linear_motion action distance seconds)) refl
        (run_task-Ends server.settings (linear_motion action distance seconds) safe h.2) c
  begun-Claims (start_thread (linear_motion action distance seconds)) false m n h c = c
  begun-Claims (start_thread (patrol_inspection distance seconds)) true m n h c =
      free (task_stage (patrol_inspection distance seconds)) refl
        (run_task-Ends server.settings (patrol_inspection distance seconds) safe tt) c
  begun-Claims (start_thread (patrol_inspection distance seconds)) false m n h c = c
  begun-Claims o a m n h c = c

  -- The claims after a turn, where `extra` claims are those of other threads.
  record Turned (extra : ℕ) (e' : RobotExecutor) (ts' : List (Code (Unit {0}))) : Type 0 where
    total : ℕ
    claims : Claims total ts'
    count : total + extra ≡ claims_of e'.linear_motion_pending
    limited : AllLimited e'.launched

  own-Turned :
      (e : RobotExecutor) {ts : List (Code (Unit {0}))} (n extra : ℕ) (o : Op)
      (k : Answer o → Code (Unit {0})) (input : Input o)
      → Split n (act o k) ts
      → n + extra ≡ claims_of e.linear_motion_pending
      → AllLimited e.launched
      → Turned extra
          (perform o input e).1
          (k (perform o input e).0 ∷ (begun server o (perform o input e).0 ++ ts))
  unfolding Obeys
  own-Turned e n extra o k input s q l = record {
    total = _;
    claims =
        cons-Claims (next s.stage o (perform o input e).0) _ refl
          (record { obeys = s.first.obeys.1 (perform o input e).0 })
          (begun-Claims o (perform o input e).0 s.stage s.others s.first.obeys.0 s.rest);
    count =
        shifted (next s.stage o (perform o input e).0).holds (begins_claim o (perform o input e).0)
          s.others extra
        ∙ perform-count o input e s.stage (s.others + extra) s.first.obeys.0 (
            sym (shifted s.stage.holds false s.others extra)
            ∙ (ap (λ (j : ℕ). j + extra) (sym s.total) ∙ q));
    limited = perform-AllLimited o input e s.stage s.first.obeys.0 l;
  }

  Turn-Turned :
      {e e' : RobotExecutor} {ts ts' : List (Code (Unit {0}))} (n extra : ℕ)
      → Turn server e ts e' ts'
      → Claims n ts
      → n + extra ≡ claims_of e.linear_motion_pending
      → AllLimited e.launched
      → Turned extra e' ts'
  Turn-Turned {e} n extra (own o k input) c q l =
      own-Turned e n extra o k input (Claims-Split c) q l
  Turn-Turned n extra (other thread t) (free m h f c) q l =
      let after = Turn-Turned n extra t c q l in
      record {
        total = after.total;
        claims = free m h f after.claims;
        count = after.count;
        limited = after.limited;
      }
  Turn-Turned n extra (other thread t) (holder {n = k} m h f c) q l =
      let after = Turn-Turned k (suc extra) t c (omega (arith, q)) l in
      record {
        total = suc after.total;
        claims = holder m h f after.claims;
        count = omega (arith, after.count);
        limited = after.limited;
      }

  pub Step-Inv : {b c : Bridge} → Step server b c → Inv b → Inv c
  Step-Inv (arrive request) inv = record {
    claims = free serving refl (handle_request-Ends server request) inv.claims;
    limited = inv.limited;
  }
  Step-Inv (turn {e'} {ts'} t) inv =
      let after = Turn-Turned _ 0 t inv.claims (omega arith) inv.limited in
      record {
        claims = subst (λ j. Claims j ts') (omega (arith, after.count)) after.claims;
        limited = after.limited;
      }

  pub Reach-Inv : {b : Bridge} → Reach server b → Inv b
  Reach-Inv (start now sdk) = record { claims = no_thread; limited = no_command }
  Reach-Inv (later r s) = Step-Inv s (Reach-Inv r)
