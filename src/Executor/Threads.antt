-- ===== src/Executor/Threads.antt =====
-- The motion threads of adapters/go2/go2_bridge.py under the rules of Executor/Rules.antt.
use roc_robot_sdk.Executor.Rules.{
  IsServing, Follows, Follows-sequence, Stage, IsDistance, Obeys, Quiet, Any, Quiet-pure,
  Quiet-raise, Quiet-if, Quiet-op, Quiet-attempt, Quiet-bind, Quiet-finally, Quiet-then,
}
use roc_robot_sdk.Base.{
  sym, ◌==◌, ap, ◌∙◌, false, ltb, ℕ, zero, suc, ◌≤◌, String, ◌≡◌, refl, Bool, true, arith,
}
use roc_robot_sdk.Executor.Linear.{
  moved, queue_linear_motion, run_linear_motion, run_patrol_inspection, stop_quietly, report_motion,
  mock_wait, raised_as, to_number, speed_of, milliseconds, duration_ms_of, mock_motion, linear_body,
  patrol_body,
}
use roc_robot_sdk.Py.Float.{of_ℕ, Float}
use roc_robot_sdk.Py.Json.{float, or_else, Json}
use roc_robot_sdk.Executor.{
  clear_cancel, release_motion, clock, wait_cancel, action_running, action_done, Trouble,
  bad_number, set_state, set_error, is_cancelled,
}
use roc_robot_sdk.Executor.Program.{
  Attempt, returned, raised, Code, sequence, op, ◌>>=◌, finally, on_trouble,
}
use roc_robot_sdk.Failure.{Result, ok, err}
use roc_robot_sdk.Executor.Bounds.{speed_of-IsBetween, clamp_float-IsBetween, clamp_int-le, IsSafe}
use roc_robot_sdk.Executor.Settings.{Settings}
use roc_robot_sdk.Executor.Quiet.{
  attempt_of-Quiet, stop_sport_motion-Quiet, run_patrol_helper-Quiet, run_lidar_navigation-Quiet,
  run_obstacle_avoid_helper-Quiet,
}
use roc_robot_sdk.Py.Arithmetic.{whole}

ruleset rules = (Quiet-then, Quiet-if, Quiet-pure, Quiet-raise, Quiet-op, Quiet-finally, refl, tt)

abbrev IsDuration : ℕ → Type 0
IsDuration duration_ms = (100 ≤ duration_ms) × (duration_ms ≤ 240000)

-- The end of a thread that held the claim.
abbrev Frees : {A : Type 0} → Stage → Stage → Attempt A → Type 0
Frees m m' r = m' ≡ record m { holds = false }

finally-Frees :
    {A : Type 0} {m : Stage} (p : Code A)
    → Quiet Any m p
    → m.holds ≡ true
    → Follows (Frees m) m (finally p (op release_motion))
unfolding finally ◌>>=◌ sequence Obeys
finally-Frees {m} p h holds = Follows-sequence p _ h λ m' r q. record {
  obeys = (ap Stage.holds q.0 ∙ holds, λ a. ap (λ (n : Stage). record n { holds = false }) q.0);
}

module _ {m : Stage} where
  pub stop_quietly-Quiet : (mock : Bool) → Quiet Any m (stop_quietly mock)
  unfolding stop_quietly
  stop_quietly-Quiet mock = Quiet-attempt _ _ (stop_sport_motion-Quiet mock) λ r x. Quiet-pure tt tt

  report_motion-Quiet :
      (settings : Settings) (what : String) (e : Trouble)
      → Quiet Any m (report_motion settings what e)
  unfolding report_motion Obeys
  report_motion-Quiet settings what e = search (rules, stop_quietly-Quiet) depth 14

  mock_wait-Quiet : (rounds deadline : ℕ) → Quiet Any m (mock_wait rounds deadline)
  unfolding mock_wait Obeys
  mock_wait-Quiet zero deadline = search rules
  mock_wait-Quiet (suc rounds) deadline = Quiet-then _ _ (Quiet-op clock tt λ a. refl) λ now.
      Quiet-if (ltb now deadline) _ _
        (Quiet-then _ _ (Quiet-op wait_cancel tt λ a. refl)
          λ cancelled. Quiet-if cancelled _ _ (Quiet-pure tt tt) (mock_wait-Quiet rounds deadline))
        (Quiet-pure tt tt)

  raised_as-Quiet : {A : Type 0} (e : Trouble) (r : Result A) → Quiet Any m (raised_as e r)
  raised_as-Quiet e (ok a) = search rules
  raised_as-Quiet e (err why) = search rules

  module _ (settings : Settings) where
    pub to_number-Quiet : (v : Json) → Quiet Any m (to_number settings v)
    unfolding to_number
    to_number-Quiet v = raised_as-Quiet _ _

    milliseconds-Quiet :
        (distance : Float) (seconds : Json) → Quiet Any m (milliseconds settings distance seconds)
    unfolding milliseconds Obeys
    milliseconds-Quiet distance seconds = search (rules, to_number-Quiet) depth 14

    duration_ms_of-Quiet :
        (distance : Float) (seconds : Json)
        → Quiet IsDuration m (duration_ms_of settings distance seconds)
    unfolding duration_ms_of
    duration_ms_of-Quiet distance seconds =
        Quiet-then _ _ (milliseconds-Quiet distance seconds) λ ms.
          Quiet-then _ _ (attempt_of-Quiet (whole ms) bad_number)
            λ duration. Quiet-pure _ (clamp_int-le 100 240000 duration (omega arith))

    mock_motion-Quiet : (duration_ms : ℕ) → Quiet Any m (mock_motion settings duration_ms)
    unfolding mock_motion Obeys
    mock_motion-Quiet duration_ms = search (rules, mock_wait-Quiet) depth 14

    moved-Quiet :
        (action : String) (distance : Float) (duration_ms : ℕ)
        → IsSafe settings
        → IsDistance distance
        → IsDuration duration_ms
        → m.holds ≡ true
        → Quiet Any m (moved settings action distance duration_ms)
    unfolding moved
    moved-Quiet action distance duration_ms safe d lim h =
        Quiet-if settings.mock _ _ (mock_motion-Quiet duration_ms) (
          Quiet-if (action == "navigate_forward_avoid") _ _
            (run_lidar_navigation-Quiet settings distance safe d h)
            (run_obstacle_avoid_helper-Quiet settings action (speed_of settings distance)
              duration_ms (speed_of-IsBetween settings distance safe) lim h))

    linear_body-Quiet :
        (action : String) (distance : Float) (seconds : Json)
        → IsSafe settings
        → IsDistance distance
        → m.holds ≡ true
        → Quiet Any m (linear_body settings action distance seconds)
    unfolding linear_body
    linear_body-Quiet action distance seconds safe d h =
        Quiet-then _ _ (Quiet-op (set_state action_running) tt λ a. refl) λ a.
          Quiet-then _ _ (Quiet-op (set_error "") tt λ a. refl) λ a.
            Quiet-then _ _ (Quiet-op is_cancelled tt λ a. refl) λ cancelled.
              Quiet-if cancelled _ _ (Quiet-op (set_state action_done) tt λ a. refl) (
                Quiet-bind _ _ (duration_ms_of-Quiet distance seconds) λ duration_ms lim.
                  Quiet-then _ _
                    (Quiet-then _ _ (moved-Quiet action distance duration_ms safe d lim h)
                      λ output. Quiet-op is_cancelled tt λ a. refl)
                    λ a.
                      Quiet-then _ _ (Quiet-op (set_state action_done) tt λ a. refl)
                        λ a. Quiet-op (set_error "") tt λ a. refl)

    patrol_body-Quiet :
        (distance turn_seconds : Json) → Quiet Any m (patrol_body settings distance turn_seconds)
    unfolding patrol_body Obeys
    patrol_body-Quiet distance turn_seconds =
        Quiet-then _ _ (Quiet-op (set_state action_running) tt λ a. refl) λ a.
          Quiet-then _ _ (Quiet-op (set_error "") tt λ a. refl) λ a.
            Quiet-then _ _ (Quiet-op clear_cancel tt λ a. refl) λ a.
              Quiet-then _ _ (to_number-Quiet (or_else distance (float (of_ℕ 10)))) λ metres.
                Quiet-then _ _ (to_number-Quiet (or_else turn_seconds (float (of_ℕ 9)))) λ turn.
                  Quiet-then _ _
                    (run_patrol_helper-Quiet _ _ λ helper. (
                      clamp_float-IsBetween _ _ metres (omega arith),
                      clamp_float-IsBetween _ _ turn (omega arith),
                    ))
                    λ output. Quiet-op (set_state action_done) tt λ a. refl

    on_trouble-Quiet :
        (what : String) (r : Attempt (Unit {0}))
        → Quiet Any m (on_trouble (report_motion settings what) r)
    on_trouble-Quiet what (returned a) = Quiet-pure a tt
    on_trouble-Quiet what (raised e) = report_motion-Quiet settings what e

    pub run_patrol_inspection-Quiet :
        (distance turn_seconds : Json)
        → Quiet Any m (run_patrol_inspection settings distance turn_seconds)
    unfolding run_patrol_inspection
    run_patrol_inspection-Quiet distance turn_seconds =
        Quiet-attempt _ _ (patrol_body-Quiet distance turn_seconds)
          λ r x. on_trouble-Quiet "Go2 patrol inspection failed: " r

    -- A linear motion always gives up the claim, whether it ends well, is stopped or fails.
    pub run_linear_motion-Frees :
        (action : String) (distance : Float) (seconds : Json)
        → IsSafe settings
        → IsDistance distance
        → m.holds ≡ true
        → Follows (Frees m) m (run_linear_motion settings action distance seconds)
    unfolding run_linear_motion
    run_linear_motion-Frees action distance seconds safe d h =
        finally-Frees _
          (Quiet-attempt _ _ (linear_body-Quiet action distance seconds safe d h)
            λ r x. on_trouble-Quiet "Go2 linear motion failed: " r)
          h

-- A queued motion hands the claim to its thread; where that cannot start, the claim is given up.
pub queue_linear_motion-Quiet :
    {m : Stage} (action : String) (distance : Float) (seconds : Json)
    → IsDistance distance
    → IsServing m
    → Quiet Any m (queue_linear_motion action distance seconds)
unfolding queue_linear_motion Obeys ◌>>=◌ sequence
queue_linear_motion-Quiet {m} action distance seconds d h = record {
  obeys = (
    tt,
    λ a. (
      h.free,
      elim [
        | true ↦ (
          (refl, h.starter, d),
          elim [ true ↦ (given_up, tt) | false ↦ (refl, λ a. (given_up, tt)) ],
        )
        | false ↦ (refl, tt)
      ],
    ),
  );
}
  where
    given_up : (record m { holds = false }) ≡ m
    given_up = ap (λ (b : Bool). record m { holds = b }) (sym h.free)
