-- ===== src/Probe/Harmless.antt =====
-- The messages that `probe_adapter` and `snapshot_adapter` of roc_adapter_runtime.py send.
use roc_robot_sdk.Base.{
  ◌⊎◌, false, Bool-cases, ℕ, String, ◌≡◌, refl, inl, inr, Bool, true, List, [], ◌∷◌, All, mem,
}
use roc_robot_sdk.Py.Json.{Dict, end}
use roc_robot_sdk.Failure.{Result, ok, err, other_exception, ◌>>=◌}
use roc_robot_sdk.Process.{Exchange, AdapterProcess, request, new_process, close_process}
use roc_robot_sdk.Process.Close.{Child, breaks, survives, close-Closes}
use roc_robot_sdk.Runtime.Guard.{types, request-Sends}
use roc_robot_sdk.Manifest.{AdapterManifest}
use roc_robot_sdk.Probe.{closing, probe_adapter, ask_incidents, snapshot_adapter}

-- The messages that change nothing.
unfoldable pub is_query : String → Bool
unfolding mem
is_query m = mem m ("capabilities.get" ∷ "telemetry.get" ∷ "incidents.get" ∷ [])

abbrev Queries : AdapterProcess → Type 0
Queries p = All (λ m. is_query m ≡ true) (types p.attempts)

-- After closing: no process was started, or it does not run, or `close` raised, because closing the
-- standard input did or because SIGKILL did not end the process in time.
abbrev IsEnded : Result Dict × AdapterProcess → Type 0
IsEnded (r, p) =
    (p.started ≡ false)
    ⊎ (survives p.child p.endings ≡ false)
    ⊎ ((r ≡ err other_exception) × ((breaks p.child ≡ true) ⊎ (p.child.dies ≡ false)))

pub record IsHarmless (x : Result Dict × AdapterProcess) : Type 0 where
  pub queries : Queries x.1
  pub ended : IsEnded x

closing-IsEnded : (r : Result Dict) (p : AdapterProcess) → IsEnded (closing (r, p))
unfolding closing close_process ◌>>=◌
closing-IsEnded r p = elim (Bool-cases p.started) [
  | inl started ↦ rw started (elim (close-Closes p.child) [
    | inl (done, ended) ↦ inr (inl ended)
    | inr f ↦ inr (inr (rw f.raises refl, f.cause))
  ])
  | inr idle ↦ rw idle (inl refl)
]

closing-Queries : (r : Result Dict) (p : AdapterProcess) → Queries p → Queries (closing (r, p)).1
unfolding closing close_process
closing-Queries r p k = elim (Bool-cases p.started) [ inl e ↦ rw e k | inr e ↦ rw e k ]

closing-IsHarmless :
    (r : Result Dict) (p : AdapterProcess) → Queries p → IsHarmless (closing (r, p))
closing-IsHarmless r p k = record { queries = closing-Queries r p k; ended = closing-IsEnded r p }

request-Queries :
    (p : AdapterProcess) (now : ℕ) (m : String) (timeout : ℕ) (payload : Dict)
    → is_query m ≡ true
    → Queries p
    → Queries (request p now m timeout payload).2
request-Queries p now m timeout payload q k = elim (request-Sends p now m timeout payload).cases [
  | inl e ↦ rw e.1 k
  | inr e ↦ rw e.1 (q, k)
]

ask_incidents-Queries :
    (adapter_id : String) (x : Result Dict × ℕ × AdapterProcess)
    → Queries x.2
    → Queries (ask_incidents adapter_id x).1
unfolding is_query
ask_incidents-Queries adapter_id (err e, now, p) k = k
ask_incidents-Queries adapter_id (ok d, now, p) k =
    request-Queries p now "incidents.get" 10000 end refl k

module _ (manifest : AdapterManifest) (spawns : Bool) (script : List Exchange) (child : Child)
    (now : ℕ) where
  -- Whether they return or raise: `probe_adapter` and `snapshot_adapter` send the adapter no other
  -- messages than the three questions, and then the process does not run, unless `close` raised, because
  -- closing the standard input did or because SIGKILL did not end the process in time.
  pub probe_adapter-snapshot_adapter :
      IsHarmless (probe_adapter (new_process manifest spawns script child) now)
      × IsHarmless (snapshot_adapter (new_process manifest spawns script child) now)
  unfolding probe_adapter snapshot_adapter is_query types
  probe_adapter-snapshot_adapter =
      let p = new_process manifest spawns script child in
      (
        closing-IsHarmless _ (request p now "capabilities.get" 10000 end).2
            (request-Queries p now "capabilities.get" 10000 end refl tt),
        closing-IsHarmless _
            (ask_incidents manifest.adapter_id (request p now "telemetry.get" 10000 end)).1
            (ask_incidents-Queries manifest.adapter_id (request p now "telemetry.get" 10000 end)
              (request-Queries p now "telemetry.get" 10000 end refl tt)),
      )
