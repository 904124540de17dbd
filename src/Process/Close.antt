-- ===== src/Process/Close.antt =====
-- How `AdapterProcess` of roc_adapter_runtime.py ends its process: `close`.
use roc_robot_sdk.Base.{
  ◌≡◌, refl, ◌⊎◌, inl, inr, Bool, true, false, not, ◌&&◌, List, [], ◌∷◌, ◌++◌, if◌then◌else◌,
}
use roc_robot_sdk.Failure.{Result, ok, err, other_exception}

-- What `close` does to the process.
pub data Ending : Type 0 where
  close_stdin terminate kill close_streams : Ending

-- The process when it is closed: whether it runs, whether its standard input is open, whether closing
-- that raises, because text is left that cannot be written, and whether the waits after the end of its
-- input, after SIGTERM and after SIGKILL end in time.
pub record Child : Type 0 where
  pub running : Bool
  pub stdin_open : Bool
  pub stdin_breaks : Bool
  pub quits : Bool
  pub obeys : Bool
  pub dies : Bool

-- Closing standard input raises.
abbrev pub breaks : Child → Bool
breaks p = p.stdin_open && p.stdin_breaks

abbrev stdin_closed : Child → List Ending
stdin_closed p = if p.stdin_open then close_stdin ∷ [] else []

-- The waits of a process that runs; the last one may raise `TimeoutExpired`.
unfoldable pub end_child : Child → Result (Unit {0}) × List Ending
end_child p =
    if p.quits
    then (ok tt, [])
    else if p.obeys
    then (ok tt, terminate ∷ [])
    else (if p.dies then ok tt else err other_exception, terminate ∷ kill ∷ [])

abbrev with_streams : Result (Unit {0}) × List Ending → Result (Unit {0}) × List Ending
with_streams (ok u, endings) = (ok u, endings ++ close_streams ∷ [])
with_streams (err e, endings) = (err e, endings)

-- `close`, in order, of a process that was started. Once standard input is closed, closing the streams
-- does not raise.
unfoldable pub close : Child → Result (Unit {0}) × List Ending
unfolding end_child
close p =
    let (r, endings) = end_child p in
    if p.running
    then if breaks p
      then (err other_exception, close_stdin ∷ [])
      else with_streams (r, stdin_closed p ++ endings)
    else if breaks p
    then (err other_exception, close_streams ∷ [])
    else (ok tt, close_streams ∷ [])

-- Whether a process that runs still runs after one of these.
abbrev survives_one : Child → Ending → Bool
survives_one p close_stdin = not p.quits
survives_one p terminate = not p.obeys
survives_one p kill = not p.dies
survives_one p close_streams = true

unfoldable survives_all : Child → List Ending → Bool
survives_all p [] = true
survives_all p (x ∷ xs) = survives_one p x && survives_all p xs

-- A process whose standard input was closed before may quit of its own.
unfoldable pub survives : Child → List Ending → Bool
unfolding survives_all
survives p xs = p.running && (not (p.quits && not p.stdin_open) && survives_all p xs)

-- `close` raised, though the process may still run: closing its input did, or SIGKILL did not end it.
pub record Fails (p : Child) : Type 0 where
  pub raises : (close p).0 ≡ err other_exception
  pub cause : (breaks p ≡ true) ⊎ (p.dies ≡ false)

abbrev Closes : Child → Type 0
Closes p = (((close p).0 ≡ ok tt) × (survives p (close p).1 ≡ false)) ⊎ Fails p

child : Bool → Bool → Bool → Bool → Bool → Bool → Child
child running stdin_open stdin_breaks quits obeys dies = record {
  running = running;
  stdin_open = stdin_open;
  stdin_breaks = stdin_breaks;
  quits = quits;
  obeys = obeys;
  dies = dies;
}

child-Closes : (r o b q y d : Bool) → Closes (child r o b q y d)
unfolding child close end_child survives survives_all
child-Closes true true true q y d = inr (record { raises = refl; cause = inl refl })
child-Closes false true true q y d = inr (record { raises = refl; cause = inl refl })
child-Closes false true false q y d = inl (refl, refl)
child-Closes false false b q y d = inl (refl, refl)
child-Closes true true false true y d = inl (refl, refl)
child-Closes true true false false true d = inl (refl, refl)
child-Closes true true false false false true = inl (refl, refl)
child-Closes true true false false false false = inr (record { raises = refl; cause = inr refl })
child-Closes true false b true y d = inl (refl, refl)
child-Closes true false b false true d = inl (refl, refl)
child-Closes true false b false false true = inl (refl, refl)
child-Closes true false b false false false = inr (record { raises = refl; cause = inr refl })

-- After `close` the process does not run, unless `close` raised.
pub close-Closes : (p : Child) → Closes p
unfolding child
close-Closes p = child-Closes p.running p.stdin_open p.stdin_breaks p.quits p.obeys p.dies
