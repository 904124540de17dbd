-- ===== src/Tests/Writes.antt =====
-- Two processes that write the state file of roc_adapter_runtime.py, one of which crashes.
use roc_robot_sdk.Base.{ℕ, String, ◌≡◌, refl, none, some, List, [], ◌∷◌}
use roc_robot_sdk.Files.Atomic.{
  Directory, final, temporary, Effect, truncate, append, replace, filling, write_json_atomic,
  joined, effect, Writes, with_pending, Reach, start, later, call, go, stop, performed,
}
use roc_robot_sdk.Files.Atomic.Whole.{IsWhole, write_json_atomic-IsWhole}

abbrev old_state : Directory
old_state final = some "{}"
old_state (temporary pid) = none

abbrev at_first : Writes
at_first = record { files = old_state; pending = λ pid. []; texts = [] }

abbrev called : ℕ → List String → Writes → Writes
called pid pieces d = record d {
  pending = with_pending pid (write_json_atomic pid pieces) d.pending;
  texts = joined pieces ∷ d.texts;
}

abbrev gone : ℕ → Effect → List Effect → Writes → Writes
gone pid e es d = record d { files = effect e d.files; pending = with_pending pid es d.pending }

-- Both open their temporary files.
abbrev both_open : Writes
both_open = gone 9 (truncate 9) (filling 9 ("[]" ∷ [])) (
    gone 7 (truncate 7) (filling 7 ("{" ∷ "}" ∷ []))
      (called 9 ("[]" ∷ []) (called 7 ("{" ∷ "}" ∷ []) at_first)))

both_open-Reach : Reach old_state both_open
unfolding write_json_atomic
both_open-Reach =
    later
      (later (later (later start (call 7 ("{" ∷ "}" ∷ []) refl)) (call 9 ("[]" ∷ []) refl))
        (go 7 (truncate 7) (filling 7 ("{" ∷ "}" ∷ [])) refl))
      (go 9 (truncate 9) (filling 9 ("[]" ∷ [])) refl)

-- 7 crashes after its first piece, and 9 goes on to the end.
abbrev replaced : Writes
replaced =
    let halved = gone 7 (append 7 "{") (filling 7 ("}" ∷ [])) both_open in
    let crashed = record halved { pending = with_pending 7 [] halved.pending } in
    gone 9 (replace 9) [] (gone 9 (append 9 "[]") (filling 9 []) crashed)

replaced-Reach : Reach old_state replaced
unfolding write_json_atomic
replaced-Reach =
    later
      (later
        (later (later both_open-Reach (go 7 (append 7 "{") (filling 7 ("}" ∷ [])) refl)) (stop 7))
        (go 9 (append 9 "[]") (filling 9 []) refl))
      (go 9 (replace 9) [] refl)

replaced_test : (replaced.files final ≡ some "[]") × (replaced.files (temporary 7) ≡ some "{")
unfolding effect
replaced_test = (refl, refl)

write_json_atomic-IsWhole_example :
    IsWhole old_state replaced.texts (replaced.files final)
    × (performed (write_json_atomic 7 ("1" ∷ "2" ∷ [])) replaced.files final
        ≡ some (joined ("1" ∷ "2" ∷ [])))
write_json_atomic-IsWhole_example = write_json_atomic-IsWhole replaced-Reach 7 ("1" ∷ "2" ∷ [])
