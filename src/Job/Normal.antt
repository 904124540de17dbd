-- ===== src/Job/Normal.antt =====
-- The jobs that `validate_job` of roc_adapter_runtime.py accepts.
use roc_robot_sdk.Base.{
  ◌≤◌, String, ◌≡◌, ◌∙◌, false, [], map, arith, All, strip, text_length-strip, is_empty,
  text_length, dedup, Distinct, Distinct-dedup, All-dedup_from,
}
use roc_robot_sdk.Py.Json.{Dict}
use roc_robot_sdk.Py.Text.{PyText, IsCaseMap, upper}
use roc_robot_sdk.Failure.{ok, Ensures, Ensures-bind, Ensures-require, Ensures-ok}
use roc_robot_sdk.Job.{Job, validate_job}
use roc_robot_sdk.Fields.Clean.{
  IsClean, IsClean-strip, text_field-Filled, text_array-Filled, All-IsClean,
}

-- The form that every accepted job has.
pub record IsNormal ⦃t : PyText⦄ (j : Job) : Type 0 where
  pub id_clean : IsClean j.id
  pub key_clean : IsClean j.idempotency_key
  pub key_short : text_length j.idempotency_key ≤ 256
  pub type_clean : IsClean j.job_type
  pub type_upper : upper j.job_type ≡ j.job_type
  pub required_clean : All IsClean j.required
  pub required_distinct : Distinct j.required

module _ ⦃t : PyText⦄ (c : IsCaseMap t) where
  IsClean-upper : (s : String) → is_empty (strip s) ≡ false → IsClean (upper (strip s))
  IsClean-upper s h = record { stripped = c.strip_upper s; filled = c.is_empty_upper (strip s) ∙ h }

  validate_job-Ensures : (d : Dict) → Ensures IsNormal (validate_job d)
  unfolding validate_job
  validate_job-Ensures d = Ensures-bind _ _ λ _ _. Ensures-require _ _ _ λ _.
      Ensures-bind _ _ λ job_id p. Ensures-bind _ _ λ job_type q. Ensures-bind _ _ λ key r.
        Ensures-require _ _ _ λ short. Ensures-bind _ _ λ required a. Ensures-bind _ _ λ _ _.
          Ensures-bind _ _ λ _ _. Ensures-ok _ (record {
            id_clean = IsClean-strip job_id (text_field-Filled _ _ _ p);
            key_clean = IsClean-strip key (text_field-Filled _ _ _ r);
            key_short = ground (arith, text_length-strip key);
            type_clean = IsClean-upper job_type (text_field-Filled _ _ _ q);
            type_upper = c.upper_upper (strip job_type);
            required_clean =
                unfold dedup in
                All-dedup_from IsClean [] (map strip required)
                  (All-IsClean required (text_array-Filled _ _ _ a));
            required_distinct = Distinct-dedup (map strip required);
          })

  -- If `upper` is a case map, then every job that `validate_job` returns is normal: its id, key and
  -- type are stripped and not empty, the key has at most 256 characters, the type is in upper case,
  -- and the required capabilities are stripped, not empty and without repetition.
  pub validate_job-IsNormal : (d : Dict) (j : Job) → validate_job d ≡ ok j → IsNormal j
  validate_job-IsNormal d j = (validate_job-Ensures d).of_ok j
