-- ===== src/Job/RoundTrip.antt =====
-- `validate_job` of roc_adapter_runtime.py on the dictionary of a job that it has accepted.
use roc_robot_sdk.Base.{
  sorted, difference, le→leb, String, ◌≡◌, refl, List, [], ◌∷◌, map, All, strip, dedup-Distinct,
  none, some, Option,
}
use roc_robot_sdk.Py.Json.{Json, Dict, keys, get, lookup, is_text, str, arr, of_texts}
use roc_robot_sdk.Py.Text.{PyText, IsCaseMap}
use roc_robot_sdk.Failure.{
  bad_required, bad_key, job_type_required, job_id_required, Failure, ok, ◌>>=◌,
}
use roc_robot_sdk.Job.{Job, validate_job, to_dict, no_unknown_fields}
use roc_robot_sdk.Fields.{text_field, text_items, text_array, dict_field}
use roc_robot_sdk.Fields.Clean.{IsClean}
use roc_robot_sdk.Job.Normal.{IsNormal, validate_job-IsNormal}

text_field-str : (s : String) (e : Failure) → IsClean s → text_field (str s) e ≡ ok s
unfolding text_field
text_field-str s e c = rw (c.stripped, c.filled)

text_items-of_texts :
    (ts : List String) (e : Failure) → All IsClean ts → text_items (of_texts ts) e ≡ ok ts
unfolding text_items of_texts ◌>>=◌
text_items-of_texts [] e h = refl
text_items-of_texts (t ∷ ts) e h = simp (h.0.stripped, h.0.filled, text_items-of_texts ts e h.1)

text_array-of_texts :
    (ts : List String) (e : Failure) → All IsClean ts → text_array (arr (of_texts ts)) e ≡ ok ts
unfolding text_array
text_array-of_texts ts e h = text_items-of_texts ts e h

map-strip : (ts : List String) → All IsClean ts → map strip ts ≡ ts
map-strip [] h = refl
map-strip (t ∷ ts) h = cc (h.0.stripped, map-strip ts h.1)

module _ ⦃t : PyText⦄ where
  -- What `validate_job` makes of the dictionary of a normal job.
  abbrev rebuilt : Job → Option Json → Job
  rebuilt j schema = record j { schema = schema }

  validate_job-rebuilt :
      (j : Job) (schema : Option Json)
      → IsNormal j
      → validate_job (to_dict (rebuilt j schema)) ≡ ok (rebuilt j schema)
  unfolding validate_job to_dict keys get is_text no_unknown_fields sorted difference dict_field
      lookup ◌>>=◌
  validate_job-rebuilt j none n = simp (
    text_field-str j.id job_id_required n.id_clean,
    text_field-str j.job_type job_type_required n.type_clean,
    text_field-str j.idempotency_key bad_key n.key_clean,
    text_array-of_texts j.required bad_required n.required_clean,
    map-strip j.required n.required_clean,
    dedup-Distinct j.required n.required_distinct,
    n.id_clean.stripped,
    n.key_clean.stripped,
    n.type_clean.stripped,
    n.type_upper,
    le→leb _ _ n.key_short,
  )
  validate_job-rebuilt j (some v) n = simp (
    text_field-str j.id job_id_required n.id_clean,
    text_field-str j.job_type job_type_required n.type_clean,
    text_field-str j.idempotency_key bad_key n.key_clean,
    text_array-of_texts j.required bad_required n.required_clean,
    map-strip j.required n.required_clean,
    dedup-Distinct j.required n.required_distinct,
    n.id_clean.stripped,
    n.key_clean.stripped,
    n.type_clean.stripped,
    n.type_upper,
    le→leb _ _ n.key_short,
  )

  validate_job-to_dict : (j : Job) → IsNormal j → validate_job (to_dict j) ≡ ok j
  validate_job-to_dict j n = validate_job-rebuilt j j.schema n

module _ ⦃t : PyText⦄ (c : IsCaseMap t) where
  -- If `upper` is a case map, then validation is idempotent: the dictionary that `validate_job`
  -- returns, which the runtime sends to the adapter, is accepted and is returned as it is.
  pub validate_job-validate_job :
      (d : Dict) (j : Job) → validate_job d ≡ ok j → validate_job (to_dict j) ≡ ok j
  validate_job-validate_job d j h = validate_job-to_dict j (validate_job-IsNormal c d j h)
