-- ===== src/Job.antt =====
-- `validate_job` of roc_adapter_runtime.py: a standard job, from the JSON object that describes it.
pub mod Normal
pub mod RoundTrip
use roc_robot_sdk.Base.{
  ℕ, String, Bool, true, false, not, ◌&&◌, Option, none, some, List, [], ◌∷◌, map, leb, strip,
  is_empty, text_length, dedup, difference, sorted, if◌then◌else◌,
}
use roc_robot_sdk.Py.Json.{
  Json, Items, Dict, str, arr, obj, nil, cons, end, field, lookup, get, get_or, keys, is_text,
  of_texts,
}
use roc_robot_sdk.Py.Text.{PyText, upper}
use roc_robot_sdk.Fields.{text_field, text_array, dict_field}
use roc_robot_sdk.Failure.{
  Failure, Result, ok, err, require, ◌>>=◌, ◌>>◌, unknown_job_fields, bad_schema_version,
  job_id_required, job_type_required, bad_key, long_key, bad_required, bad_parameters,
  bad_safety_policy,
}

abbrev pub job_schema_version : String
job_schema_version = "roc.job.v1"

-- The dictionary that `validate_job` returns. Its `schemaVersion` is always `job_schema_version`.
pub record Job : Type 0 where
  pub schema : Option Json
  pub id : String
  pub idempotency_key : String
  pub job_type : String
  pub required : List String
  pub parameters : Dict
  pub safety_policy : Dict

abbrev allowed_fields : List String
allowed_fields =
    "$schema" ∷ "schemaVersion" ∷ "id" ∷ "idempotencyKey" ∷ "type" ∷ "requiredCapabilities"
    ∷ "parameters" ∷ "safetyPolicy" ∷ []

-- `sorted(set(job) - allowed_fields)` is empty.
unfoldable pub no_unknown_fields : List String → Result (Unit {0})
no_unknown_fields [] = ok tt
no_unknown_fields (k ∷ ks) = err (unknown_job_fields (k ∷ ks))

module _ ⦃t : PyText⦄ where
  unfoldable pub validate_job : Dict → Result Job
  validate_job job = do
    no_unknown_fields (sorted (difference (keys job) allowed_fields))
    require (is_text job_schema_version (get "schemaVersion" job)) bad_schema_version
    job_id ← text_field (get "id" job) job_id_required
    job_type ← text_field (get "type" job) job_type_required
    key ← text_field (get_or "idempotencyKey" (str job_id) job) bad_key
    require (leb (text_length key) 256) long_key
    required ← text_array (get_or "requiredCapabilities" (arr nil) job) bad_required
    parameters ← dict_field (get_or "parameters" (obj end) job) bad_parameters
    safety_policy ← dict_field (get_or "safetyPolicy" (obj end) job) bad_safety_policy
    ok (record {
      schema = lookup "$schema" job;
      id = strip job_id;
      idempotency_key = strip key;
      job_type = upper (strip job_type);
      required = dedup (map strip required);
      parameters = parameters;
      safety_policy = safety_policy;
    })

abbrev schema_entry : Option Json → Dict → Dict
schema_entry none d = d
schema_entry (some v) d = field "$schema" v d

-- The dictionary itself, as it is sent to an adapter.
unfoldable pub to_dict : Job → Dict
unfolding of_texts
to_dict j = schema_entry j.schema (
    field "schemaVersion" (str job_schema_version) (
      field "id" (str j.id) (
        field "idempotencyKey" (str j.idempotency_key) (
          field "type" (str j.job_type) (
            field "requiredCapabilities" (arr (of_texts j.required)) (
              field "parameters" (obj j.parameters)
                (field "safetyPolicy" (obj j.safety_policy) end)))))))
