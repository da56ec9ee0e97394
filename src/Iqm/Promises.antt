-- ===== src/Iqm/Promises.antt =====
-- What the result of a task of IQM Server says (src/iqm/server.rs).
use qrmi.Prelude.{Bool, if◌then◌else◌, ℕ, ◌≡◌, refl, some, none, [], ◌∷◌, true, false, ◌==◌}
use qrmi.Text.{Text, codes}
use qrmi.Result.{Result, ok, err, map_err}
use qrmi.Exec.{Post}
use qrmi.Errors.{QrmiError}
use qrmi.Iqm.{ApiError, response_error, transport, job, classify, Json, Api, IqmServer, Job}
use qrmi.Iqm.Tasks.{
  parse_optional_artifact, metadata_of, with_counts, with_measurements, task_result,
}

module _ {Value : Type 0} (json : Json Value) where
  -- What an answer for an artifact stands for: `null` only if the service has none.
  pub data IsArtifact : Result ApiError Text → Value → Type 0 where
    missing :
        {number : ℕ} {body printed : Text}
        → (number == 404) ≡ true
        → IsArtifact (err (response_error number body printed)) json.null
    read :
        {bytes : Text} {value : Value}
        → json.from_str bytes ≡ ok value
        → IsArtifact (ok bytes) value

  -- Why an answer is of no use, and the error of that.
  pub data IsFailure : Result ApiError Text → QrmiError → Type 0 where
    malformed :
        {bytes e : Text}
        → json.from_str bytes ≡ err e
        → IsFailure (ok bytes) (QrmiError.invalid_json e)
    status :
        {number : ℕ} {body printed : Text}
        → ((number == 404) ≡ false)
        → IsFailure
            (err (response_error number body printed))
            (classify (response_error number body printed) job)
    lost : {message : Text} → IsFailure (err (transport message)) (classify (transport message) job)

  abbrev Parsed : Result ApiError Text → Result QrmiError Value → Type 0
  Parsed r (ok value) = IsArtifact r value
  Parsed r (err e) = IsFailure r e

  json_of-Parsed :
      (bytes : Text) (r : Result Text Value)
      → json.from_str bytes ≡ r
      → Parsed (ok bytes) (map_err QrmiError.invalid_json r)
  json_of-Parsed bytes (ok value) h = read h
  json_of-Parsed bytes (err e) h = malformed h

  refused-Parsed :
      (number : ℕ) (body printed : Text) (b : Bool)
      → (number == 404) ≡ b
      → Parsed
          (err (response_error number body printed))
          (if b then ok json.null else err (classify (response_error number body printed) job))
  refused-Parsed number body printed true h = missing h
  refused-Parsed number body printed false h = status h

  parse_optional_artifact-Parsed :
      (r : Result ApiError Text) → Parsed r (parse_optional_artifact json r job)
  unfolding parse_optional_artifact
  parse_optional_artifact-Parsed (ok bytes) = json_of-Parsed bytes (json.from_str bytes) refl
  parse_optional_artifact-Parsed (err (transport message)) = lost
  parse_optional_artifact-Parsed (err (response_error number body printed)) =
      refused-Parsed number body printed (number == 404) refl

  abbrev object_of : Value → Value → Value → Value
  object_of m c j =
      json.object
        ((codes "measurements", m) ∷ (codes "measurement_counts", c) ∷ (codes "job", j) ∷ [])

  module _ {V : Type 0} (api : Api V Value) (self : IqmServer) (task_id : Text) (v : V) where
    -- The three answers, one after the other.
    abbrev measurements : Result ApiError Text × V
    measurements = api.job_get_artifacts self.config task_id (codes "measurements") v

    abbrev counts : Result ApiError Text × V
    counts = api.job_get_artifacts self.config task_id (codes "measurement_counts") measurements.1

    abbrev record_of_job : Result ApiError (Job Value) × V
    record_of_job = api.get_job_v1 self.config task_id (some false) none counts.1

    pub record IsResult (t : Text) (v' : V) : Type 0 where
      pub m : Value
      pub c : Value
      pub measured : IsArtifact measurements.0 m
      pub counted : IsArtifact counts.0 c
      pub printed : json.to_string_pretty (object_of m c (metadata_of json record_of_job.0)) ≡ ok t

    pub data IsNoResult : QrmiError → Type 0 where
      unmeasured : {e : QrmiError} → IsFailure measurements.0 e → IsNoResult e
      uncounted :
          {e : QrmiError} {m : Value}
          → IsArtifact measurements.0 m
          → IsFailure counts.0 e
          → IsNoResult e
      unprinted :
          {e : Text} {m c : Value}
          → json.to_string_pretty (object_of m c (metadata_of json record_of_job.0)) ≡ err e
          → IsNoResult (QrmiError.invalid_json e)

    printed_result :
        (m c : Value) (r : Result Text Text)
        → IsArtifact measurements.0 m
        → IsArtifact counts.0 c
        → json.to_string_pretty (object_of m c (metadata_of json record_of_job.0)) ≡ r
        → Post IsResult (λ e v'. IsNoResult e) (map_err QrmiError.invalid_json r, record_of_job.1)
    printed_result m c (ok t) h k p = record {
      m = m;
      c = c;
      measured = h;
      counted = k;
      printed = p;
    }
    printed_result m c (err e) h k p = unprinted p

    counted_result :
        (m : Value) (r : Result QrmiError Value)
        → IsArtifact measurements.0 m
        → Parsed counts.0 r
        → Post IsResult
            (λ e v'. IsNoResult e)
            (with_counts json record_of_job.0 m r record_of_job.1)
    counted_result m (ok c) h k =
        printed_result m c
          (json.to_string_pretty (object_of m c (metadata_of json record_of_job.0))) h k refl
    counted_result m (err e) h k = uncounted h k

    measured_result :
        (r : Result QrmiError Value)
        → Parsed measurements.0 r
        → Post IsResult
            (λ e v'. IsNoResult e)
            (with_measurements json counts.0 record_of_job.0 r record_of_job.1)
    measured_result (ok m) h =
        counted_result m (parse_optional_artifact json counts.0 job) h
          (parse_optional_artifact-Parsed counts.0)
    measured_result (err e) h = unmeasured h

    -- The result of a task has the measurements and the counts that the service answered with, `null`
    -- for one only if the service answered that it has none, and the record of the job, `null` if
    -- that could not be read. There is no result only if the measurements, or else the counts, could
    -- not be read for another reason than that, or if the result could not be printed; a record of the job that cannot be read is no such reason.
    pub task_result-Answered :
        Post IsResult (λ e v'. IsNoResult e) (task_result json api self task_id v)
    unfolding task_result
    task_result-Answered =
        measured_result (parse_optional_artifact json measurements.0 job)
          (parse_optional_artifact-Parsed measurements.0)
