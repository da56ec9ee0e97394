-- ===== src/Iqm/Tasks.antt =====
-- The tasks of IQM Server and the target (src/iqm/server.rs).
use qrmi.Prelude.{
  zero, suc, ℕ, ◌-◌, none, some, List, [], ◌∷◌, ◌++◌, Bool, true, false, if◌then◌else◌, ◌==◌,
  is_empty, length,
}
use qrmi.Text.{Text, codes}
use qrmi.Result.{Result, ok, err, map_err}
use qrmi.Exec.{Exec, ◌>>=◌, return, throw, lift}
use qrmi.Errors.{QrmiError}
use qrmi.Models.{Payload, TaskStatus}
use qrmi.Iqm.{
  ApiError, response_error, transport, ResourceKind, backend, job, classify, Json, Api, IqmServer,
  IqmServerJobStatus, Job, Event, LogMessage,
}

abbrev pub is_active : IqmServerJobStatus → Bool
is_active IqmServerJobStatus.waiting = true
is_active IqmServerJobStatus.processing = true
is_active _ = false

unfoldable pub to_task_status : IqmServerJobStatus → TaskStatus
to_task_status IqmServerJobStatus.waiting = TaskStatus.queued
to_task_status IqmServerJobStatus.processing = TaskStatus.running
to_task_status IqmServerJobStatus.completed = TaskStatus.completed
to_task_status IqmServerJobStatus.failed = TaskStatus.failed
to_task_status IqmServerJobStatus.cancelled = TaskStatus.cancelled

abbrev spaces : ℕ → Text
spaces zero = []
spaces (suc n) = b' ' ∷ spaces n

-- `{:<24}`.
unfoldable pub padded : Text → Text
padded s = s ++ spaces (24 - length s)

abbrev newline : Text
newline = b'\n' ∷ []

unfoldable pub event_lines : List Event → Text
unfolding padded
event_lines [] = []
event_lines (event ∷ rest) =
    codes "  "
    ++ event.timestamp
    ++ codes " ["
    ++ padded event.source
    ++ codes "] "
    ++ event.status
    ++ newline
    ++ event_lines rest

unfoldable pub message_lines : List LogMessage → Text
unfolding padded
message_lines [] = []
message_lines (msg ∷ rest) =
    codes "  [" ++ padded msg.source ++ codes "] " ++ msg.message ++ newline ++ message_lines rest

unfoldable pub log_of : {Value : Type 0} → Job Value → Text
unfolding event_lines message_lines
log_of j =
    codes "Timeline   :"
    ++ newline
    ++ event_lines j.timeline
    ++ (if is_empty j.messages
        then codes "Messages   : (none)" ++ newline
        else codes "Messages   :" ++ newline ++ message_lines j.messages)

module _ {Value : Type 0} (json : Json Value) where
  unfoldable pub job_metadata : Job Value → Value
  job_metadata j = json.object (
      (codes "id", j.members (codes "id"))
      ∷ (codes "status", j.members (codes "status"))
      ∷ (codes "queue_position", j.members (codes "queue_position"))
      ∷ (codes "runtime_ms", j.members (codes "runtime_ms"))
      ∷ (codes "timeline", j.members (codes "timeline"))
      ∷ (codes "compilation", j.members (codes "compilation"))
      ∷ [])

  abbrev pub json_of : Text → Result QrmiError Value
  json_of bytes = map_err QrmiError.invalid_json (json.from_str bytes)

  unfoldable pub parse_optional_artifact :
      Result ApiError Text → ResourceKind → Result QrmiError Value
  unfolding classify
  parse_optional_artifact (ok bytes) resource_kind = json_of bytes
  parse_optional_artifact (err (response_error status body printed)) resource_kind =
      if status == 404
      then ok json.null
      else err (classify (response_error status body printed) resource_kind)
  parse_optional_artifact (err (transport message)) resource_kind =
      err (classify (transport message) resource_kind)

  abbrev pub metadata_of : Result ApiError (Job Value) → Value
  metadata_of (ok j) = job_metadata j
  metadata_of (err e) = json.null

  abbrev pub printed : Value → Value → Value → Result QrmiError Text
  printed m c j = map_err QrmiError.invalid_json (
      json.to_string_pretty (
        json.object
          ((codes "measurements", m) ∷ (codes "measurement_counts", c) ∷ (codes "job", j) ∷ [])))

  -- The result, of the job's record and of what the two answers before it were read as.
  abbrev pub with_counts :
      {V : Type 0}
      → Result ApiError (Job Value)
      → Value
      → Result QrmiError Value
      → Exec V QrmiError Text
  with_counts j m (err e) = throw e
  with_counts j m (ok c) = lift (printed m c (metadata_of j))

  abbrev pub with_measurements :
      {V : Type 0}
      → Result ApiError Text
      → Result ApiError (Job Value)
      → Result QrmiError Value
      → Exec V QrmiError Text
  with_measurements measurement_counts j (err e) = throw e
  with_measurements measurement_counts j (ok m) =
      with_counts j m (parse_optional_artifact measurement_counts job)

  module _ {V : Type 0} (api : Api V Value) (self : IqmServer) where
    abbrev pub explained :
        {A : Type 0} → ResourceKind → Result ApiError A × V → Result QrmiError A × V
    explained kind (r, v) = (map_err (λ e. classify e kind) r, v)

    abbrev pub call : {A : Type 0} → ResourceKind → Exec V ApiError A → Exec V QrmiError A
    call kind f v = explained kind (f v)

    unfoldable pub task_start : Payload → Exec V QrmiError Text
    unfolding classify
    task_start (Payload.iqm_server iqmjson job_type use_timeslot tag) = do
      value ← lift (json_of iqmjson)
      j ←
          call backend
            (api.job_submit self.config self.backend_name job_type use_timeslot tag value)
      return j.id
    task_start payload = throw (QrmiError.unsupported_payload payload)

    abbrev pub cancel_if : Text → Bool → Exec V QrmiError (Unit {0})
    cancel_if task_id true = call job (api.cancel_job_v1 self.config task_id)
    cancel_if task_id false = return tt

    unfoldable pub task_stop : Text → Exec V QrmiError (Unit {0})
    unfolding classify
    task_stop task_id = do
      j ← call job (api.get_job_v1 self.config task_id (some true) (some 30))
      cancel_if task_id (is_active j.status)

    unfoldable pub task_status : Text → Exec V QrmiError TaskStatus
    unfolding classify to_task_status
    task_status task_id = do
      j ← call job (api.get_job_v1 self.config task_id (some true) (some 30))
      return (to_task_status j.status)

    unfoldable pub task_result : Text → Exec V QrmiError Text
    unfolding parse_optional_artifact job_metadata
    task_result task_id v =
        let (measurements, v1) =
          api.job_get_artifacts self.config task_id (codes "measurements") v in
        let (measurement_counts, v2) =
          api.job_get_artifacts self.config task_id (codes "measurement_counts") v1 in
        let (j, v3) = api.get_job_v1 self.config task_id (some false) none v2 in
        with_measurements measurement_counts j (parse_optional_artifact measurements job) v3

    unfoldable pub task_logs : Text → Exec V QrmiError Text
    unfolding classify log_of
    task_logs task_id = do
      j ← call job (api.get_job_v1 self.config task_id (some true) (some 30))
      return (log_of j)

    abbrev pub artifact : Result ApiError Text × V → Result QrmiError Value × V
    artifact (r, v) = (parse_optional_artifact r backend, v)

    unfoldable pub target : Exec V QrmiError Text
    unfolding classify parse_optional_artifact
    target = do
      bytes ← call backend (
          api.get_dynamic_quantum_architecture_v1 self.config self.backend_name
            self.calibration_set_id)
      dynamic_quantum_architecture ← lift (json_of bytes)
      bytes ←
          call backend
            (api.get_calibration_set_v1 self.config self.backend_name self.calibration_set_id)
      calibration_set ← lift (json_of bytes)
      bytes ←
          call backend
            (api.get_quality_metrics_v1 self.config self.backend_name self.calibration_set_id)
      quality_metrics ← lift (json_of bytes)
      static_quantum_architecture ← λ v. artifact (
          api.qc_get_artifacts self.config self.backend_name (codes "static-quantum-architectures")
            v)
      return (
          json.to_string (
            json.object (
              (codes "dynamic_quantum_architecture", dynamic_quantum_architecture)
              ∷ (codes "calibration_set", calibration_set)
              ∷ (codes "quality_metrics", quality_metrics)
              ∷ (codes "static_quantum_architecture", static_quantum_architecture)
              ∷ [])))
