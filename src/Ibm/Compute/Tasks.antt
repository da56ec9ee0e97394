-- ===== src/Ibm/Compute/Tasks.antt =====
-- The tasks: their life from `task_start` to `task_result`, and `is_accessible` and `target`.
pub mod Life
use qrmi.Prelude.{Bool, true, false, ◌||◌, Option, none, some, [], ◌∷◌, unwrap_or, if◌then◌else◌}
use qrmi.Text.{Text, codes, eq_text, to_ascii_lowercase}
use qrmi.Result.{Result, ok, err, map_err}
use qrmi.Exec.{Exec, ◌>>=◌, ◌>>◌, return, throw, lift}
use qrmi.Errors.{QrmiError, unknown_program_id, text, debug}
use qrmi.Models.{Payload, TaskStatus, qiskit_primitive}
use qrmi.Ibm.Api.{
  Api, Job, JobStatus, CreateJob, Primitive, sampler, estimator, noiselearner, ResourceKind,
}
use qrmi.Ibm.Compute.State.{Service, configuration, renew, call}

-- Which of the two services it is.
pub data Product : Type 0 where
  runtime compute : Product

-- The status as `{:?}` prints it.
abbrev pub status_name : JobStatus → Text
status_name JobStatus.queued = codes "Queued"
status_name JobStatus.running = codes "Running"
status_name JobStatus.completed = codes "Completed"
status_name JobStatus.cancelled = codes "Cancelled"
status_name JobStatus.cancelled_ran_too_long = codes "CancelledRanTooLong"
status_name JobStatus.failed = codes "Failed"

abbrev pub to_task_status : JobStatus → TaskStatus
to_task_status JobStatus.queued = TaskStatus.queued
to_task_status JobStatus.running = TaskStatus.running
to_task_status JobStatus.completed = TaskStatus.completed
to_task_status JobStatus.cancelled = TaskStatus.cancelled
to_task_status JobStatus.cancelled_ran_too_long = TaskStatus.cancelled
to_task_status JobStatus.failed = TaskStatus.failed

-- `status == Running || status == Queued`
abbrev pub is_pending : JobStatus → Bool
is_pending JobStatus.running = true
is_pending JobStatus.queued = true
is_pending _ = false

module _ {V Value Params Document : Type 0} (api : Api V Value Params Document) where
  abbrev Run : Type 0 → Type 0
  Run A = Exec (Service × V) QrmiError A

  abbrev pub parse : Text → Result QrmiError Value
  parse input = map_err QrmiError.invalid_json (api.from_str input)

  abbrev pub primitive_params : Primitive → Text → Result QrmiError Params
  primitive_params kind input =
      qrmi.Result.◌>>=◌ (parse input)
        (λ val. map_err QrmiError.invalid_json (api.from_value kind val))

  abbrev pub executor_params : Product → Text → Text → Result QrmiError Params
  executor_params compute program_id input =
      if eq_text program_id (codes "executor")
      then qrmi.Result.◌>>=◌ (parse input) (λ val. ok (api.executor_input val))
      else err (QrmiError.ibm (unknown_program_id (debug program_id ∷ [])))
  executor_params runtime program_id input =
      err (QrmiError.ibm (unknown_program_id (debug program_id ∷ [])))

  -- The `match` on the program.
  unfoldable pub params_of : Product → Text → Text → Result QrmiError Params
  unfolding eq_text
  params_of product program_id input =
      if eq_text program_id (codes "sampler")
      then primitive_params sampler input
      else if eq_text program_id (codes "estimator")
      then primitive_params estimator input
      else if eq_text program_id (codes "noiselearner")
      then primitive_params noiselearner input
      else executor_params product program_id input

  abbrev pub job_of : Service → Text → Params → CreateJob Params
  job_of self program_id params = record {
    program_id = program_id;
    backend = self.backend_name;
    cost = self.timeout_secs;
    session_id = self.session_id;
    calibration_id = self.calibration_id;
    params = params;
  }

  abbrev pub submit : Product → Payload → Run Text
  submit product (qiskit_primitive input program_id) = do
    params ← lift (params_of product program_id input)
    call api ResourceKind.backend
        (λ self. api.create_job (configuration self) (job_of self program_id params))
  submit product payload = throw (QrmiError.unsupported_payload payload)

  unfoldable pub task_start : Product → Payload → Run Text
  unfolding renew params_of
  task_start product payload = do renew api; submit product payload

  abbrev pub job_details : Text → Run Job
  job_details task_id = call api ResourceKind.job (λ self. api.get_job (configuration self) task_id)

  abbrev pub cancel_if : Text → Bool → Run (Unit {0})
  cancel_if task_id true =
      call api ResourceKind.job (λ self. api.cancel_job_jid (configuration self) task_id)
  cancel_if task_id false = return tt

  unfoldable pub task_stop : Text → Run (Unit {0})
  unfolding renew
  task_stop task_id = do
    renew api
    job ← job_details task_id
    cancel_if task_id (is_pending job.status)

  unfoldable pub task_status : Text → Run TaskStatus
  unfolding renew
  task_status task_id = do renew api; job ← job_details task_id; return (to_task_status job.status)

  abbrev pub result_of : Text → JobStatus → Run Text
  result_of task_id JobStatus.completed =
      call api ResourceKind.job (λ self. api.get_job_results_jid (configuration self) task_id)
  result_of task_id status = throw (
      QrmiError.task_not_ready task_id (
        text (codes "task is not completed (current status: ")
        ∷ text (status_name status)
        ∷ text (codes ")")
        ∷ []))

  unfoldable pub task_result : Text → Run Text
  unfolding renew
  task_result task_id = do renew api; job ← job_details task_id; result_of task_id job.status

  unfoldable pub task_logs : Text → Run Text
  task_logs task_id =
      call api ResourceKind.job (λ self. api.get_job_logs_jid (configuration self) task_id)

  -- The status is compared without case; only ASCII letters lower to those of the two words.
  abbrev pub is_up : Option Text → Bool
  is_up status =
      let lower = to_ascii_lowercase (unwrap_or status (codes "unknown")) in
      eq_text lower (codes "active") || eq_text lower (codes "online")

  unfoldable pub is_accessible : Run Bool
  unfolding renew eq_text to_ascii_lowercase
  is_accessible = do
    renew api
    status ←
        call api ResourceKind.backend
          (λ self. api.get_backend_status (configuration self) self.backend_name)
    return (is_up status)

  -- `if let Ok(..)`: a member whose request fails is null.
  abbrev pub member :
      Service
      → Result qrmi.Ibm.Api.ApiError Document × V
      → Result QrmiError (Option Value) × (Service × V)
  member self (ok document, v) = (
    qrmi.Result.◌>>=◌ (map_err QrmiError.invalid_json (api.to_value document))
        (λ val. ok (some val)),
    (self, v),
  )
  member self (err e, v) = (ok none, (self, v))

  abbrev pub configuration_member : Run (Option Value)
  configuration_member (self, v) =
      member self (api.get_backend_configuration (configuration self) self.backend_name v)

  abbrev pub properties_member : Run (Option Value)
  properties_member (self, v) =
      member self
        (api.get_backend_properties (configuration self) self.backend_name self.calibration_id v)

  unfoldable pub target : Run Text
  unfolding renew
  target = do
    renew api
    cfg ← configuration_member
    props ← properties_member
    return (api.print_target cfg props)
