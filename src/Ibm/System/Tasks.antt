-- ===== src/Ibm/System/Tasks.antt =====
-- The methods of an IBM Quantum System that call the service.
pub mod Once
pub mod Stop
use qrmi.Prelude.{
  ℕ, ◌-◌, Bool, true, false, ◌&&◌, Option, none, some, List, [], ◌∷◌, ◌++◌, unwrap_or, length,
  if◌then◌else◌, suc,
}
use qrmi.Text.{Text, codes, eq_text, parse_u64}
use qrmi.Result.{Result, ok, err, map_err, ok_or}
use qrmi.Exec.{Exec, ◌>>=◌, ◌>>◌, return, throw, lift}
use qrmi.Errors.{QrmiError, unknown_program_id, text, Message, plain}
use qrmi.Models.{Payload, TaskStatus, ResourceStatus, ResourceStatusCode, qiskit_primitive}
use qrmi.Settings.{Env}
use qrmi.Ibm.System.Api.{
  SystemApi, SystemError, from_error, S3Env, Request, SystemJob, SystemJobStatus, Backend,
  BackendStatus, ProgramId, program_of, JobDetails,
}
use qrmi.Ibm.System.{Settings, System, key, require, s3_store}

abbrev pub code_of : BackendStatus → ResourceStatusCode
code_of BackendStatus.online = ResourceStatusCode.online
code_of BackendStatus.offline = ResourceStatusCode.offline
code_of BackendStatus.paused = ResourceStatusCode.paused

abbrev pub is_online : BackendStatus → Bool
is_online BackendStatus.online = true
is_online _ = false

abbrev pub is_running : SystemJobStatus → Bool
is_running SystemJobStatus.running = true
is_running _ = false

-- The running jobs of a backend.
unfoldable pub running_count : Text → List SystemJob → ℕ
unfolding eq_text
running_count name [] = 0
running_count name (job ∷ jobs) =
    let rest = running_count name jobs in
    if eq_text job.backend name && is_running job.status then suc rest else rest

-- `saturating_sub` is the subtraction of natural numbers.
abbrev pub describe : Backend → ℕ → ℕ → ResourceStatus
describe backend lanes count = record {
  status = code_of backend.status;
  status_reason = none;
  healthy = none;
  busy = backend.locked;
  capacity = some (record { available_slots = lanes - count; max_slots = lanes });
  pending_job_count = none;
}

abbrev pub to_task_status : SystemJobStatus → TaskStatus
to_task_status SystemJobStatus.running = TaskStatus.running
to_task_status SystemJobStatus.completed = TaskStatus.completed
to_task_status SystemJobStatus.cancelled = TaskStatus.cancelled
to_task_status SystemJobStatus.failed = TaskStatus.failed

module _ {V Client Value : Type 0} (api : SystemApi V Client Value) (env : Env)
    (self : System Client) where
  abbrev Run : Type 0 → Type 0
  Run A = Exec V QrmiError A

  abbrev pub converted : {A : Type 0} → Result SystemError A × V → Result QrmiError A × V
  converted (r, v) = (map_err from_error r, v)

  -- `call(..).await?`
  abbrev pub call : {A : Type 0} → Exec V SystemError A → Run A
  call f v = converted (f v)

  unfoldable pub is_accessible : Run Bool
  unfolding from_error
  is_accessible = do
    backend ← call (api.get_backend self.api_client self.backend_name)
    return (is_online backend.status)

  -- The code makes the three requests concurrently; here they are in the order in which it names
  -- them.
  unfoldable pub status : Run ResourceStatus
  unfolding from_error running_count
  status = do
    backend ← call (api.get_backend self.api_client self.backend_name)
    lanes ← call (api.get_backend_lanes_configuration self.api_client self.backend_name)
    jobs ← call (api.list_jobs self.api_client)
    return (describe backend lanes (running_count self.backend_name jobs))

  abbrev pub timeout_key : Text
  timeout_key = key env self.settings "QRMI_JOB_TIMEOUT_SECONDS"

  abbrev pub parse : Text → Result QrmiError Value
  parse input = map_err QrmiError.invalid_json (api.from_str input)

  abbrev pub program : Text → Result QrmiError ProgramId
  program program_id =
      ok_or (program_of program_id) (QrmiError.ibm (unknown_program_id (text program_id ∷ [])))

  abbrev pub job_request : ℕ → Value → ProgramId → Request Value
  job_request timeout_secs job_input program_id = record {
    backend = self.backend_name;
    program_id = program_id;
    timeout_secs = timeout_secs;
    job_input = job_input;
  }

  abbrev pub request_of : ℕ → Text → Text → Run (Request Value)
  request_of timeout_secs input program_id = do
    job_input ← lift (parse input)
    program_id ← lift (program program_id)
    return (job_request timeout_secs job_input program_id)

  abbrev pub requested : ℕ → Payload → Run (Request Value)
  requested timeout_secs (qiskit_primitive input program_id) =
      request_of timeout_secs input program_id
  requested timeout_secs payload = throw (QrmiError.unsupported_payload payload)

  abbrev pub seconds : Text → Result QrmiError ℕ
  seconds timeout = ok_or (parse_u64 timeout) (QrmiError.parse_error timeout_key timeout)

  abbrev pub run : Request Value → Run Text
  run request = call (api.run_primitive self.api_client request)

  abbrev pub submit : Payload → ℕ → Run Text
  submit payload timeout_secs = do request ← requested timeout_secs payload; run request

  abbrev pub start_within : Payload → Text → Run Text
  start_within payload timeout = do
    timeout_secs ← lift (seconds timeout)
    submit payload timeout_secs

  unfoldable pub task_start : Payload → Run Text
  unfolding require parse_u64 program_of from_error
  task_start payload = do
    timeout ← lift (require env self.settings "QRMI_JOB_TIMEOUT_SECONDS")
    start_within payload timeout

  -- `let _ = cancel_job(..)`: an error of the cancellation is dropped.
  abbrev pub dropped : Result SystemError (Unit {0}) × V → Result QrmiError (Unit {0}) × V
  dropped (r, v) = (ok tt, v)

  abbrev pub cancel_if : Text → Bool → Run (Unit {0})
  cancel_if task_id true v = dropped (api.cancel_job self.api_client task_id false v)
  cancel_if task_id false v = (ok tt, v)

  unfoldable pub task_stop : Text → Run (Unit {0})
  unfolding from_error
  task_stop task_id = do
    status ← call (api.get_job_status self.api_client task_id)
    cancel_if task_id (is_running status)
    call (api.delete_job self.api_client task_id)

  unfoldable pub task_status : Text → Run TaskStatus
  unfolding from_error
  task_status task_id = do
    status ← call (api.get_job_status self.api_client task_id)
    return (to_task_status status)

  abbrev pub text_of : List ℕ → Run Text
  text_of bytes = lift (map_err QrmiError.invalid_utf8 (api.from_utf8 bytes))

  abbrev pub object_text : S3Env → Text → Run Text
  object_text s3 name = do bytes ← call (api.get_object s3 name); text_of bytes

  abbrev pub failure : JobDetails → Message
  failure job =
      text (codes "task failed. code: ")
      ∷ text (unwrap_or job.reason_code [])
      ∷ text (codes ", message: ")
      ∷ text (unwrap_or job.reason_message [])
      ∷ text (codes ", solution: ")
      ∷ text (unwrap_or job.reason_solution [])
      ∷ []

  -- Only a completed task has a result.
  abbrev pub result_of : S3Env → Text → JobDetails → SystemJobStatus → Run Text
  result_of s3 task_id job SystemJobStatus.failed =
      throw (QrmiError.task_not_ready task_id (failure job))
  result_of s3 task_id job SystemJobStatus.cancelled =
      throw (QrmiError.task_not_ready task_id (plain "task was cancelled"))
  result_of s3 task_id job SystemJobStatus.running =
      throw (QrmiError.task_not_ready task_id (plain "task is running"))
  result_of s3 task_id job SystemJobStatus.completed =
      object_text s3 (codes "results_" ++ (task_id ++ codes ".json"))

  unfoldable pub task_result : Text → Run Text
  unfolding s3_store from_error
  task_result task_id = do
    s3 ← lift (s3_store api env self)
    job ← call (api.get_job self.api_client task_id)
    result_of s3 task_id job job.status

  unfoldable pub task_logs : Text → Run Text
  unfolding s3_store from_error
  task_logs task_id = do
    s3 ← lift (s3_store api env self)
    object_text s3 (codes "logs_" ++ (task_id ++ codes ".json"))

  unfoldable pub target : Run Text
  unfolding from_error
  target = do
    config ← call (api.get_backend_configuration self.api_client self.backend_name)
    props ← call (api.get_backend_properties self.api_client self.backend_name)
    return (api.print_target config props)
