-- ===== src/Pasqal/Cloud/Tasks.antt =====
-- The methods of the resource (src/pasqal/cloud.rs).
use qrmi.Prelude.{Bool, List, [], ◌∷◌, unwrap_or, if◌then◌else◌}
use qrmi.Prelude.Int.{ℤ}
use qrmi.Text.{Text, codes, eq_text}
use qrmi.Result.{Result, ok, err, map_err}
use qrmi.Exec.{Exec, ◌>>=◌, return, throw, lift}
use qrmi.Errors.{QrmiError, PasqalError, Message, plain}
use qrmi.Models.{Payload, TaskStatus}
use qrmi.Pasqal.Client.{Libraries, Client}
use qrmi.Pasqal.Client.Requests.{
  JobStatus, DeviceType, Models, get_device, create_batch, create_cudaq_job, cancel_batch,
  get_batch, get_cudaq_job, get_job, get_batch_results, get_device_specs,
}
use qrmi.Pasqal.Cloud.{
  PasqalTaskKind, pulser, cudaq, TaskKinds, kind_in, PasqalCloud, parse_device_type, map_job_status,
  Json, is_cudaq_sequence, normalize_cudaq_result,
}

module _ {V Value Specs JobResult : Type 0} (lib : Libraries V Value)
    (models : Models Value Specs JobResult) (json : Json Value) where
  abbrev pub World : Type 0
  World = PasqalCloud × V

  -- A call of the client, whose errors become `Other`.
  abbrev pub called :
      {A : Type 0} → PasqalCloud → Result Message A × (Client × V) → Result QrmiError A × World
  called self (r, (client, v)) =
      (map_err QrmiError.other r, (record self { api_client = client }, v))

  abbrev pub in_context : {A : Type 0} → Result QrmiError A × World → Result QrmiError A × World
  in_context (ok a, s) = (ok a, s)
  in_context (err e, s) = (err (QrmiError.other (plain "failed to get device")), s)

  abbrev pub call : {A : Type 0} → Exec (Client × V) Message A → Exec World QrmiError A
  call f (self, v) = called self (f (self.api_client, v))

  -- `.context(..)`, which stands before the error.
  abbrev pub failing_with : {A : Type 0} → Exec World QrmiError A → Exec World QrmiError A
  failing_with f s = in_context (f s)

  unfoldable pub task_status_from_job_id : Text → Exec World QrmiError TaskStatus
  unfolding get_job map_job_status
  task_status_from_job_id job_id = do
    status ← call (get_job lib models job_id)
    return (map_job_status status)

  abbrev pub first_job : Text → JobStatus × List Text → Result QrmiError Text
  first_job batch_id (status, []) =
      err (QrmiError.task_not_ready batch_id (plain "no jobs found for this batch"))
  first_job batch_id (status, job_id ∷ rest) = ok job_id

  unfoldable pub task_status_from_batch_id : Text → Exec World QrmiError TaskStatus
  unfolding get_batch task_status_from_job_id
  task_status_from_batch_id batch_id = do
    b ← call (get_batch lib models batch_id)
    job_id ← lift (first_job batch_id b)
    task_status_from_job_id job_id

  unfoldable pub task_result_from_cudaq : Text → Exec World QrmiError Text
  unfolding get_cudaq_job normalize_cudaq_result
  task_result_from_cudaq task_id = do
    result ← call (get_cudaq_job lib models task_id)
    return (normalize_cudaq_result json result)

  unfoldable pub task_kind : TaskKinds → Text → PasqalTaskKind
  unfolding kind_in
  task_kind kinds task_id = unwrap_or (kind_in kinds task_id) pulser

  unfoldable pub is_accessible : Exec World QrmiError Bool
  unfolding parse_device_type get_device eq_text
  is_accessible (self, v) =
      (do
        device_type ← lift (parse_device_type lib.to_uppercase self.backend_name)
        availability ← failing_with (call (get_device lib models device_type))
        return (eq_text availability (codes "ACTIVE")))
        (self, v)

  -- `self.task_kinds.insert(..)`.
  abbrev pub remember : PasqalTaskKind → Text → Exec World QrmiError Text
  remember kind id (self, v) =
      (ok id, (record self { task_kinds = (id, kind) ∷ self.task_kinds }, v))

  abbrev pub started_cudaq : ℤ → DeviceType → Result Text Value → Exec World QrmiError Text
  started_cudaq job_runs device_type (err e) =
      throw (QrmiError.pasqal (PasqalError.invalid_cudaq_sequence e))
  started_cudaq job_runs device_type (ok sequence) = do
    id ← call (create_cudaq_job lib models sequence job_runs device_type)
    remember cudaq id

  abbrev pub started_batch : Text → ℤ → DeviceType → Exec World QrmiError Text
  started_batch sequence job_runs device_type = do
    id ← call (create_batch lib models sequence job_runs device_type)
    remember pulser id

  abbrev pub submit : Text → ℤ → DeviceType → Exec World QrmiError Text
  submit sequence job_runs device_type =
      if is_cudaq_sequence json sequence
      then started_cudaq job_runs device_type (json.from_str sequence)
      else started_batch sequence job_runs device_type

  abbrev pub start : Text → ℤ → Exec World QrmiError Text
  start sequence job_runs (self, v) =
      (do
        device_type ← lift (parse_device_type lib.to_uppercase self.backend_name)
        submit sequence job_runs device_type)
        (self, v)

  unfoldable pub task_start : Payload → Exec World QrmiError Text
  unfolding parse_device_type is_cudaq_sequence create_cudaq_job create_batch
  task_start (Payload.pasqal_cloud sequence job_runs) = start sequence job_runs
  task_start payload = throw (QrmiError.unsupported_payload payload)

  unfoldable pub task_stop : Text → Exec World QrmiError (Unit {0})
  unfolding cancel_batch
  task_stop task_id = call (cancel_batch lib models task_id)

  unfoldable pub task_status : Text → Exec World QrmiError TaskStatus
  unfolding task_status_from_batch_id
  task_status task_id = task_status_from_batch_id task_id

  abbrev pub result_by : PasqalTaskKind → Text → Exec World QrmiError Text
  result_by pulser task_id = call (get_batch_results lib models task_id)
  result_by cudaq task_id = task_result_from_cudaq task_id

  unfoldable pub task_result : Text → Exec World QrmiError Text
  unfolding task_kind get_batch_results task_result_from_cudaq
  task_result task_id (self, v) = result_by (task_kind self.task_kinds task_id) task_id (self, v)

  unfoldable pub task_logs : Text → Exec World QrmiError Text
  task_logs task_id = return (codes "There are no logs for this job.")

  unfoldable pub target : Exec World QrmiError Text
  unfolding parse_device_type get_device_specs
  target (self, v) =
      (do
        device_type ← lift (parse_device_type lib.to_uppercase self.backend_name)
        call (get_device_specs lib models device_type))
        (self, v)
