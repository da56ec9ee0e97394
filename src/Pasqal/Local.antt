-- ===== src/Pasqal/Local.antt =====
-- The resource of Pasqal Local (src/pasqal/local.rs) over the client of its middleware, which is in
-- Client (dependencies/pasqal_local_client).
pub mod Client
pub mod Promises
use qrmi.Prelude.{Option, none, some, ◌∷◌, [], ◌++◌, Bool, is_empty, if◌then◌else◌}
use qrmi.Prelude.Int.{ℤ}
use qrmi.Text.{Text, codes, parse_i32, print_ℤ}
use qrmi.Result.{Result, ok, err, ok_or, map_err}
use qrmi.Errors.{QrmiError, Message, text, debug}
use qrmi.Exec.{Exec, continue}
use qrmi.Models.{Payload, TaskStatus}
use qrmi.Settings.{Env, Config, resolve_opt, resolve_opt_required, required_env}
use qrmi.Pasqal.Local.Client.{
  Libraries, JobStatus, JobResponse, get_job, create_job, cancel_job, get_accessible,
  create_session, revoke_session, get_device_specs, get_task_logs,
}

-- `base_url` is the one field of `api_client`, besides the HTTP client, which is taken to be built.
pub record PasqalLocal : Type 0 where
  pub base_url : Text
  pub backend_name : Text
  pub job_uid : ℤ
  pub job_id : Text
  pub acquisition_token : Option Text

abbrev pub prefix : Text → Option Config → Text
prefix backend_name (some config) = []
prefix backend_name none = backend_name ++ codes "_"

abbrev pub warden_url_var : Text → Option Config → Text
warden_url_var backend_name config = prefix backend_name config ++ codes "QRMI_WARDEN_URL"

abbrev pub legacy_url_var : Text → Option Config → Text
legacy_url_var backend_name config = prefix backend_name config ++ codes "QRMI_URL"

abbrev pub or_legacy : Result QrmiError Text → Option Text → Result QrmiError Text
or_legacy (ok url) legacy = ok url
or_legacy (err e) (some url) = ok url
or_legacy (err e) none = err e

module _ (env : Env) (backend_name : Text) (config : Option Config) where
  unfoldable pub warden_url : Result QrmiError Text
  unfolding resolve_opt_required
  warden_url =
      or_legacy (resolve_opt_required env (warden_url_var backend_name config) config)
        (resolve_opt env (legacy_url_var backend_name config) config)

  unfoldable pub read_job_uid : Text → Result QrmiError ℤ
  read_job_uid job_uid_str =
      ok_or (parse_i32 job_uid_str) (QrmiError.parse_error (codes "QRMI_JOB_UID") job_uid_str)

  abbrev pub with_job : Text → ℤ → Result QrmiError Text → Result QrmiError PasqalLocal
  with_job url job_uid (err e) = err e
  with_job url job_uid (ok job_id) = ok (record {
    base_url = url;
    backend_name = backend_name;
    job_uid = job_uid;
    job_id = job_id;
    acquisition_token =
        resolve_opt env (prefix backend_name config ++ codes "QRMI_JOB_ACQUISITION_TOKEN") config;
  })

  abbrev pub with_uid : Text → Result QrmiError ℤ → Result QrmiError PasqalLocal
  with_uid url (err e) = err e
  with_uid url (ok job_uid) =
      with_job url job_uid (resolve_opt_required env (codes "QRMI_JOB_ID") config)

  abbrev pub with_uid_text : Text → Result QrmiError Text → Result QrmiError PasqalLocal
  with_uid_text url (err e) = err e
  with_uid_text url (ok job_uid_str) = with_uid url (read_job_uid job_uid_str)

  abbrev pub with_url : Result QrmiError Text → Result QrmiError PasqalLocal
  with_url (err e) = err e
  with_url (ok url) = with_uid_text url (resolve_opt_required env (codes "QRMI_JOB_UID") config)

  unfoldable pub from_opt : Result QrmiError PasqalLocal
  unfolding warden_url read_job_uid resolve_opt_required
  from_opt = with_url warden_url

abbrev pub map_status : JobStatus → TaskStatus
map_status JobStatus.pending = TaskStatus.queued
map_status JobStatus.running = TaskStatus.running
map_status JobStatus.done = TaskStatus.completed
map_status JobStatus.canceled = TaskStatus.cancelled
map_status JobStatus.error = TaskStatus.failed

abbrev pub status_name : JobStatus → Text
status_name JobStatus.pending = codes "Pending"
status_name JobStatus.running = codes "Running"
status_name JobStatus.done = codes "Done"
status_name JobStatus.canceled = codes "Canceled"
status_name JobStatus.error = codes "Error"

abbrev pub token_or : Env → Text → Option Text → Result QrmiError Text
token_or env backend_name (some token) = ok token
token_or env backend_name none =
    required_env env (backend_name ++ codes "_QRMI_JOB_ACQUISITION_TOKEN")

-- The environment as it is when a method is called.
module _ {V : Type 0} (lib : Libraries V) (env : Env) (self : PasqalLocal) where
  unfoldable pub acquisition_token : Result QrmiError Text
  unfolding required_env
  acquisition_token = token_or env self.backend_name self.acquisition_token

  -- A call of the client with what follows, which does not fail unless it says so.
  abbrev pub called :
      {A B : Type 0} → (A → Result QrmiError B) → Result Message A × V → Result QrmiError B × V
  called next (err e, v) = (err (QrmiError.other e), v)
  called next (ok a, v) = (next a, v)

  unfoldable pub is_accessible : Exec V QrmiError Bool
  unfolding get_accessible
  is_accessible v = called (λ b. ok b) (get_accessible lib self.base_url v)

  unfoldable pub acquire : Exec V QrmiError Text
  unfolding create_session
  acquire v = called (λ id. ok id) (create_session lib self.base_url self.job_uid self.job_id v)

  abbrev pub revoked : Result QrmiError Text → Exec V QrmiError (Unit {0})
  revoked (err e) v = (err e, v)
  revoked (ok session_id) v = called (λ s. ok tt) (revoke_session lib self.base_url session_id v)

  unfoldable pub release : Text → Exec V QrmiError (Unit {0})
  unfolding acquisition_token revoke_session
  release id = revoked (if is_empty id then acquisition_token else ok id)

  abbrev pub submit : Result QrmiError Text → Payload → Exec V QrmiError Text
  submit (err e) payload v = (err e, v)
  submit (ok session_id) (Payload.pasqal_cloud sequence job_runs) v =
      called (λ (job : JobResponse). ok (print_ℤ job.id))
        (create_job lib self.base_url sequence job_runs session_id v)
  submit (ok session_id) payload v = (err (QrmiError.unsupported_payload payload), v)

  unfoldable pub task_start : Payload → Exec V QrmiError Text
  unfolding acquisition_token create_job print_ℤ
  task_start payload = submit acquisition_token payload

  unfoldable pub task_stop : Text → Exec V QrmiError (Unit {0})
  unfolding cancel_job
  task_stop task_id v =
      called (λ (job : JobResponse). ok tt) (cancel_job lib self.base_url task_id v)

  unfoldable pub task_status : Text → Exec V QrmiError TaskStatus
  unfolding get_job
  task_status task_id v =
      called (λ (job : JobResponse). ok (map_status job.status))
        (get_job lib self.base_url task_id v)

  abbrev pub results_of : Text → JobResponse → Result QrmiError Text
  results_of task_id job = ok_or job.results (
      QrmiError.task_not_ready task_id (
        text (codes "results not available (current status: ")
        ∷ text (status_name job.status)
        ∷ text (codes ")")
        ∷ []))

  unfoldable pub task_result : Text → Exec V QrmiError Text
  unfolding get_job
  task_result task_id v = called (results_of task_id) (get_job lib self.base_url task_id v)

  unfoldable pub task_logs : Text → Exec V QrmiError Text
  unfolding get_task_logs
  task_logs task_id v = called (λ logs. ok logs) (get_task_logs lib self.base_url task_id v)

  unfoldable pub target : Exec V QrmiError Text
  unfolding get_device_specs
  target v = called (λ specs. ok specs) (get_device_specs lib self.base_url v)
