-- ===== src/Tests/Cloud.antt =====
-- A world for the Quantum Compute Service: the session that is open, if any, and the status of the
-- one task. The list of jobs holds that task, which runs in the session `s0`.
use qrmi.Prelude.{Option, none, some, List, [], ◌∷◌, take, drop, unwrap_or}
use qrmi.Prelude.Int.{pos}
use qrmi.Text.{Text, codes}
use qrmi.Result.{ok}
use qrmi.Exec.{return}
use qrmi.Ibm.Api.{Api, Job, JobStatus, Session, SessionState, Mode}
use qrmi.Ibm.Compute.State.{Service}

abbrev pub Cloud : Type 0
Cloud = Option Text × JobStatus

abbrev pub jobs : List Job
jobs = record { status = JobStatus.running; session_id = some (codes "s0") } ∷ []

abbrev pub sessions : Text → Session
sessions id = record {
  id = id;
  state = some SessionState.active;
  mode = Mode.dedicated;
  active_ttl = some (pos 0);
  max_ttl = some (pos 28800);
}

abbrev pub api : Api Cloud Text Text Text
api = record {
  current_unix_timestamp = λ v. (1000, v);
  fetch_access_token = λ key endpoint. return (codes "bearer", 4600, 3600);
  list_jobs = λ c q. return (some (take 200 (drop (unwrap_or q.offset 0) jobs)));
  get_job = λ c id v. (ok (record { status = v.1; session_id = none }), v);
  create_job = λ c q v. (ok (codes "j1"), (v.0, JobStatus.queued));
  cancel_job_jid = λ c id v. (ok tt, (v.0, JobStatus.cancelled));
  get_job_results_jid = λ c id. return (codes "counts");
  get_job_logs_jid = λ c id. return [];
  get_session = λ c id version. return (sessions id);
  create_session = λ c q v. (ok (sessions (codes "s1")), (some (codes "s1"), v.1));
  update_session = λ c id b v. (ok tt, (none, v.1));
  delete_session_close = λ c id v. (ok tt, (none, v.1));
  list_backends = λ c version. return none;
  get_backend_status = λ c name. return (some (codes "active"));
  get_backend_configuration = λ c name. return (codes "{}");
  get_backend_properties = λ c name calibration. return (codes "{}");
  from_str = λ text. ok text;
  from_value = λ kind value. ok value;
  executor_input = λ value. value;
  to_value = λ document. ok document;
  print_target = λ cfg props. unwrap_or cfg [];
}

-- A service that holds the session `s0`.
abbrev pub service : Service
service = record {
  base_path = codes "https://service";
  crn = codes "crn";
  backend_name = codes "torino";
  session_id = some (codes "s0");
  calibration_id = none;
  timeout_secs = none;
  session_mode = codes "Dedicated";
  session_max_ttl = pos 28800;
  api_key = codes "key";
  iam_endpoint = codes "https://iam";
  token = record { bearer = none; expiration = 0; lifetime = 0 };
}

-- The session `s0` is open, and the task runs.
abbrev pub world : Cloud
world = (some (codes "s0"), JobStatus.running)
