-- ===== src/Tests/Computers.antt =====
-- The theorem on IQM Server in a small world.
use qrmi.Prelude.{ℕ, suc, none, some, []}
use qrmi.Text.{Text, codes}
use qrmi.Result.{ok, err}
use qrmi.Exec.{Post}
use qrmi.Iqm.{Json, Api, IqmServer, ApiError}
use qrmi.Iqm.Tasks.{task_result}
use qrmi.Iqm.Promises.{IsResult, IsNoResult, task_result-Answered}

-- Every value is its text.
abbrev json : Json Text
json = record {
  null = codes "null";
  from_str = λ t. ok t;
  object = λ members. codes "{}";
  to_string = λ t. t;
  to_string_pretty = λ t. ok t;
  details = λ t. err (codes "no details");
  health = λ t. ok none;
  pointer = λ t path. none;
  get = λ t name. none;
  as_i64 = λ t. none;
}

-- The world counts the requests; the first of them finds nothing, and no job has a record.
abbrev artifact : ℕ → ApiError
artifact n = ApiError.response_error 404 (codes "no such artifact") (codes "404")

abbrev api : Api ℕ Text
api = record {
  default_user_agent = none;
  printed = λ n. codes "status";
  send = λ q n. (ok (200, codes "{}"), suc n);
  job_submit = λ c q t u g p n. (err (artifact n), suc n);
  get_job_v1 = λ c t w s n. (err (artifact n), suc n);
  cancel_job_v1 = λ c t n. (ok tt, suc n);
  job_get_artifacts = λ c t a n. (err (artifact n), suc n);
  qc_get_artifacts = λ c q a n. (err (artifact n), suc n);
  get_dynamic_quantum_architecture_v1 = λ c q s n. (ok [], suc n);
  get_calibration_set_v1 = λ c q s n. (ok [], suc n);
  get_quality_metrics_v1 = λ c q s n. (ok [], suc n);
}

abbrev server : IqmServer
server = record {
  config = record {
    base_path = codes "https://iqm";
    user_agent = none;
    bearer_access_token = some (codes "t");
  };
  backend_name = codes "garnet:mock";
  calibration_set_id = codes "default";
  acquisition_token = none;
}

task_result-Answered_example :
    Post
      (IsResult json api server (codes "j1") 0)
      (λ e v'. IsNoResult json api server (codes "j1") 0 e)
      (task_result json api server (codes "j1") 0)
task_result-Answered_example = task_result-Answered json api server (codes "j1") 0
