-- ===== src/Tests/Stops.antt =====
-- The theorem on `task_stop` of an IBM Quantum System in a world of the requests that were made.
use qrmi.Prelude.{List, ◌∷◌, refl, none, []}
use qrmi.Tests.Systems.{system, env}
use qrmi.Ibm.System.Tasks.Stop.{
  Request, status_asked, cancelled, deleted, IsLog, Deleted, Asked, task_stop_deletes,
}
use qrmi.Exec.{Post, return}
use qrmi.Text.{Text, codes}
use qrmi.Result.{ok}
use qrmi.Ibm.System.Api.{SystemApi, SystemJobStatus, BackendStatus}
use qrmi.Ibm.System.Tasks.{task_stop}

abbrev log_api : SystemApi (List Request) Text Text
log_api = record {
  build = λ c. ok (codes "client");
  build_plain = λ e a c i. ok (codes "client");
  list_backends = λ c. return [];
  get_backend = λ c name. return (record { status = BackendStatus.online; locked = none });
  get_backend_lanes_configuration = λ c name. return 3;
  list_jobs = λ c. return [];
  run_primitive = λ c q. return (codes "j1");
  get_job_status = λ c id l. (ok SystemJobStatus.running, status_asked id ∷ l);
  cancel_job = λ c id b l. (ok tt, cancelled id ∷ l);
  delete_job = λ c id l. (ok tt, deleted id ∷ l);
  get_job = λ c id. return (record {
    status = SystemJobStatus.completed;
    reason_code = none;
    reason_message = none;
    reason_solution = none;
  });
  get_backend_configuration = λ c name. return (codes "{}");
  get_backend_properties = λ c name. return (codes "{}");
  get_object = λ s3 name. return [];
  from_utf8 = λ bytes. ok bytes;
  from_str = λ text. ok text;
  print_target = λ cfg props. cfg;
}

is_log : IsLog log_api (λ l. l) (λ l id. SystemJobStatus.running)
is_log = record {
  status = λ c id v. (refl, refl);
  cancel = λ c id b v. refl;
  delete = λ c id v. refl;
}

task_stop_deletes_example :
    Post
      (λ u.
        Deleted log_api
          (λ l. l)
          (λ l id. SystemJobStatus.running)
          is_log
          env
          system
          (codes "j1")
          [])
      (λ e.
        Asked log_api (λ l. l) (λ l id. SystemJobStatus.running) is_log env system (codes "j1") [])
      (task_stop log_api env system (codes "j1") [])
task_stop_deletes_example =
    task_stop_deletes log_api (λ l. l) (λ l id. SystemJobStatus.running) is_log env system
      (codes "j1") []
