-- ===== src/Tests/Systems.antt =====
-- The theorems on IBM Quantum System in a small world, and on the access to Pasqal Cloud.
use qrmi.Prelude.{ℕ, suc, ◌≡◌, refl, none, some, []}
use qrmi.Text.{Text, codes}
use qrmi.Result.{ok}
use qrmi.Exec.{return}
use qrmi.Settings.{Env, resolve_opt}
use qrmi.Pasqal.File.{PasqalCloudConfig, default}
use qrmi.Ibm.System.Api.{SystemApi, SystemJobStatus, BackendStatus}
use qrmi.Ibm.System.{Settings, System, settings_of, s3_env, s3_store, from_settings, system_of}
use qrmi.Ibm.System.Storage.{s3_store-s3_env}

-- The world is the number of tasks that were ever created; the service forgets a deleted one.
abbrev pub api : SystemApi ℕ Text Text
api = record {
  build = λ c. ok (codes "client");
  build_plain = λ e a c i. ok (codes "client");
  list_backends = λ c. return [];
  get_backend = λ c name. return (record { status = BackendStatus.online; locked = none });
  get_backend_lanes_configuration = λ c name. return 3;
  list_jobs = λ c. return [];
  run_primitive = λ c q n. (ok (codes "j1"), suc n);
  get_job_status = λ c id. return SystemJobStatus.running;
  cancel_job = λ c id b. return tt;
  delete_job = λ c id. return tt;
  get_job = λ c id. return (record {
    status = SystemJobStatus.completed;
    reason_code = none;
    reason_message = none;
    reason_solution = none;
  });
  get_backend_configuration = λ c name. return (codes "{}");
  get_backend_properties = λ c name. return (codes "{}");
  get_object = λ s3 name. return [];
  from_utf8 = λ bytes. ok bytes;
  from_str = λ text. ok text;
  print_target = λ cfg props. cfg;
}

-- Every setting is the number 7.
abbrev pub env : Env
env key = some (codes "7")

abbrev settings : Settings
settings = settings_of (codes "q") none

abbrev pub system : System Text
system = system_of env (codes "q") settings (codes "client")

built-system : from_settings api env (codes "q") settings ≡ ok system
unfolding from_settings resolve_opt
built-system = refl

s3_store-s3_env_example : s3_store api env system ≡ s3_env env settings
s3_store-s3_env_example = s3_store-s3_env api env (codes "q") settings system built-system

abbrev access : PasqalCloudConfig
access = record default { project_id = some (codes " "); token = some (codes "t") }
