-- ===== src/Tests/Pasqals.antt =====
-- The theorems on Pasqal Cloud in a small world.
use qrmi.Prelude.{ℕ, suc, ◌≡◌, refl, none, some, [], ◌∷◌, false}
use qrmi.Prelude.Int.{pos}
use qrmi.Text.{Text, codes, to_ascii_uppercase}
use qrmi.Result.{ok, err}
use qrmi.Models.{Payload, pasqal_cloud}
use qrmi.Settings.{Env}
use qrmi.Pasqal.File.{PasqalCloudConfig, default}
use qrmi.Pasqal.Client.{Libraries, Client, ensure_authenticated}
use qrmi.Pasqal.Client.Auth.{Ensured, ensure_authenticated-Ensured}
use qrmi.Pasqal.Client.Header.{IsBearer}
use qrmi.Pasqal.Client.Requests.{JobStatus, Models}
use qrmi.Pasqal.Cloud.{is_cudaq_sequence, cudaq, PasqalCloud, Json}
use qrmi.Pasqal.Cloud.Build.{from_pasqal_cloud_config}
use qrmi.Pasqal.Cloud.Tasks.{task_start, task_stop}
use qrmi.Pasqal.Cloud.Promises.{
  Started, AskedAt, payload_kind, task_start-Started, task_result-task_start,
}
use qrmi.Pasqal.Cloud.Reach.{built, then_step, stops, Reached-IsBearer}

-- The world counts the requests; a value is its text, and a payload of a token cannot be read.
abbrev lib : Libraries ℕ Text
lib = record {
  to_uppercase = to_ascii_uppercase;
  now_unix_seconds = λ n. (ok 1000, n);
  send = λ q n. (ok (200, codes "{}"), suc n);
  post_form = λ url form n. (ok (200, codes "new"), suc n);
  header_value = λ h. ok h;
  decode_payload = λ payload. err (codes "bad");
  exp_member = λ v. none;
  as_i64 = λ v. none;
  as_str = λ v. none;
  access_token = λ body. ok body;
}

abbrev models : Models Text Text Text
models = record {
  devices = λ t. ok (codes "ACTIVE" ∷ []);
  created = λ t. ok (codes "b1");
  cancelled = λ t. ok tt;
  batch_data = λ t. ok (JobStatus.running, codes "j1" ∷ []);
  cudaq_result = λ t. ok t;
  job_status = λ t. ok JobStatus.running;
  full_results = λ t. ok ((codes "j1", codes "counts") ∷ []);
  print_result = λ r. ok r;
  public_specs = λ t. ok t;
  device_specs = λ t. ok t;
  print_specs = λ s. ok s;
}

-- Every text is an object with the members of a CUDA-Q sequence.
abbrev json : Json Text
json = record {
  from_str = λ t. ok t;
  as_object = λ v. some ((codes "setup", []) ∷ (codes "hamiltonian", []) ∷ []);
  is_number = λ v. false;
  print_counter = λ v. v;
}

abbrev client : Client
client = record {
  base_url = codes "https://apis.pasqal.cloud";
  project_id = codes "p";
  auth_token = codes "tok";
  auth_header = some (codes "Bearer tok");
  auth_endpoint = codes "authenticate.pasqal.cloud/oauth/token";
  username = some (codes "u");
  password = some (codes "w");
  client_id = none;
  client_secret = none;
}

abbrev stale : Client
stale = record client { auth_token = []; auth_header = none }

ensure_authenticated-Ensured_example :
    Ensured lib stale 1000 0 (ensure_authenticated lib (stale, 0))
ensure_authenticated-Ensured_example = ensure_authenticated-Ensured lib stale 1000 0 0 refl

abbrev cloud : PasqalCloud
cloud = record { api_client = client; backend_name = codes "EMU_FREE"; task_kinds = [] }

abbrev sequence : Payload
sequence = pasqal_cloud (codes "{}") (pos 100)

abbrev cloud' : PasqalCloud
cloud' = record cloud { task_kinds = (codes "b1", cudaq) ∷ [] }

started : task_start lib models json sequence (cloud, 0) ≡ (ok (codes "b1"), (cloud', 1))
unfolding task_start to_ascii_uppercase
started = refl

task_start-Started_example :
    Started lib models json cloud 0
      (payload_kind json sequence)
      (task_start lib models json sequence (cloud, 0))
task_start-Started_example = task_start-Started lib models json cloud 0 sequence

task_result-task_start_example :
    AskedAt lib models json
      (is_cudaq_sequence json (codes "{}"))
      (codes "b1")
      (record cloud' { api_client = stale }, 5)
task_result-task_start_example =
    task_result-task_start lib models json (codes "{}") (pos 100) cloud cloud' 0 1 5 stale
      (codes "b1") started

abbrev env : Env
env key = none

abbrev cfg : PasqalCloudConfig
cfg = record default { token = some (codes "tok") }

abbrev fresh : PasqalCloud
fresh = record {
  api_client = record client { project_id = []; username = none; password = none };
  backend_name = codes "EMU_FREE";
  task_kinds = [];
}

fresh_built : from_pasqal_cloud_config lib (ok tt) env (codes "EMU_FREE") cfg ≡ ok fresh
unfolding from_pasqal_cloud_config
fresh_built = refl

Reached-IsBearer_example :
    IsBearer lib (task_stop lib models json (codes "b1") (fresh, 3)).1.0.api_client
Reached-IsBearer_example =
    Reached-IsBearer lib models json (ok tt) env (codes "EMU_FREE") cfg
      (then_step (built fresh_built) (stops (codes "b1") 3 refl))
