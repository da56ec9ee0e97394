-- ===== src/Tests/Locals.antt =====
-- The theorems on Pasqal Local in a small world.
use qrmi.Prelude.{ℕ, suc, none, some}
use qrmi.Prelude.Int.{pos}
use qrmi.Text.{codes}
use qrmi.Result.{ok, err}
use qrmi.Models.{pasqal_cloud}
use qrmi.Settings.{Env}
use qrmi.Pasqal.Local.Client.{Libraries, JobStatus}
use qrmi.Pasqal.Local.{PasqalLocal, task_start}
use qrmi.Pasqal.Local.Promises.{IsConfigured}
use qrmi.Pasqal.Local.Promises

-- The world counts the requests.
abbrev lib : Libraries ℕ
lib = record {
  munge = λ n. (ok (codes "credential"), n);
  send = λ q n. (ok (200, codes "{}"), suc n);
  job = λ t. ok (record { id = pos 12; status = JobStatus.pending; results = none });
  accessible = λ t. err (codes "no such field");
  session = λ t. ok (codes "s1");
  specs = λ t. ok t;
  logs = λ t. ok t;
  print_specs = λ t. ok t;
}

-- Every setting is the number 7.
abbrev env : Env
env key = some (codes "7")

abbrev local : PasqalLocal
local = record {
  base_url = codes "http://localhost:4207";
  backend_name = codes "FRESNEL";
  job_uid = pos 7;
  job_id = codes "7";
  acquisition_token = none;
}

task_start-Submitted_example :
    Promises.Submitted lib env local
      (pasqal_cloud (codes "{}") (pos 100))
      0
      (task_start lib env local (pasqal_cloud (codes "{}") (pos 100)) 0)
task_start-Submitted_example =
    Promises.task_start-Submitted lib env local (pasqal_cloud (codes "{}") (pos 100)) 0
