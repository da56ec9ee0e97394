-- ===== src/Tests/World.antt =====
-- A world for the task runner: the number of polls for which the task still runs. Its resource and
-- its streams work.
use qrmi.Prelude.{ℕ, zero, suc, ◌-◌, true, []}
use qrmi.Text.{codes}
use qrmi.Result.{ok}
use qrmi.Exec.{return}
use qrmi.Models.{Payload, TaskStatus, running, completed}
use qrmi.Resource.{QuantumResource, bare_status}
use qrmi.Runner.{Host}

abbrev countdown : ℕ → TaskStatus
countdown zero = completed
countdown (suc n) = running

abbrev pub resource : QuantumResource ℕ
resource = record {
  resource_id = return (codes "emulator");
  resource_type = return qrmi.Models.ResourceType.oqtopus;
  is_accessible = return true;
  status = return (bare_status true);
  acquire = return (codes "lock");
  release = λ id. return tt;
  task_start = λ p. return (codes "t1");
  task_stop = λ id. return tt;
  task_status = λ id w. (ok (countdown w), w);
  task_result = λ id. return (codes "counts");
  task_logs = λ id. return [];
  target = return (codes "target");
}

abbrev pub host : Host ℕ
host = record {
  write_output = λ line. return tt;
  write_file = λ path text. return tt;
  write_diagnostics = λ line w. w;
  is_running = λ w. (true, w);
  sleep = λ w. w - 1;
}

abbrev pub job : Payload
job = Payload.oqtopus (codes "spec")
