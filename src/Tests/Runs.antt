-- ===== src/Tests/Runs.antt =====
-- Runs of the task runner.
use qrmi.Prelude.{zero, suc, ℕ, ◌≡◌, inr, none, some, [], Option, false, arith, ◌⊎◌}
use qrmi.Text.{Text, codes}
use qrmi.Result.{Result, ok}
use qrmi.Runner.{RunnerError, run_task}
use qrmi.Runner.Calls.{Ends, Recorded, recording, beside}
use qrmi.Runner.Trace.{run_task-Ends}
use qrmi.Runner.Total.{Expires, run_task_ends, IsFinal}
use qrmi.Tests.World.{resource, host, job}

abbrev final : Option (Result RunnerError (Unit {0})) × Recorded ℕ
final = run_task (beside host) (recording resource) 5 job none (2, [])

run_task-Ends_example : Ends job (ok (codes "t1")) final.0 final.1.1
run_task-Ends_example = run_task-Ends host resource 5 job none 2

timely :
    (id : Text) (w : ℕ)
    → w ≡ 0
    → ((host.is_running w).0 ≡ false) ⊎ IsFinal (resource.task_status id (host.is_running w).1).0
timely id zero e = inr tt
timely id (suc w) e = cc

expires : Expires host resource (λ w. w)
expires = record {
  due = timely;
  read_flag = λ w. omega arith;
  ask = λ id w. omega arith;
  tell = λ line w. omega arith;
  wait = λ w. omega arith;
  submit = λ p w. omega arith;
  print = λ line w. omega arith;
}

run_task_ends_example :
    (r : Result RunnerError (Unit {0})) × ((run_task host resource 5 job none 2).0 ≡ some r)
run_task_ends_example = run_task_ends host resource (λ w. w) expires 5 job none 2 (omega arith)
