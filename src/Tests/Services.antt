-- ===== src/Tests/Services.antt =====
-- The theorems on the services of IBM in a small world.
use qrmi.Prelude.{◌≡◌, refl, Bool, true, none, some, arith, inr, ◌≢◌}
use qrmi.Text.{Text, codes}
use qrmi.Result.{Result, ok}
use qrmi.Exec.{Post}
use qrmi.Errors.{QrmiError}
use qrmi.Settings.{Env}
use qrmi.Ibm.Api.{JobStatus}
use qrmi.Ibm.Compute.State.{check_token}
use qrmi.Ibm.Compute.State.Freshness.{Checked, check_token-Checked}
use qrmi.Ibm.Compute.Sessions.{acquire, release, open_session, mode_of}
use qrmi.Ibm.Compute.Sessions.Outcome.{Ledger}
use qrmi.Ibm.Compute.Sessions.Promises.{
  Acquired, Released, acquire-Acquired, release-Released, acquire_no_leak, Accounted,
}
use qrmi.Ibm.Compute.Tasks.{task_stop, task_result}
use qrmi.Ibm.Compute.Tasks.Life.{IsOver, TaskBook, Unchanged, task_result-completed, task_stop_ends}
use qrmi.Ibm.Compute.Paging.{scan, scan_fuel, has_dedicated_active_session}
use qrmi.Ibm.Compute.Paging.Laws.{scan_ends}
use qrmi.Ibm.Compute.Paging.Answer.{Steady, has_dedicated_active_session-any}
use qrmi.Tests.Cloud.{Cloud, jobs, sessions, api, service, world}

check_token-Checked_example :
    Checked api
      (codes "key")
      (codes "https://iam")
      service.token
      (1000, world)
      (check_token api (codes "key") (codes "https://iam") (service.token, world))
check_token-Checked_example =
    check_token-Checked api (codes "key") (codes "https://iam") service.token world (omega arith)
      (omega arith)

abbrev env : Env
env key = none

scan_ends_example :
    (r : Result QrmiError Bool) × ((scan api scan_fuel 0 (service, world)).0 ≡ some r)
scan_ends_example = scan_ends api (service, world)

steady : Steady api service jobs sessions
steady = record { listed_page = λ offset v. refl; found_session = λ id v. refl }

has_dedicated_active_session-any_example :
    has_dedicated_active_session api (service, world) ≡ (ok true, (service, world))
has_dedicated_active_session-any_example =
    has_dedicated_active_session-any api service jobs sessions steady world (omega arith)

acquire-Acquired_example :
    Acquired service (acquire api (service, world)).0 (acquire api (service, world)).1.0
acquire-Acquired_example = acquire-Acquired api service world

release-Released_example :
    Released service
      (release api (codes "s0") (service, world)).0
      (release api (codes "s0") (service, world)).1.0
release-Released_example = release-Released api service (codes "s0") world refl

abbrev IsOpen : Cloud → Text → Type 0
IsOpen v x = v.0 ≡ some x

abbrev NoOther : Text → Type 0
NoOther x = ⊥

closed : (v : Cloud) (id x : Text) → none ≡ some x → IsOpen v x × (id ≢ x)
closed v id x h = cc

ledger : Ledger api IsOpen
ledger = record {
  clock = λ v x h. h;
  token = λ key endpoint v x h. h;
  jobs = λ c q v x h. h;
  look = λ c id version v x h. h;
  create = λ c q v x h. inr cc;
  cancel = λ c id v x h. closed v id x h;
  close = λ c id v x h. closed v id x h;
}

session_open : IsOpen (acquire api (service, world)).1.1 (codes "s1")
unfolding acquire release open_session mode_of
session_open = refl

acquire_no_leak_example :
    Accounted api IsOpen ledger NoOther service (codes "s1") (acquire api (service, world)).1
acquire_no_leak_example =
    acquire_no_leak api IsOpen ledger NoOther service world (codes "s1") (λ y h. inr h) session_open

abbrev status_of : Cloud → JobStatus
status_of v = v.1

book : TaskBook api (codes "j1") status_of
book = record {
  clock = λ v. refl;
  token = λ key endpoint v. refl;
  read = λ c v. (refl, refl);
  cancel = λ c v. tt;
}

task_result-completed_example :
    Post
      (λ text s. (JobStatus.completed ≡ JobStatus.completed) × Unchanged service s.0)
      (λ e s. Unchanged service s.0)
      (task_result api (codes "j1") (service, (none, JobStatus.completed)))
task_result-completed_example =
    task_result-completed api (codes "j1") status_of book service (none, JobStatus.completed)

task_stop_ends_example :
    Post
      (λ u s.
        (IsOver (status_of s.1) × (IsOver (status_of world) → status_of s.1 ≡ status_of world))
        × Unchanged service s.0)
      (λ e s. Unchanged service s.0)
      (task_stop api (codes "j1") (service, world))
task_stop_ends_example = task_stop_ends api (codes "j1") status_of book service world
