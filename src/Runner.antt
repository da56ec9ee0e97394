-- ===== src/Runner.antt =====
-- src/bin/task_runner.rs: `run_task`, which submits a task, polls it, and cleans up.
pub mod Calls
pub mod Trace
pub mod Total
pub mod Choice
pub mod Input
use qrmi.Prelude.{
  ℕ, zero, suc, Bool, true, false, Option, none, some, List, [], ◌∷◌, is_empty, if◌then◌else◌,
}
use qrmi.Text.{Text, codes}
use qrmi.Result.{Result, ok, err}
use qrmi.Exec.{Exec}
use qrmi.Errors.{QrmiError}
use qrmi.Models.{Payload, TaskStatus, queued, running, completed, failed, cancelled}
use qrmi.Resource.{QuantumResource}

pub data RunnerError : Type 0 where
  call_failed : QrmiError → RunnerError
  -- an error of `writeln!` or `fs::write`
  io : Text → RunnerError
  -- `eyre!("Task {job_id} {status:?}")`
  task_ended : Text → TaskStatus → RunnerError
  -- `eyre!("Task {job_id} cancelled")`
  interrupted : Text → RunnerError

pub data Line : Type 0 where
  task_id : Text → Line
  wrote_output : Text → Line
  result_value : Text → Line
  status_failed : QrmiError → Line
  failure : RunnerError → Line
  logs : Text → Line
  logs_failed : QrmiError → Line
  cleanup_failed : QrmiError → Line

-- The process around the loop: its streams and files, the flag that the signal handler clears, and
-- the sleep between two polls. A write to the diagnostics may fail too; the code drops its result.
pub record Host (W : Type 0) : Type 0 where
  pub write_output : Line → Exec W Text (Unit {0})
  pub write_file : Text → Text → Exec W Text (Unit {0})
  pub write_diagnostics : Line → W → W
  pub is_running : W → Bool × W
  pub sleep : W → W

-- One round of the loop ends it, or asks for another after a sleep.
pub data Round : Type 0 where
  finished : Result RunnerError (Unit {0}) → Round
  again : Round

module _ {W : Type 0} (host : Host W) (resource : QuantumResource W) where
  open host use {write_output, write_file, write_diagnostics, is_running, sleep}

  abbrev written : Result Text (Unit {0}) × W → Round × W
  written (ok u, w) = (finished (ok tt), w)
  written (err e, w) = (finished (err (io e)), w)

  abbrev announced : Text → Result Text (Unit {0}) × W → Round × W
  announced path (ok u, w) = written (write_output (wrote_output path) w)
  announced path (err e, w) = (finished (err (io e)), w)

  abbrev deliver : Option Text → Text → W → Round × W
  deliver none value w = written (write_output (result_value value) w)
  deliver (some path) value w = announced path (write_file path value w)

  abbrev fetched : Option Text → Result QrmiError Text × W → Round × W
  fetched output_file (ok value, w) = deliver output_file value w
  fetched output_file (err e, w) = (finished (err (call_failed e)), w)

  -- the `match` on `task_status`
  unfoldable pub on_status : Option Text → Text → Result QrmiError TaskStatus × W → Round × W
  on_status output_file job_id (ok completed, w) =
      fetched output_file (resource.task_result job_id w)
  on_status output_file job_id (ok failed, w) = (finished (err (task_ended job_id failed)), w)
  on_status output_file job_id (ok cancelled, w) = (finished (err (task_ended job_id cancelled)), w)
  on_status output_file job_id (ok queued, w) = (again, w)
  on_status output_file job_id (ok running, w) = (again, w)
  on_status output_file job_id (err e, w) = (again, write_diagnostics (status_failed e) w)

  abbrev on_flag : Option Text → Text → Bool × W → Round × W
  on_flag output_file job_id (true, w) =
      on_status output_file job_id (resource.task_status job_id w)
  on_flag output_file job_id (false, w) = (finished (err (interrupted job_id)), w)

  unfoldable pub round : Option Text → Text → W → Round × W
  unfolding on_status
  round output_file job_id w = on_flag output_file job_id (is_running w)

  abbrev proceed :
      (W → Option (Result RunnerError (Unit {0})) × W)
      → Round × W
      → Option (Result RunnerError (Unit {0})) × W
  proceed later (finished result, w) = (some result, w)
  proceed later (again, w) = later (sleep w)

  -- The loop; `none` means that the fuel ran out while the task was still to be polled.
  unfoldable pub poll : ℕ → Option Text → Text → W → Option (Result RunnerError (Unit {0})) × W
  unfolding round
  poll zero output_file job_id w = (none, w)
  poll (suc fuel) output_file job_id w =
      proceed (poll fuel output_file job_id) (round output_file job_id w)

  -- the block between `task_start` and the cleanup
  abbrev watched :
      ℕ
      → Option Text
      → Text
      → Result Text (Unit {0}) × W
      → Option (Result RunnerError (Unit {0})) × W
  watched fuel output_file job_id (ok u, w) = poll fuel output_file job_id w
  watched fuel output_file job_id (err e, w) = (some (err (io e)), w)

  abbrev on_logs : Result QrmiError Text × W → W
  on_logs (ok text, w) = if is_empty text then w else write_diagnostics (logs text) w
  on_logs (err e, w) = write_diagnostics (logs_failed e) w

  abbrev report : Text → Result RunnerError (Unit {0}) → W → W
  report job_id (ok u) w = w
  report job_id (err e) w = on_logs (resource.task_logs job_id (write_diagnostics (failure e) w))

  abbrev on_stop : Result QrmiError (Unit {0}) × W → W
  on_stop (ok u, w) = w
  on_stop (err e, w) = write_diagnostics (cleanup_failed e) w

  unfoldable pub clean_up :
      Text → Option (Result RunnerError (Unit {0})) × W → Option (Result RunnerError (Unit {0})) × W
  clean_up job_id (none, w) = (none, w)
  clean_up job_id (some result, w) =
      (some result, on_stop (resource.task_stop job_id (report job_id result w)))

  abbrev started :
      ℕ → Option Text → Result QrmiError Text × W → Option (Result RunnerError (Unit {0})) × W
  started fuel output_file (ok job_id, w) =
      clean_up job_id (watched fuel output_file job_id (write_output (task_id job_id) w))
  started fuel output_file (err e, w) = (some (err (call_failed e)), w)

  -- `run_task`, with fuel for its loop.
  unfoldable pub run_task :
      ℕ → Payload → Option Text → W → Option (Result RunnerError (Unit {0})) × W
  unfolding clean_up poll
  run_task fuel payload output_file w = started fuel output_file (resource.task_start payload w)
