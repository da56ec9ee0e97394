-- ===== src/Maestro/Local/Tasks/Submit.antt =====
-- `task_start` of the resource of Maestro Local (src/maestro/local.rs).
use qrmi.Prelude.{
  ℕ, Bool, true, false, Option, none, some, ◌++◌, ◌||◌, ◌&&◌, ◌==◌, not, if◌then◌else◌, is_empty,
}
use qrmi.Text.{Text, codes, trim, print_ℕ, eq_ignore_ascii_case}
use qrmi.Result.{Result, ok, err, ◌>>=◌}
use qrmi.Exec.{Exec, ◌>>◌}
use qrmi.Errors.{QrmiError}
use qrmi.Models.{Payload}
use qrmi.Json.{Value, Codec, is_object, as_u64, member}
use qrmi.Maestro.Socket.{Socket}
use qrmi.Maestro.Session.{
  Task, TaskType, execute, estimate, create_task_at, set_type_at, set_observables_as_string_at,
  set_qubits_at, set_simulator_type_at, set_simulation_method_at, set_qasm_at, set_options_json_at,
  execute_at, cancel_at,
}
use qrmi.Maestro.Request.{Json, submit}
use qrmi.Maestro.Local.{MaestroLocal, Local, note, remove, get_session_id, key, native_api}

pub record LegacySubmission : Type 0 where
  pub session_id : ℕ
  pub task_type : TaskType
  pub input : Text
  pub observables : Text
  pub config : Text
  pub qubits : ℕ
  pub simulator_type : ℕ
  pub simulation_method : ℕ

unfoldable pub accepted : Text → Result Text Bool → Result QrmiError (Unit {0})
accepted operation (ok true) = ok tt
accepted operation (ok false) =
    err (QrmiError.invalid_input (note (codes "Maestro rejected " ++ operation)))
accepted operation (err e) =
    err (QrmiError.other (note (codes "Failed to " ++ operation ++ codes ": " ++ e)))

abbrev pub two : Option ℕ → Bool
two (some n) = n == 2
two none = false

-- The two texts of a request's check differ between the places that make it.
abbrev pub is_request : Value → Bool
is_request request = is_object request && two (as_u64 (member request (codes "schema_version")))

abbrev invalid : Text → QrmiError
invalid message = QrmiError.invalid_input (note message)

-- `serde_json::from_str` under `?`.
abbrev pub read_json : Codec → Text → Option Value → Result QrmiError Value
read_json codec t none = err (QrmiError.invalid_json (codec.parse_error t))
read_json codec t (some value) = ok value

unfoldable pub task_type_of : Text → Text → Result QrmiError TaskType
unfolding eq_ignore_ascii_case trim
task_type_of job_type observables =
    if eq_ignore_ascii_case job_type (codes "execute")
    then ok execute
    else if eq_ignore_ascii_case job_type (codes "estimate")
    then (if is_empty (trim observables)
        then err (invalid (codes "Observables must be provided for ESTIMATE job type"))
        else ok estimate)
    else err (invalid (codes "Invalid job_type: " ++ job_type))

abbrev pub guard : Bool → Text → Result QrmiError (Unit {0})
guard true message = ok tt
guard false message = err (invalid message)

-- The checks of a legacy job, before a task is created.
unfoldable pub legacy_submission :
    Codec → MaestroLocal → Text → Text → ℕ → ℕ → ℕ → Text → Text → Result QrmiError LegacySubmission
unfolding task_type_of get_session_id trim
legacy_submission codec self input job_type qubits simulator_type simulation_method observables
      config =
    do
      task_type ← task_type_of job_type observables
      checked ←
          guard (not (is_empty (trim input) || qubits == 0))
            (codes "A nonempty QASM circuit and a positive qubit count are required")
      options ← read_json codec config (codec.from_str config)
      is_map ← guard (is_object options) (codes "Maestro config must be a JSON object")
      session_id ← get_session_id self
      ok (record {
        session_id = session_id;
        task_type = task_type;
        input = input;
        observables = observables;
        config = config;
        qubits = qubits;
        simulator_type = simulator_type;
        simulation_method = simulation_method;
      })

-- A new task is not one that was seen to end.
abbrev pub begun : Task → MaestroLocal → MaestroLocal
begun task self = record self { terminal_tasks = remove (key task) self.terminal_tasks }

unfoldable pub native_session : Codec → MaestroLocal → Text → Result QrmiError ℕ
unfolding get_session_id
native_session codec self input = do
  request ← read_json codec input (codec.from_str input)
  checked ←
      guard (is_request request)
        (codes "Maestro request requires a JSON object with schema_version=2")
  get_session_id self

module _ {V Doc : Type 0} (socket : Socket V) (json : Json Doc) (codec : Codec)
    (display : QrmiError → Text) where
  abbrev step : Text → Exec V Text Bool → Exec V QrmiError (Unit {0})
  step operation m v = let (answer, v') = m v in (accepted operation answer, v')

  abbrev set_observables : Task → TaskType → Text → Exec V QrmiError (Unit {0})
  set_observables task execute observables = qrmi.Exec.return tt
  set_observables task estimate observables =
      step (codes "set observables") (set_observables_as_string_at socket task observables)

  -- Every setting of the new task, and its start.
  unfoldable pub configure : LegacySubmission → Task → Exec V QrmiError (Unit {0})
  unfolding accepted
  configure job task = do
    step (codes "set task type") (set_type_at socket task job.task_type)
    set_observables task job.task_type job.observables
    step (codes "set qubits") (set_qubits_at socket task job.qubits)
    step (codes "set simulator type") (set_simulator_type_at socket task job.simulator_type)
    step (codes "set simulation method")
        (set_simulation_method_at socket task job.simulation_method)
    step (codes "set QASM") (set_qasm_at socket task job.input)
    step (codes "set options JSON") (set_options_json_at socket task job.config)
    step (codes "execute task") (execute_at socket task)

  -- The task of a failed submission is cancelled, whatever the answer to that.
  abbrev pub configured : Task → Result QrmiError (Unit {0}) × V → Result QrmiError Task × V
  configured task (ok u, v) = (ok task, v)
  configured task (err error, v) = (
    err (
        QrmiError.other (
          note (
            codes "Maestro task "
            ++ print_ℕ task.id
            ++ codes " was created but submission failed: "
            ++ display error))),
    (cancel_at socket task v).1,
  )

  abbrev pub created : LegacySubmission → Result Text Task × V → Result QrmiError Task × V
  created job (err e, v) = (err (QrmiError.other (note (codes "Failed to create task: " ++ e))), v)
  created job (ok task, v) = configured task (configure job task v)

  unfoldable pub submit_legacy : LegacySubmission → Exec V QrmiError Task
  unfolding configure
  submit_legacy job v = created job (create_task_at socket job.session_id v)

  abbrev pub submitted :
      ℕ → Result QrmiError ℕ × (MaestroLocal × V) → Result QrmiError Text × (MaestroLocal × V)
  submitted session_id (err e, s) = (err e, s)
  submitted session_id (ok id, (self, v)) =
      (ok (print_ℕ id), (begun (record { id = id; session_id = session_id }) self, v))

  abbrev pub start_native : Text → Result QrmiError ℕ → Local V Text
  start_native input (err e) s = (err e, s)
  start_native input (ok session_id) s =
      submitted session_id (native_api (submit json socket session_id input) s)

  abbrev pub started :
      MaestroLocal → Result QrmiError Task × V → Result QrmiError Text × (MaestroLocal × V)
  started self (err e, v) = (err e, (self, v))
  started self (ok task, v) = (ok (print_ℕ task.id), (begun task self, v))

  abbrev pub start_legacy : Result QrmiError LegacySubmission → Local V Text
  start_legacy (err e) s = (err e, s)
  start_legacy (ok job) (self, v) = started self (submit_legacy job v)

  unfoldable pub task_start : Payload → Local V Text
  unfolding legacy_submission native_session submit_legacy remove eq_ignore_ascii_case
  task_start
        (Payload.maestro_local input job_type qubits simulator_type simulation_method observables
          config)
        s =
      if eq_ignore_ascii_case job_type (codes "request")
      then start_native input (native_session codec s.0 input) s
      else start_legacy
          (legacy_submission codec s.0 input job_type qubits simulator_type simulation_method
            observables config)
          s
  task_start payload s = (err (QrmiError.unsupported_payload payload), s)
