-- ===== src/Maestro/Session.antt =====
-- The sessions and tasks of the socket (dependencies/maestro_rust_library/src/maestro/session.rs).
pub mod Lines
use qrmi.Prelude.{ℕ, Bool, ◌||◌, ◌==◌, Option, none, some, ◌++◌, map, if◌then◌else◌}
use qrmi.Text.{Text, codes, trim, parse_u32, print_ℕ}
use qrmi.Result.{Result, ok, err}
use qrmi.Exec.{Exec}
use qrmi.Maestro.Socket.{Socket, Response, ok_flag, error, ok_response, send_command}

pub data TaskType : Type 0 where
  execute estimate : TaskType

pub record Task : Type 0 where
  pub id : ℕ
  pub session_id : ℕ

-- The commands. A newline ends each.
abbrev pub to_session : ℕ → Text → Text
to_session id verb = codes "SESSION " ++ (print_ℕ id ++ (codes " " ++ (verb ++ codes "\n")))

abbrev pub to_task : Task → Text → Text
to_task task verb =
    to_session task.session_id (codes "TASK " ++ (print_ℕ task.id ++ (codes " " ++ verb)))

abbrev pub spaced : ℕ → ℕ
spaced c = if c == b'\n' || c == b'\r' then b' ' else c

-- A text without line ends inside, `replace(['\n', '\r'], " ")` and `trim`.
unfoldable pub one_line : Text → Text
unfolding trim
one_line s = trim (map spaced s)

abbrev pub type_str : TaskType → Text
type_str execute = codes "EXECUTE"
type_str estimate = codes "ESTIMATE"

-- What a reply says, where a flag is expected, or a value.
abbrev pub flag : Text → Text → Response → Result Text Bool
flag failed unexpected (ok_flag b) = ok b
flag failed unexpected (error e) = err (failed ++ e)
flag failed unexpected (ok_response value) = err unexpected

abbrev pub value : Text → Text → Response → Result Text Text
value failed unexpected (ok_response text) = ok text
value failed unexpected (error e) = err (failed ++ e)
value failed unexpected (ok_flag b) = err unexpected

abbrev pub id_in : Text → Option ℕ → Result Text ℕ
id_in failed none = err failed
id_in failed (some id) = ok id

abbrev pub parsed : Text → Result Text Text → Result Text ℕ
parsed failed (err e) = err e
parsed failed (ok id_str) = id_in (failed ++ id_str) (parse_u32 id_str)

abbrev pub in_session : ℕ → Result Text ℕ → Result Text Task
in_session session_id (err e) = err e
in_session session_id (ok id) = ok (record { id = id; session_id = session_id })

module _ {V : Type 0} (socket : Socket V) where
  abbrev pub asked : Text → Text → Text → Exec V Text Bool
  asked command failed unexpected v =
      let (response, v') = send_command socket command v in (flag failed unexpected response, v')

  abbrev fetched : Text → Text → Text → Exec V Text Text
  fetched command failed unexpected v =
      let (response, v') = send_command socket command v in (value failed unexpected response, v')

  unfoldable pub new_at : Exec V Text ℕ
  unfolding send_command parse_u32
  new_at v =
      let (response, v') = send_command socket (codes "SESSION CREATE\n") v in
      (
        parsed (codes "Failed to parse session ID from response: ") (
            value (codes "Failed to create session: ")
              (codes "Unexpected response when creating session") response),
        v',
      )

  unfoldable pub session_exists_at : ℕ → Exec V Text Bool
  unfolding send_command print_ℕ
  session_exists_at session_id =
      asked (to_session session_id (codes "EXISTS")) (codes "Failed to check if session exists: ")
        (codes "Unexpected response when checking if session exists")

  unfoldable pub delete_at : ℕ → Exec V Text Bool
  unfolding send_command print_ℕ
  delete_at session_id =
      asked (to_session session_id (codes "DELETE")) (codes "Failed to delete session: ")
        (codes "Unexpected response when deleting session")

  unfoldable pub create_task_at : ℕ → Exec V Text Task
  unfolding send_command print_ℕ parse_u32
  create_task_at session_id v =
      let (response, v') = send_command socket (to_session session_id (codes "TASK CREATE")) v in
      (
        in_session session_id (
            parsed (codes "Failed to parse task ID from response: ") (
              value (codes "Failed to create task: ")
                (codes "Unexpected response when creating task") response)),
        v',
      )

  module _ (task : Task) where
    unfoldable pub exists_at : Exec V Text Bool
    unfolding send_command print_ℕ
    exists_at =
        asked (to_task task (codes "EXISTS")) (codes "Failed to check if task exists: ")
          (codes "Unexpected response when checking if task exists")

    unfoldable pub running_at : Exec V Text Bool
    unfolding send_command print_ℕ
    running_at =
        asked (to_task task (codes "RUNNING")) (codes "Failed to check if task is running: ")
          (codes "Unexpected response when checking if task is running")

    unfoldable pub finished_at : Exec V Text Bool
    unfolding send_command print_ℕ
    finished_at =
        asked (to_task task (codes "FINISHED")) (codes "Failed to check if task is finished: ")
          (codes "Unexpected response when checking if task is finished")

    unfoldable pub failed_at : Exec V Text Bool
    unfolding send_command print_ℕ
    failed_at =
        asked (to_task task (codes "FAILED")) (codes "Failed to check if task is failed: ")
          (codes "Unexpected response when checking if task is failed")

    unfoldable pub execute_at : Exec V Text Bool
    unfolding send_command print_ℕ
    execute_at =
        asked (to_task task (codes "EXECUTE")) (codes "Failed to execute task: ")
          (codes "Unexpected response when executing task")

    unfoldable pub cancel_at : Exec V Text Bool
    unfolding send_command print_ℕ
    cancel_at =
        asked (to_task task (codes "CANCEL")) (codes "Failed to cancel task: ")
          (codes "Unexpected response when canceling task")

    unfoldable pub get_results_as_string_at : Exec V Text Text
    unfolding send_command print_ℕ
    get_results_as_string_at =
        fetched (to_task task (codes "GET_RESULTS")) (codes "Failed to get task results: ")
          (codes "Unexpected response when getting task results")

    unfoldable pub set_type_at : TaskType → Exec V Text Bool
    unfolding send_command print_ℕ
    set_type_at task_type =
        asked (to_task task (codes "SET_TYPE " ++ type_str task_type))
          (codes "Failed to set task type: ") (codes "Unexpected response when setting task type")

    unfoldable pub set_qubits_at : ℕ → Exec V Text Bool
    unfolding send_command print_ℕ
    set_qubits_at qubits =
        asked (to_task task (codes "SET_QUBITS " ++ print_ℕ qubits))
          (codes "Failed to set task qubits: ")
          (codes "Unexpected response when setting task qubits")

    unfoldable pub set_simulator_type_at : ℕ → Exec V Text Bool
    unfolding send_command print_ℕ
    set_simulator_type_at simulator_type =
        asked (to_task task (codes "SET_SIM_TYPE " ++ print_ℕ simulator_type))
          (codes "Failed to set task simulator type: ")
          (codes "Unexpected response when setting task simulator type")

    unfoldable pub set_simulation_method_at : ℕ → Exec V Text Bool
    unfolding send_command print_ℕ
    set_simulation_method_at method =
        asked (to_task task (codes "SET_METHOD " ++ print_ℕ method))
          (codes "Failed to set task simulation method: ")
          (codes "Unexpected response when setting task simulation method")

    unfoldable pub set_observables_as_string_at : Text → Exec V Text Bool
    unfolding send_command print_ℕ one_line
    set_observables_as_string_at observables =
        asked (to_task task (codes "SET_OBSERVABLES " ++ one_line observables))
          (codes "Failed to set task observables: ")
          (codes "Unexpected response when setting task observables")

    unfoldable pub set_qasm_at : Text → Exec V Text Bool
    unfolding send_command print_ℕ one_line
    set_qasm_at qasm =
        asked (to_task task (codes "SET_QASM " ++ one_line qasm))
          (codes "Failed to set task QASM: ") (codes "Unexpected response when setting task QASM")

    unfoldable pub set_options_json_at : Text → Exec V Text Bool
    unfolding send_command print_ℕ one_line
    set_options_json_at options =
        asked (to_task task (codes "SET_OPTIONS " ++ one_line options))
          (codes "Failed to set task options: ")
          (codes "Unexpected response when setting task options")
