-- ===== src/Oqtopus/Tasks.antt =====
-- The methods of the resource of OQTOPUS (src/oqtopus/lib.rs) over the Python bridge that it loads,
-- which sets the output of a call that returns 0 (dependencies/oqtopus/src/lib.rs).
use qrmi.Prelude.{
  Option, none, some, List, [], ◌∷◌, ◌++◌, unwrap_or, Bool, true, false, if◌then◌else◌, ◌||◌, ℕ,
}
use qrmi.Text.{Text, codes, eq_text}
use qrmi.Result.{Result, ok, err, map_err}
use qrmi.Exec.{Exec, ◌>>=◌, return, throw, lift}
use qrmi.Errors.{QrmiError}
use qrmi.Models.{Payload, TaskStatus, ResourceStatus, ResourceStatusCode}
use qrmi.Settings.{Config, Env}
use qrmi.Json.{Value, Fields, string, object}
use qrmi.Oqtopus.Config.{Library, other, insert, c_string, build_config_json}

-- `config_json` is a text without the char 0.
pub record Oqtopus : Type 0 where
  pub device_id : Text
  pub config_json : Text

-- What a call comes to: its symbol is not in the library, or it fails, or it gives a text.
pub data Returned : Type 0 where
  missing_symbol : Text → Returned
  failed : Option Text → Returned
  gave : Text → Returned

pub data DeviceStatus : Type 0 where
  available unavailable : DeviceStatus

-- `OqtopusDeviceInfo`, as far as it is read.
pub record DeviceInfo : Type 0 where
  pub status : DeviceStatus
  pub available_at : Option Text
  pub calibrated_at : Option Text
  pub n_pending_jobs : ℕ

-- The bridge over a world `V`: a call by its symbol, of the argument and the configuration. `device`
-- is what serde derives for a device.
pub record Bridge (V : Type 0) : Type 0 where
  pub call : Text → Text → Text → V → Returned × V
  pub device : Text → Result Text DeviceInfo

-- The loader of libraries: to open a library of Python for all, to look for one in a folder, and to
-- open the bridge.
pub record Loader : Type 0 where
  pub open_python : Text → Result Text (Unit {0})
  pub pythonhome_lib_candidate : Text → Option Text
  pub open_bridge : Text → Result Text (Unit {0})

unfoldable pub map_job_status : Text → Result QrmiError TaskStatus
unfolding eq_text
map_job_status status =
    if eq_text status (codes "registered")
      || eq_text status (codes "submitted")
      || eq_text status (codes "ready")
    then ok TaskStatus.queued
    else if eq_text status (codes "running")
    then ok TaskStatus.running
    else if eq_text status (codes "succeeded")
    then ok TaskStatus.completed
    else if eq_text status (codes "failed")
    then ok TaskStatus.failed
    else if eq_text status (codes "cancelled")
    then ok TaskStatus.cancelled
    else err (other (codes "unknown job status from oqtopus_client: " ++ status))

abbrev pub fallback_soname_candidates : List Text
fallback_soname_candidates =
    codes "libpython3.13.so.1.0"
    ∷ codes "libpython3.12.so.1.0"
    ∷ codes "libpython3.11.so.1.0"
    ∷ codes "libpython3.10.so.1.0"
    ∷ codes "libpython3.so"
    ∷ []

abbrev pub default_bridge_path : Text
default_bridge_path = codes "liboqtopus_py_bridge.so"

module _ (loader : Loader) where
  open loader use {open_python, pythonhome_lib_candidate, open_bridge}

  abbrev pub explained : Text → Result Text (Unit {0}) → Result QrmiError (Unit {0})
  explained what (ok u) = ok tt
  explained what (err e) = err (other (what ++ codes ": " ++ e))

  abbrev pub is_open : Result Text (Unit {0}) → Bool
  is_open (ok u) = true
  is_open (err e) = false

  unfoldable pub load_fallback : List Text → Result QrmiError (Unit {0})
  load_fallback [] =
      err
        (other (codes "libpython not found (set PYTHON_LIBRARY or PYTHONHOME to an explicit path)"))
  load_fallback (name ∷ names) =
      let rest = load_fallback names in if is_open (open_python name) then ok tt else rest

  abbrev pub load_home : Text → Option Text → Result QrmiError (Unit {0})
  load_home home (some path) = explained (codes "failed to load " ++ path) (open_python path)
  load_home home none =
      err (
        other (codes "PYTHONHOME=" ++ home ++ codes " is set, but no libpython was found under it"))

  -- The settings are read in this order.
  abbrev pub load_python : Option Text → Option Text → Result QrmiError (Unit {0})
  load_python (some path) home =
      explained (codes "failed to load PYTHON_LIBRARY=" ++ path) (open_python path)
  load_python none (some home) = load_home home (pythonhome_lib_candidate home)
  load_python none none = load_fallback fallback_soname_candidates

  abbrev pub opened : Text → Text → Text → Result QrmiError (Unit {0}) → Result QrmiError Oqtopus
  opened device_id config_json path (ok u) =
      ok (record { device_id = device_id; config_json = config_json })
  opened device_id config_json path (err e) = err e

  abbrev pub with_bridge :
      Text → Text → Text → Result QrmiError (Unit {0}) → Result QrmiError Oqtopus
  with_bridge device_id config_json path (ok u) =
      opened device_id config_json path
        (explained (codes "failed to load " ++ path) (open_bridge path))
  with_bridge device_id config_json path (err e) = err e

  abbrev pub configured : Env → Text → Result QrmiError Text → Result QrmiError Oqtopus
  configured env device_id (err e) = err e
  configured env device_id (ok config_json) =
      with_bridge device_id config_json
        (unwrap_or (env (codes "PY_BRIDGE_PATH")) default_bridge_path)
        (load_python (env (codes "PYTHON_LIBRARY")) (env (codes "PYTHONHOME")))

  unfoldable pub from_opt : Library → Env → Text → Option Config → Result QrmiError Oqtopus
  unfolding build_config_json load_fallback
  from_opt lib env device_id config =
      configured env device_id (build_config_json lib env device_id config)

module _ {V : Type 0} (lib : Library) (bridge : Bridge V) (self : Oqtopus) where
  abbrev pub reported : Text → Returned × V → Result QrmiError Text × V
  reported op_name (missing_symbol e, v) = (err (other (codes "symbol not found: " ++ e)), v)
  reported op_name (failed e, v) =
      (err (other (op_name ++ codes " failed: " ++ unwrap_or e (codes "unknown error"))), v)
  reported op_name (gave value, v) = (ok value, v)

  -- The symbol is the operation's name.
  unfoldable pub call_bridge : Text → Text → Exec V QrmiError Text
  call_bridge op_name arg v = reported op_name (bridge.call op_name arg self.config_json v)

  abbrev pub of_device : Text → Exec V QrmiError Text
  of_device op_name = do
    device_id ← lift (c_string lib (codes "device_id") self.device_id)
    call_bridge op_name device_id

  abbrev pub of_job : Text → Text → Exec V QrmiError Text
  of_job op_name task_id = do
    job_id ← lift (c_string lib (codes "job_id") task_id)
    call_bridge op_name job_id

  unfoldable pub is_accessible : Exec V QrmiError Bool
  unfolding call_bridge c_string eq_text
  is_accessible = do
    status ← of_device (codes "get_device_status")
    return (eq_text status (codes "available"))

  abbrev pub status_reason : Option Text → Option Text → Option Text
  status_reason (some available_at) (some calibrated_at) =
      some (codes "available at " ++ available_at ++ codes ", calibrated at " ++ calibrated_at)
  status_reason (some available_at) none = some (codes "available at " ++ available_at)
  status_reason none (some calibrated_at) = some (codes "calibrated at " ++ calibrated_at)
  status_reason none none = none

  abbrev pub status_code : DeviceStatus → ResourceStatusCode
  status_code available = ResourceStatusCode.online
  status_code unavailable = ResourceStatusCode.offline

  abbrev pub resource_status : DeviceInfo → ResourceStatus
  resource_status device = record {
    status = status_code device.status;
    status_reason = status_reason device.available_at device.calibrated_at;
    healthy = qrmi.Prelude.none;
    busy = qrmi.Prelude.none;
    capacity = qrmi.Prelude.none;
    pending_job_count = some device.n_pending_jobs;
  }

  unfoldable pub status : Exec V QrmiError ResourceStatus
  unfolding call_bridge c_string
  status = do
    value ← of_device (codes "get_device_json")
    device ← lift (map_err (λ e. other (codes "invalid device json: " ++ e)) (bridge.device value))
    return (resource_status device)

  unfoldable pub task_stop : Text → Exec V QrmiError (Unit {0})
  unfolding call_bridge c_string
  task_stop task_id = do message ← of_job (codes "cancel_job") task_id; return tt

  unfoldable pub task_status : Text → Exec V QrmiError TaskStatus
  unfolding call_bridge c_string map_job_status
  task_status task_id = do
    status ← of_job (codes "get_job_status") task_id
    lift (map_job_status status)

  unfoldable pub task_result : Text → Exec V QrmiError Text
  unfolding call_bridge c_string
  task_result task_id = of_job (codes "get_job_result_json") task_id

  unfoldable pub target : Exec V QrmiError Text
  unfolding call_bridge c_string
  target = of_device (codes "get_device_json")

  abbrev pub submit : Fields → Exec V QrmiError Text
  submit spec = do
    job_spec_json ← lift (c_string lib (codes "job_spec json") (lib.codec.to_string (object spec)))
    call_bridge (codes "submit_job") job_spec_json

  abbrev pub start_value : Value → Exec V QrmiError Text
  start_value (object spec) = submit (insert (codes "device_id") (string self.device_id) spec)
  start_value _ = throw (other (codes "job_spec must be a JSON object"))

  abbrev pub start_spec : Text → Option Value → Exec V QrmiError Text
  start_spec job_spec (some value) = start_value value
  start_spec job_spec none =
      throw (other (codes "invalid job_spec JSON: " ++ lib.codec.parse_error job_spec))

  unfoldable pub task_start : Payload → Exec V QrmiError Text
  unfolding call_bridge c_string insert
  task_start (Payload.oqtopus job_spec) = start_spec job_spec (lib.codec.from_str job_spec)
  task_start _ = throw (other (codes "unsupported payload for Oqtopus backend"))
