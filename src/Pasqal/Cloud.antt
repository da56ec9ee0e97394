-- ===== src/Pasqal/Cloud.antt =====
-- The resource of Pasqal Cloud (src/pasqal/cloud.rs).
pub mod Build
pub mod Tasks
pub mod Promises
pub mod Reach
use qrmi.Prelude.{
  Bool, true, false, ◌&&◌, ◌||◌, Option, none, some, List, [], ◌∷◌, is_empty, is_some, unwrap_or,
  or_option, if◌then◌else◌, ◌==◌, length,
}
use qrmi.Prelude.Int.{ℤ}
use qrmi.Text.{Text, codes, eq_text, to_ascii_uppercase}
use qrmi.Result.{Result, ok, err, map_err, ok_or}
use qrmi.Exec.{Exec, ◌>>=◌, ◌>>◌, return, throw, lift, continue}
use qrmi.Errors.{QrmiError, PasqalError, Message, text, plain}
use qrmi.Models.{Payload, ResourceType, TaskStatus, ResourceStatus}
use qrmi.Settings.{Env}
use qrmi.Resource.{QuantumResource, default_status, default_acquire, default_release}
use qrmi.Pasqal.File.{PasqalCloudConfig}
use qrmi.Pasqal.Config.{
  project_id, auth_token, auth_endpoint, base_url, credentials, service_account_credentials,
}
use qrmi.Pasqal.Client.{Libraries, Client, make_auth_header}
use qrmi.Pasqal.Client.Requests.{
  JobStatus, DeviceType, fresnel, fresnel_can1, emu_mps, emu_free, emu_fresnel, Models, get_device,
  create_batch, create_cudaq_job, cancel_batch, get_batch, get_cudaq_job, get_job,
  get_batch_results, get_device_specs,
}

pub data PasqalTaskKind : Type 0 where
  pulser cudaq : PasqalTaskKind

-- The map `task_kinds`: the last entry of a task stands first.
abbrev pub TaskKinds : Type 0
TaskKinds = List (Text × PasqalTaskKind)

unfoldable pub kind_in : TaskKinds → Text → Option PasqalTaskKind
unfolding eq_text
kind_in [] task_id = none
kind_in ((id, kind) ∷ rest) task_id = if eq_text id task_id then some kind else kind_in rest task_id

pub record PasqalCloud : Type 0 where
  pub api_client : Client
  pub backend_name : Text
  pub task_kinds : TaskKinds

-- `DeviceType::from_str`; `str::to_uppercase`, by the tables of Unicode, is an argument.
unfoldable pub device_type_of : (Text → Text) → Text → Option DeviceType
unfolding eq_text
device_type_of to_uppercase s =
    let name = to_uppercase s in
    if eq_text name (codes "FRESNEL")
    then some fresnel
    else if eq_text name (codes "FRESNEL_CAN1")
    then some fresnel_can1
    else if eq_text name (codes "EMU_MPS")
    then some emu_mps
    else if eq_text name (codes "EMU_FRESNEL")
    then some emu_fresnel
    else if eq_text name (codes "EMU_FREE")
    then some emu_free
    else none

unfoldable pub parse_device_type : (Text → Text) → Text → Result QrmiError DeviceType
unfolding device_type_of
parse_device_type to_uppercase backend_name = ok_or (device_type_of to_uppercase backend_name) (
    QrmiError.pasqal (
      PasqalError.invalid_device_type (
        text (codes "device '")
        ∷ text backend_name
        ∷ text (
            codes
              "' is invalid. Valid devices: FRESNEL, FRESNEL_CAN1, EMU_MPS, EMU_FREE, EMU_FRESNEL")
        ∷ [])))

unfoldable pub map_job_status : JobStatus → TaskStatus
map_job_status JobStatus.pending = TaskStatus.queued
map_job_status JobStatus.running = TaskStatus.running
map_job_status JobStatus.canceling = TaskStatus.cancelled
map_job_status JobStatus.done = TaskStatus.completed
map_job_status JobStatus.canceled = TaskStatus.cancelled
map_job_status JobStatus.error = TaskStatus.failed

-- What the code takes of `serde_json::Value`.
pub record Json (Value : Type 0) : Type 0 where
  pub from_str : Text → Result Text Value
  -- `as_object`, the members in the order of the map
  pub as_object : Value → Option (List (Text × Value))
  pub is_number : Value → Bool
  -- the text of an object with the one member `counter`
  pub print_counter : Value → Text

module _ {Value : Type 0} (json : Json Value) where
  abbrev pub member : Text → List (Text × Value) → Option Value
  member key [] = none
  member key ((k, v) ∷ rest) = if eq_text k key then some v else member key rest

  abbrev pub member_of : Text → Option (List (Text × Value)) → Option Value
  member_of key none = none
  member_of key (some members) = member key members

  -- `Value::get` at a key.
  unfoldable pub get_member : Text → Value → Option Value
  unfolding eq_text
  get_member key v = member_of key (json.as_object v)

  abbrev pub has_both : Result Text Value → Bool
  has_both (ok v) =
      is_some (get_member (codes "setup") v) && is_some (get_member (codes "hamiltonian") v)
  has_both (err e) = false

  unfoldable pub is_cudaq_sequence : Text → Bool
  unfolding get_member
  is_cudaq_sequence sequence = has_both (json.from_str sequence)

  abbrev pub all_numbers : List (Text × Value) → Bool
  all_numbers [] = true
  all_numbers ((k, v) ∷ rest) = json.is_number v && all_numbers rest

  abbrev pub object_only : Value → Option Value
  object_only v = if is_some (json.as_object v) then some v else none

  abbrev pub object_filter : Option Value → Option Value
  object_filter none = none
  object_filter (some v) = object_only v

  abbrev pub nested_counter : Value → Value → Value
  nested_counter counter nested =
      unwrap_or
        (or_option (object_filter (get_member (codes "counter") nested)) (object_only nested))
        counter

  abbrev pub single : Value → List (Text × Value) → Value
  single counter ((k, nested) ∷ []) = nested_counter counter nested
  single counter _ = counter

  abbrev pub counter_of : Value → Option (List (Text × Value)) → Value
  counter_of counter none = counter
  counter_of counter (some members) =
      if all_numbers members then counter else single counter members

  unfoldable pub normalize_cudaq_result : Value → Text
  unfolding get_member
  normalize_cudaq_result result =
      let counter = unwrap_or (get_member (codes "counter") result) result in
      json.print_counter (counter_of counter (json.as_object counter))
