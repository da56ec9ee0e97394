-- ===== src/Ibm/Compute/Status.antt =====
-- `status` of the Quantum Compute Service, and the two services as resources.
use qrmi.Prelude.{
  ℕ, Bool, true, false, ◌&&◌, Option, none, some, List, [], ◌∷◌, ◌++◌, if◌then◌else◌,
}
use qrmi.Prelude.Int.{ℤ, pos, negsuc}
use qrmi.Text.{Text, codes, eq_text}
use qrmi.Result.{Result, err, ok_or}
use qrmi.Exec.{Exec, ◌>>=◌, ◌>>◌, return, lift, get}
use qrmi.Errors.{QrmiError}
use qrmi.Models.{ResourceStatus, ResourceStatusCode, ResourceType}
use qrmi.Resource.{QuantumResource, default_status}
use qrmi.Ibm.Api.{Api, Device, DeviceName, ResourceKind}
use qrmi.Ibm.Compute.State.{Service, configuration, renew, call}
use qrmi.Ibm.Compute.Sessions.{acquire, release}
use qrmi.Ibm.Compute.Paging.{version, has_dedicated_active_session}
use qrmi.Ibm.Compute.Tasks.{
  Product, runtime, compute, is_accessible, task_start, task_stop, task_status, task_result,
  task_logs, target,
}

abbrev pub code_of : DeviceName → ResourceStatusCode
code_of DeviceName.online = ResourceStatusCode.online
code_of DeviceName.offline = ResourceStatusCode.offline
code_of DeviceName.paused = ResourceStatusCode.paused

abbrev pub is_online : ResourceStatusCode → Bool
is_online ResourceStatusCode.online = true
is_online _ = false

-- `queue_length.try_into().ok()`
abbrev pub count_of : ℤ → Option ℕ
count_of (pos n) = some n
count_of (negsuc n) = none

abbrev pub describe : Device → Bool → ResourceStatus
describe device has_dedicated = record {
  status = code_of device.status;
  status_reason = device.reason;
  healthy = none;
  busy = some (is_online (code_of device.status) && has_dedicated);
  capacity = none;
  pending_job_count = count_of device.queue_length;
}

unfoldable pub find_device : Text → List Device → Option Device
unfolding eq_text
find_device name [] = none
find_device name (d ∷ ds) =
    let rest = find_device name ds in if eq_text d.name name then some d else rest

abbrev pub device_of : Text → Option (List Device) → Result QrmiError Device
device_of name none =
    err (
      QrmiError.resource_not_found
        (codes "backend list response is missing `devices` for " ++ name))
device_of name (some devices) = ok_or (find_device name devices) (
    QrmiError.resource_not_found
      (codes "backend `" ++ (name ++ codes "` not found in device list")))

module _ {V Value Params Document : Type 0} (api : Api V Value Params Document) where
  abbrev Run : Type 0 → Type 0
  Run A = Exec (Service × V) QrmiError A

  -- The code makes the requests of the two middle lines concurrently; here they are in the order in
  -- which it names them.
  unfoldable pub compute_status : Run ResourceStatus
  unfolding renew find_device has_dedicated_active_session
  compute_status = do
    renew api
    backends ←
        call api ResourceKind.backend (λ self. api.list_backends (configuration self) version)
    has_dedicated ← has_dedicated_active_session api
    (self, v) ← get
    device ← lift (device_of self.backend_name backends)
    return (describe device has_dedicated)

  abbrev pub status : Product → Run ResourceStatus
  status compute = compute_status
  status runtime = default_status (is_accessible api)

  abbrev pub type_of : Product → ResourceType
  type_of runtime = ResourceType.qiskit_runtime_service
  type_of compute = ResourceType.ibm_quantum_compute_service

  unfoldable pub quantum_resource : Product → QuantumResource (Service × V)
  quantum_resource product = record {
    resource_id = (do (self, v) ← get; return self.backend_name);
    resource_type = return (type_of product);
    is_accessible = is_accessible api;
    status = status product;
    acquire = acquire api;
    release = release api;
    task_start = task_start api product;
    task_stop = task_stop api;
    task_status = task_status api;
    task_result = task_result api;
    task_logs = task_logs api;
    target = target api;
  }
