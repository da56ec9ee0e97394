-- ===== src/Resource.antt =====
-- The trait `QuantumResource` (src/lib.rs). The state that a method may change, its `&mut self` and
-- the remote service, is the parameter `W`.
use qrmi.Prelude.{none, Bool, if◌then◌else◌}
use qrmi.Text.{Text, codes}
use qrmi.Result.{ok}
use qrmi.Exec.{Exec, ◌>>=◌, return, throw}
use qrmi.Errors.{QrmiError}
use qrmi.Models.{Payload, ResourceType, TaskStatus, ResourceStatus, online, offline}

pub record QuantumResource (W : Type 0) : Type 0 where
  pub resource_id : Exec W QrmiError Text
  pub resource_type : Exec W QrmiError ResourceType
  pub is_accessible : Exec W QrmiError Bool
  pub status : Exec W QrmiError ResourceStatus
  pub acquire : Exec W QrmiError Text
  pub release : Text → Exec W QrmiError (Unit {0})
  pub task_start : Payload → Exec W QrmiError Text
  pub task_stop : Text → Exec W QrmiError (Unit {0})
  pub task_status : Text → Exec W QrmiError TaskStatus
  -- The result is the text that `TaskResult` holds, and `target`'s that of `Target`.
  pub task_result : Text → Exec W QrmiError Text
  pub task_logs : Text → Exec W QrmiError Text
  pub target : Exec W QrmiError Text

-- A status that knows only whether the resource is online.
abbrev pub bare_status : Bool → ResourceStatus
bare_status accessible = record {
  status = if accessible then online else offline;
  status_reason = none;
  healthy = none;
  busy = none;
  capacity = none;
  pending_job_count = none;
}

-- The trait's default methods.
module _ {W : Type 0} where
  unfoldable pub default_status : Exec W QrmiError Bool → Exec W QrmiError ResourceStatus
  default_status is_accessible = do accessible ← is_accessible; return (bare_status accessible)

  -- A resource of which a vendor implements none of the task methods.
  unfoldable pub default_task_start : Payload → Exec W QrmiError Text
  default_task_start p =
      throw (QrmiError.unsupported_function (codes "qrmi::QuantumResource::task_start"))

  unfoldable pub default_task_stop : Text → Exec W QrmiError (Unit {0})
  default_task_stop id =
      throw (QrmiError.unsupported_function (codes "qrmi::QuantumResource::task_stop"))

  unfoldable pub default_task_status : Text → Exec W QrmiError TaskStatus
  default_task_status id =
      throw (QrmiError.unsupported_function (codes "qrmi::QuantumResource::task_status"))

  unfoldable pub default_task_result : Text → Exec W QrmiError Text
  default_task_result id =
      throw (QrmiError.unsupported_function (codes "qrmi::QuantumResource::task_result"))

  unfoldable pub default_task_logs : Text → Exec W QrmiError Text
  default_task_logs id =
      throw (QrmiError.unsupported_function (codes "qrmi::QuantumResource::task_logs"))

  unfoldable pub default_target : Exec W QrmiError Text
  default_target = throw (QrmiError.unsupported_function (codes "qrmi::QuantumResource::target"))

  -- The identifier is a fresh UUID, which the caller's side draws.
  unfoldable pub default_acquire : (W → Text × W) → Exec W QrmiError Text
  default_acquire new_v4 w = let (id, w') = new_v4 w in (ok id, w')

  unfoldable pub default_release : Text → Exec W QrmiError (Unit {0})
  default_release id = return tt
