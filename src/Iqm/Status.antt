-- ===== src/Iqm/Status.antt =====
-- The state of the quantum computer (src/iqm/server.rs).
use qrmi.Prelude.{ℕ, Option, none, some, ◌++◌, Bool, true, false, ◌&&◌, leb, if◌then◌else◌}
use qrmi.Prelude.Int.{ℤ, pos}
use qrmi.Text.{Text, codes, eq_text}
use qrmi.Result.{Result, ok, err, map_err}
use qrmi.Exec.{Exec, ◌>>=◌, return, lift}
use qrmi.Errors.{QrmiError}
use qrmi.Models.{ResourceStatus, ResourceStatusCode}
use qrmi.Iqm.{
  ApiError, response_error, transport, backend, classify, Json, Api, IqmServer, Details, Request,
  QcHealthDetail,
}

-- `is_client_error` or `is_server_error`.
abbrev pub is_error : ℕ → Bool
is_error status = leb 400 status && leb status 599

abbrev pub operational_code : Text → ResourceStatusCode
operational_code operational =
    if eq_text operational (codes "online")
    then ResourceStatusCode.online
    else if eq_text operational (codes "maintenance")
    then ResourceStatusCode.paused
    else ResourceStatusCode.offline

abbrev pub reason_of : Option QcHealthDetail → Option Text
reason_of none = none
reason_of (some h) = some (codes "healthy updated at " ++ h.updated_at)

abbrev pub healthy_of : Option QcHealthDetail → Option Bool
healthy_of none = none
healthy_of (some h) = some h.healthy

abbrev pub count_of : Option ℤ → Option ℕ
count_of (some (pos n)) = some n
count_of _ = none

unfoldable pub status_from : Text → Option QcHealthDetail → Option ℤ → ResourceStatus
unfolding eq_text
status_from operational health queue_length = record {
  status = operational_code operational;
  status_reason = reason_of health;
  healthy = healthy_of health;
  busy = none;
  capacity = none;
  pending_job_count = count_of queue_length;
}

abbrev is_true : Option Bool → Bool
is_true (some b) = b
is_true none = false

abbrev is_online : ResourceStatusCode → Bool
is_online ResourceStatusCode.online = true
is_online _ = false

abbrev pub is_available : ResourceStatus → Bool
is_available st = is_online st.status && is_true st.healthy

module _ {Value : Type 0} (json : Json Value) where
  abbrev pub queue_length_of : Option Value → Option ℤ
  queue_length_of none = none
  queue_length_of (some value) = json.as_i64 value

  abbrev pub legacy_read :
      Value → Result Text (Option QcHealthDetail) → Result QrmiError ResourceStatus
  legacy_read body (err e) = err (QrmiError.invalid_json e)
  legacy_read body (ok health) =
      ok (
        status_from (codes "online") health
          (queue_length_of (json.get body (codes "queue_length"))))

  abbrev pub legacy : Value → Text → Option Value → Result QrmiError ResourceStatus
  legacy body spec_err none = err (QrmiError.invalid_json spec_err)
  legacy body spec_err (some legacy_health) = legacy_read body (json.health legacy_health)

  abbrev pub from_details : Value → Result Text Details → Result QrmiError ResourceStatus
  from_details body (ok qc) = ok (status_from qc.operational qc.health (some qc.queue_length))
  from_details body (err spec_err) =
      legacy body spec_err (json.pointer body (codes "/status/health"))

  unfoldable pub resource_status_from_qc_details : Value → Result QrmiError ResourceStatus
  unfolding status_from
  resource_status_from_qc_details body = from_details body (json.details body)

  module _ {V : Type 0} (api : Api V Value) (self : IqmServer) where
    abbrev pub details_request : Request
    details_request = record {
      url = self.config.base_path ++ codes "/api/v1/quantum-computers/" ++ self.backend_name;
      user_agent = self.config.user_agent;
      bearer = self.config.bearer_access_token;
    }

    -- `printed` is the error of a status as the client prints it.
    abbrev pub received : Result ApiError (ℕ × Text) × V → Result ApiError Value × V
    received (err e, v) = (err e, v)
    received (ok (status, content), v) =
        if is_error status
        then (err (response_error status content (api.printed status)), v)
        else (map_err transport (json.from_str content), v)

    abbrev pub explained : {A : Type 0} → Result ApiError A × V → Result QrmiError A × V
    explained (r, v) = (map_err (λ e. classify e backend) r, v)

    unfoldable pub fetch_qc_details : Exec V QrmiError Value
    unfolding classify
    fetch_qc_details v = explained (received (api.send details_request v))

    unfoldable pub status : Exec V QrmiError ResourceStatus
    unfolding fetch_qc_details resource_status_from_qc_details
    status = do body ← fetch_qc_details; lift (resource_status_from_qc_details body)

    unfoldable pub is_accessible : Exec V QrmiError Bool
    unfolding status
    is_accessible = do st ← status; return (is_available st)
