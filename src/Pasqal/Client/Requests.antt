-- ===== src/Pasqal/Client/Requests.antt =====
-- The requests of the client (dependencies/pasqal_cloud_client/src/client.rs) and the models of
-- their answers (dependencies/pasqal_cloud_client/src/models).
use qrmi.Prelude.{ℕ, Option, none, some, List, [], ◌∷◌, ◌++◌, if◌then◌else◌}
use qrmi.Prelude.Int.{ℤ}
use qrmi.Text.{Text, codes, starts_with}
use qrmi.Result.{Result, ok, err, map_err}
use qrmi.Exec.{Exec, ◌>>=◌, ◌>>◌, lift}
use qrmi.Errors.{Message, text, plain, status_line, debug}
use qrmi.Pasqal.Client.{
  Libraries, Client, Method, Body, no_body, batch, cudaq, is_success, message, ensure_authenticated,
}

pub data JobStatus : Type 0 where
  pending running canceling done canceled error : JobStatus

pub data DeviceType : Type 0 where
  fresnel fresnel_can1 emu_mps emu_free emu_fresnel : DeviceType

-- `Display`.
unfoldable pub device_name : DeviceType → Text
device_name fresnel = codes "FRESNEL"
device_name fresnel_can1 = codes "FRESNEL_CAN1"
device_name emu_mps = codes "EMU_MPS"
device_name emu_free = codes "EMU_FREE"
device_name emu_fresnel = codes "EMU_FRESNEL"

-- The answers, parsed by `serde_json`; `Specs` is the list that `target` prints, `JobResult` a job's
-- counts.
pub record Models (Value Specs JobResult : Type 0) : Type 0 where
  -- the field `availability` of each device
  pub devices : Text → Result Text (List Text)
  -- the field `id` of a batch or of a CUDA-Q job
  pub created : Text → Result Text Text
  pub cancelled : Text → Result Text (Unit {0})
  -- the fields `status` and `job_ids`
  pub batch_data : Text → Result Text (JobStatus × List Text)
  pub cudaq_result : Text → Result Text Value
  pub job_status : Text → Result Text JobStatus
  pub full_results : Text → Result Text (List (Text × JobResult))
  pub print_result : JobResult → Result Text Text
  pub public_specs : Text → Result Text Specs
  -- the list of the one answer
  pub device_specs : Text → Result Text Specs
  pub print_specs : Specs → Result Text Text

-- `get_batch_results`, on the parsed answer.
abbrev pub one_result :
    {Value Specs JobResult : Type 0}
    → Models Value Specs JobResult
    → List (Text × JobResult)
    → Result Message Text
one_result models [] = err (plain "No results found")
one_result models ((id, result) ∷ []) = map_err message (models.print_result result)
one_result models ((id, result) ∷ other ∷ rest) =
    err (plain "Unexpected multiple jobs in one Pasqal cloud batch")

abbrev pub first_device : DeviceType → List Text → Result Message Text
first_device device_type [] =
    err (text (codes "No devices found for type ") ∷ debug (device_name device_type) ∷ [])
first_device device_type (availability ∷ rest) = ok availability

module _ {V Value Specs JobResult : Type 0} (lib : Libraries V Value)
    (models : Models Value Specs JobResult) where
  module _ {A : Type 0} (decode : Text → Result Text A) where
    abbrev pub handle_request :
        Client → Result Text (ℕ × Text) × V → Result Message A × (Client × V)
    handle_request self (err e, v) = (err (message e), (self, v))
    handle_request self (ok (status, json_text), v) =
        if is_success status then (map_err message (decode json_text), (self, v)) else (
          err (
              text (codes "Status: ")
              ∷ status_line status
              ∷ text (codes ", Fail ")
              ∷ text json_text
              ∷ []),
          (self, v),
        )

    abbrev pub with_headers :
        Method → Text → Body Value → Client → V → Option Text → Result Message A × (Client × V)
    with_headers method url body self v none =
        (err (plain "authorization header is not available"), (self, v))
    with_headers method url body self v (some header) = handle_request self (
        lib.send (record { method = method; url = url; authorization = some header; body = body })
          v)

    abbrev pub send_to : Method → Text → Body Value → Exec (Client × V) Message A
    send_to method url body (self, v) = with_headers method url body self v self.auth_header

    -- `get`, `post` and `patch`.
    unfoldable pub authenticated : Method → Text → Body Value → Exec (Client × V) Message A
    unfolding ensure_authenticated
    authenticated method url body = do ensure_authenticated lib; send_to method url body

    unfoldable pub get_unauthenticated : Text → Exec (Client × V) Message A
    get_unauthenticated url (self, v) = handle_request self (
        lib.send (record { method = Method.get; url = url; authorization = none; body = no_body })
          v)

  unfoldable pub get_device : DeviceType → Exec (Client × V) Message Text
  unfolding get_unauthenticated device_name
  get_device device_type s =
      (do
        devices ← get_unauthenticated models.devices (
            s.0.base_url
            ++ (codes "/core-fast/api/v1/devices?device_type=" ++ device_name device_type))
        lift (first_device device_type devices))
        s

  unfoldable pub create_batch : Text → ℤ → DeviceType → Exec (Client × V) Message Text
  unfolding authenticated device_name
  create_batch sequence job_runs device_type s =
      authenticated models.created Method.post (s.0.base_url ++ codes "/core-fast/api/v1/batches")
        (batch sequence job_runs (device_name device_type) s.0.project_id) s

  unfoldable pub create_cudaq_job : Value → ℤ → DeviceType → Exec (Client × V) Message Text
  unfolding authenticated device_name
  create_cudaq_job sequence shots device_type s =
      authenticated models.created Method.post (s.0.base_url ++ codes "/core-fast/api/v1/cudaq/job")
        (cudaq (device_name device_type) shots s.0.project_id sequence) s

  unfoldable pub cancel_batch : Text → Exec (Client × V) Message (Unit {0})
  unfolding authenticated
  cancel_batch batch_id s =
      authenticated models.cancelled Method.patch
        (s.0.base_url ++ (codes "/core-fast/api/v2/batches/" ++ (batch_id ++ codes "/cancel")))
        no_body s

  unfoldable pub get_batch : Text → Exec (Client × V) Message (JobStatus × List Text)
  unfolding authenticated
  get_batch batch_id s =
      authenticated models.batch_data Method.get
        (s.0.base_url ++ (codes "/core-fast/api/v2/batches/" ++ batch_id)) no_body s

  unfoldable pub get_cudaq_job : Text → Exec (Client × V) Message Value
  unfolding authenticated
  get_cudaq_job job_id s =
      authenticated models.cudaq_result Method.get
        (s.0.base_url ++ (codes "/core-fast/api/v1/cudaq/job/" ++ job_id)) no_body s

  unfoldable pub get_job : Text → Exec (Client × V) Message JobStatus
  unfolding authenticated
  get_job job_id s =
      authenticated models.job_status Method.get
        (s.0.base_url ++ (codes "/core-fast/api/v2/jobs/" ++ job_id)) no_body s

  unfoldable pub get_batch_results : Text → Exec (Client × V) Message Text
  unfolding authenticated
  get_batch_results batch_id s =
      (do
        data_of ←
            authenticated models.full_results Method.get
              (s.0.base_url
                ++ (codes "/core-fast/api/v1/batches/" ++ (batch_id ++ codes "/full_results")))
              no_body
        lift (one_result models data_of))
        s

  abbrev pub specs_of : Text → DeviceType → Exec (Client × V) Message Specs
  specs_of base_url device_type =
      if starts_with (codes "EMU") (device_name device_type)
      then get_unauthenticated models.public_specs
          (base_url ++ codes "/core-fast/api/v1/devices/public-specs")
      else authenticated models.device_specs Method.get
          (base_url ++ (codes "/core-fast/api/v1/devices/specs/" ++ device_name device_type))
          no_body

  -- An emulator's specifications are public.
  unfoldable pub get_device_specs : DeviceType → Exec (Client × V) Message Text
  unfolding authenticated get_unauthenticated starts_with device_name
  get_device_specs device_type s =
      (do
        specs ← specs_of s.0.base_url device_type
        lift (map_err message (models.print_specs specs)))
        s
