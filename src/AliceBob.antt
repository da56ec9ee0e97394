-- ===== src/AliceBob.antt =====
-- The resource of Alice & Bob Felis (src/alice_bob/felis.rs, src/alice_bob/error.rs).
pub mod Names
pub mod Promises
use qrmi.Prelude.{
  ℕ, Option, none, some, List, [], ◌∷◌, ◌++◌, Bool, true, false, not, ◌&&◌, ◌==◌, map,
  if◌then◌else◌,
}
use qrmi.Text.{Text, codes, eq_text}
use qrmi.Result.{Result, ok, err, map_err}
use qrmi.Exec.{Exec, ◌>>=◌, return, throw, lift}
use qrmi.Errors.{QrmiError, Message, text, status_line}
use qrmi.Models.{Payload, TaskStatus}
use qrmi.Settings.{Env, Config, resolve_opt_required_any}
use qrmi.AliceBob.Names.{target_to_device, device_to_target}

pub data ResourceKind : Type 0 where
  backend job : ResourceKind

-- `ResponseError`: the number of the status and the body.
pub data ApiError : Type 0 where
  response_error : ℕ → Text → ApiError
  transport : Text → ApiError

abbrev pub not_found : Text → ResourceKind → QrmiError
not_found body backend = QrmiError.resource_not_found body
not_found body job = QrmiError.task_not_found body

unfoldable pub classify : ResourceKind → ApiError → QrmiError
classify resource_kind (response_error status body) =
    if status == 400
    then QrmiError.invalid_input (text body ∷ [])
    else if status == 422
    then QrmiError.invalid_input (text body ∷ [])
    else if status == 401
    then QrmiError.authentication_failed body
    else if status == 404
    then not_found body resource_kind
    else QrmiError.other
        (text (codes "response body: ") ∷ status_line status ∷ text (codes " ") ∷ text body ∷ [])
classify resource_kind (transport message) = QrmiError.other (text message ∷ [])

pub data EventType : Type 0 where
  created fetching_input input_ready compiling compiled transpiling transpiled executing : EventType
  succeeded cancelled timed_out compilation_failed execution_failed transpilation_failed : EventType

pub record Target : Type 0 where
  pub name : Text
  -- the text of the whole object
  pub printed : Text

-- `configuration::Configuration`, with the pair that `decode_api_key` makes of the key.
pub record Configuration (Auth : Type 0) : Type 0 where
  pub base_path : Text
  pub basic_auth : Auth

-- The client (dependencies/alice_bob_felis_client), the JSON library, base64 and the cases of
-- Unicode, on a world `V`.
pub record Api (V Auth Value : Type 0) : Type 0 where
  pub to_lowercase : Text → Text
  pub to_uppercase : Text → Text
  pub decode_api_key : Text → Result Text Auth
  pub from_str : Text → Result Text Value
  pub list_targets : Configuration Auth → Exec V ApiError (List Target)
  -- the target and the parameters; the identifier of the new job
  pub create_job : Configuration Auth → Text → Value → Exec V ApiError Text
  pub upload_input : Configuration Auth → Text → Text → Exec V ApiError (Unit {0})
  -- the types of the job's events, the oldest first
  pub get_job : Configuration Auth → Text → Exec V ApiError (List EventType)
  pub cancel_job : Configuration Auth → Text → Exec V ApiError (Unit {0})
  pub download_output : Configuration Auth → Text → Exec V ApiError Text

pub record AliceBobFelis (Auth : Type 0) : Type 0 where
  pub config : Configuration Auth
  pub backend_name : Text
  pub felis_target : Text

abbrev pub prefix : Text → Option Config → Text
prefix backend_name (some config) = []
prefix backend_name none = backend_name ++ codes "_"

abbrev pub is_final : EventType → Bool
is_final succeeded = true
is_final cancelled = true
is_final _ = false

unfoldable pub to_task_status : EventType → TaskStatus
to_task_status created = TaskStatus.queued
to_task_status fetching_input = TaskStatus.queued
to_task_status input_ready = TaskStatus.queued
to_task_status compiling = TaskStatus.running
to_task_status compiled = TaskStatus.running
to_task_status transpiling = TaskStatus.running
to_task_status transpiled = TaskStatus.running
to_task_status executing = TaskStatus.running
to_task_status succeeded = TaskStatus.completed
to_task_status cancelled = TaskStatus.cancelled
to_task_status _ = TaskStatus.failed

unfoldable pub last : List EventType → Option EventType
last [] = none
last (e ∷ []) = some e
last (e ∷ d ∷ rest) = last (d ∷ rest)

abbrev pub find_target : Text → List Target → Option Target
find_target name [] = none
find_target name (t ∷ rest) = if eq_text t.name name then some t else find_target name rest

module _ {V Auth Value : Type 0} (api : Api V Auth Value) where
  abbrev pub with_key : Text → Text → Result Text Auth → Result QrmiError (AliceBobFelis Auth)
  with_key backend_name endpoint (err e) = err (
      QrmiError.invalid_config (
        text (codes "QRMI_AB_FELIS_API_KEY is not a base64-encoded 'user:password' API key: ")
        ∷ text e
        ∷ []))
  with_key backend_name endpoint (ok auth) = ok (record {
    config = record { base_path = endpoint; basic_auth = auth };
    backend_name = backend_name;
    felis_target = device_to_target api.to_uppercase backend_name;
  })

  abbrev pub with_endpoint :
      Text → Text → Result QrmiError Text → Result QrmiError (AliceBobFelis Auth)
  with_endpoint backend_name api_key (err e) = err e
  with_endpoint backend_name api_key (ok endpoint) =
      with_key backend_name endpoint (api.decode_api_key api_key)

  abbrev pub with_settings :
      Text → Result QrmiError Text → Result QrmiError Text → Result QrmiError (AliceBobFelis Auth)
  with_settings backend_name (err e) endpoint = err e
  with_settings backend_name (ok api_key) endpoint = with_endpoint backend_name api_key endpoint

  unfoldable pub from_opt : Env → Text → Option Config → Result QrmiError (AliceBobFelis Auth)
  unfolding resolve_opt_required_any device_to_target
  from_opt env backend_name config =
      with_settings backend_name
        (resolve_opt_required_any env
          ((prefix backend_name config ++ codes "QRMI_AB_FELIS_API_KEY")
            ∷ codes "QRMI_AB_FELIS_API_KEY"
            ∷ [])
          config)
        (resolve_opt_required_any env
          ((prefix backend_name config ++ codes "QRMI_AB_FELIS_BASE_ENDPOINT")
            ∷ codes "QRMI_AB_FELIS_BASE_ENDPOINT"
            ∷ [])
          config)

  module _ (self : AliceBobFelis Auth) where
    abbrev pub classified :
        {A : Type 0} → ResourceKind → Result ApiError A × V → Result QrmiError A × V
    classified kind (r, v) = (map_err (classify kind) r, v)

    abbrev pub call : {A : Type 0} → ResourceKind → Exec V ApiError A → Exec V QrmiError A
    call kind f v = classified kind (f v)

    unfoldable pub list_backends : Exec V QrmiError (List Text)
    unfolding classify target_to_device
    list_backends = do
      targets ← call backend (api.list_targets self.config)
      return (map (λ (t : Target). target_to_device api.to_lowercase t.name) targets)

    -- `none` where the code panics, on a job without events.
    unfoldable pub most_recent_event : Text → Exec V QrmiError (Option EventType)
    unfolding classify last
    most_recent_event task_id = do
      events ← call job (api.get_job self.config task_id)
      return (last events)

    -- An error of the upload is `Other`, since the job exists by then.
    abbrev pub uploaded : Text → Result ApiError (Unit {0}) × V → Result QrmiError Text × V
    uploaded id (ok u, v) = (ok id, v)
    uploaded id (err e, v) = (
      err (QrmiError.other (text (codes "input upload failed for created job ") ∷ text id ∷ [])),
      v,
    )

    abbrev pub after_create : Text → Result ApiError Text × V → Result QrmiError Text × V
    after_create human_qir (err e, v) = (err (classify backend e), v)
    after_create human_qir (ok id, v) = uploaded id (api.upload_input self.config id human_qir v)

    abbrev pub create : Text → Result Text Value → Exec V QrmiError Text
    create human_qir (err e) v = (err (QrmiError.invalid_json e), v)
    create human_qir (ok params) v =
        after_create human_qir (api.create_job self.config self.felis_target params v)

    unfoldable pub task_start : Payload → Exec V QrmiError Text
    unfolding classify
    task_start (Payload.alice_bob_felis human_qir input_params) =
        create human_qir (api.from_str input_params)
    task_start payload = throw (QrmiError.unsupported_payload payload)

    abbrev pub cancel_unless : Text → Option EventType → Exec V QrmiError (Option (Unit {0}))
    cancel_unless task_id none = return none
    cancel_unless task_id (some event) =
        if is_final event
        then return (some tt)
        else (do u ← call job (api.cancel_job self.config task_id); return (some u))

    unfoldable pub task_stop : Text → Exec V QrmiError (Option (Unit {0}))
    unfolding most_recent_event
    task_stop task_id = do event ← most_recent_event task_id; cancel_unless task_id event

    abbrev pub status_of : Option EventType → Option TaskStatus
    status_of none = none
    status_of (some event) = some (to_task_status event)

    unfoldable pub task_status : Text → Exec V QrmiError (Option TaskStatus)
    unfolding most_recent_event to_task_status
    task_status task_id = do event ← most_recent_event task_id; return (status_of event)

    unfoldable pub task_result : Text → Exec V QrmiError Text
    unfolding classify
    task_result task_id = call job (api.download_output self.config task_id)

    abbrev pub printed_of : Option Target → Option Text
    printed_of none = none
    printed_of (some t) = some t.printed

    -- `none` where the code panics, if the service does not list the target.
    unfoldable pub target : Exec V QrmiError (Option Text)
    unfolding classify eq_text
    target = do
      targets ← call backend (api.list_targets self.config)
      return (printed_of (find_target self.felis_target targets))
