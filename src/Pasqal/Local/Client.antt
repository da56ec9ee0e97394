-- ===== src/Pasqal/Local/Client.antt =====
-- The client of the middleware of Pasqal Local (dependencies/pasqal_local_client/src/client.rs).
use qrmi.Prelude.{ℕ, Option, none, some, [], ◌∷◌, ◌++◌, Bool, if◌then◌else◌}
use qrmi.Prelude.Int.{ℤ}
use qrmi.Text.{Text, codes}
use qrmi.Result.{Result, ok, err, map_err}
use qrmi.Exec.{Exec, ◌>>=◌, lift}
use qrmi.Errors.{Message, text, status_line}
use qrmi.Pasqal.Client.{is_success, message}

pub data JobStatus : Type 0 where
  pending running done canceled error : JobStatus

pub record JobResponse : Type 0 where
  pub id : ℤ
  pub status : JobStatus
  pub results : Option Text

pub data Method : Type 0 where
  get post delete : Method

pub data Body : Type 0 where
  no_body : Body
  -- sequence, shots
  create_job_body : Text → ℤ → Body
  -- user_id, which is sent as a text, and slurm_job_id
  create_session_body : ℤ → Text → Body

pub record Request : Type 0 where
  pub method : Method
  pub url : Text
  -- the header `x-munge-cred`, and `X-Warden-Session`
  pub credential : Option Text
  pub warden_session : Option Text
  pub body : Body

-- The libraries, on a world `V` that holds the services. A credential of munge fits into a header.
pub record Libraries (V : Type 0) : Type 0 where
  pub munge : Exec V Text Text
  -- the number of the status and the body
  pub send : Request → Exec V Text (ℕ × Text)
  -- the answers, parsed by `serde_json`
  pub job : Text → Result Text JobResponse
  pub accessible : Text → Result Text Bool
  pub session : Text → Result Text Text
  pub specs : Text → Result Text Text
  pub logs : Text → Result Text Text
  -- the list of the one specification, under the name that the text gives, and printed
  pub print_specs : Text → Result Text Text

module _ {V : Type 0} (lib : Libraries V) (base_url : Text) where
  module _ {A : Type 0} (decode : Text → Result Text A) where
    abbrev pub handle_request : Result Text (ℕ × Text) × V → Result Message A × V
    handle_request (err e, v) = (err (message e), v)
    handle_request (ok (status, json_text), v) =
        if is_success status then (map_err message (decode json_text), v) else (
          err (
              text (codes "Status: ")
              ∷ status_line status
              ∷ text (codes ", Fail ")
              ∷ text json_text
              ∷ []),
          v,
        )

    abbrev pub with_credential :
        Method → Text → Option Text → Body → Result Text Text × V → Result Message A × V
    with_credential method url warden_session body (err e, v) = (err (message e), v)
    with_credential method url warden_session body (ok token, v) = handle_request (
        lib.send
          (record {
            method = method;
            url = url;
            credential = some token;
            warden_session = warden_session;
            body = body;
          })
          v)

    -- A request with the headers of `create_headers`.
    unfoldable pub signed : Method → Text → Option Text → Body → Exec V Message A
    signed method url warden_session body v =
        with_credential method url warden_session body (lib.munge v)

  unfoldable pub get_job : Text → Exec V Message JobResponse
  unfolding signed
  get_job job_id = signed lib.job Method.get (base_url ++ (codes "/jobs/" ++ job_id)) none no_body

  unfoldable pub create_job : Text → ℤ → Text → Exec V Message JobResponse
  unfolding signed
  create_job sequence shots session_id =
      signed lib.job Method.post (base_url ++ codes "/jobs") (some session_id)
        (create_job_body sequence shots)

  unfoldable pub cancel_job : Text → Exec V Message JobResponse
  unfolding signed
  cancel_job job_id =
      signed lib.job Method.post (base_url ++ (codes "/jobs/" ++ (job_id ++ codes "/cancel"))) none
        no_body

  -- The one request without a credential.
  unfoldable pub get_accessible : Exec V Message Bool
  get_accessible v = handle_request lib.accessible (
      lib.send
        (record {
          method = Method.get;
          url = base_url ++ codes "/accessible";
          credential = none;
          warden_session = none;
          body = no_body;
        })
        v)

  unfoldable pub create_session : ℤ → Text → Exec V Message Text
  unfolding signed
  create_session user_id slurm_job_id =
      signed lib.session Method.post (base_url ++ codes "/sessions") none
        (create_session_body user_id slurm_job_id)

  unfoldable pub revoke_session : Text → Exec V Message Text
  unfolding signed
  revoke_session session_id =
      signed lib.session Method.delete (base_url ++ (codes "/sessions/" ++ session_id)) none no_body

  unfoldable pub get_device_specs : Exec V Message Text
  unfolding signed
  get_device_specs = do
    specs ← signed lib.specs Method.get (base_url ++ codes "/qpu/specs") none no_body
    lift (map_err message (lib.print_specs specs))

  unfoldable pub get_task_logs : Text → Exec V Message Text
  unfolding signed
  get_task_logs task_id =
      signed lib.logs Method.get (base_url ++ (codes "/jobs/" ++ (task_id ++ codes "/logs"))) none
        no_body
