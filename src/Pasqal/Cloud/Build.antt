-- ===== src/Pasqal/Cloud/Build.antt =====
-- Building the resource and its client (src/pasqal/cloud.rs, and `ClientBuilder` of
-- dependencies/pasqal_cloud_client/src/client.rs).
use qrmi.Prelude.{Option, none, some, [], ◌∷◌, unwrap_or}
use qrmi.Text.{Text, codes}
use qrmi.Result.{Result, ok, err}
use qrmi.Errors.{QrmiError, Message, text}
use qrmi.Settings.{Env}
use qrmi.Pasqal.File.{PasqalCloudConfig}
use qrmi.Pasqal.Config.{
  project_id, auth_token, auth_endpoint, base_url, credentials, service_account_credentials,
}
use qrmi.Pasqal.Client.{Libraries, Client, make_auth_header}
use qrmi.Pasqal.Cloud.{PasqalCloud}

-- A pair of credentials counts only if both are there.
abbrev pub both : Option Text → Option Text → Option Text × Option Text
both (some a) (some b) = (some a, some b)
both (some a) none = (none, none)
both none _ = (none, none)

-- What `from_pasqal_cloud_config` gives the builder.
abbrev pub configured : Env → Text → PasqalCloudConfig → Client
configured env backend_name cfg =
    let user = both (credentials env cfg).0 (credentials env cfg).1 in
    let account =
      both (service_account_credentials env cfg backend_name).0
        (service_account_credentials env cfg backend_name).1 in
    record {
      base_url = unwrap_or (base_url env cfg backend_name) (codes "https://apis.pasqal.cloud");
      project_id = unwrap_or (project_id env cfg backend_name) [];
      auth_token = unwrap_or (auth_token env cfg backend_name) [];
      auth_header = none;
      auth_endpoint = auth_endpoint env cfg backend_name;
      username = user.0;
      password = user.1;
      client_id = account.0;
      client_secret = account.1;
    }

module _ {V Value : Type 0} (lib : Libraries V Value)
    (build_http_client : Result Text (Unit {0})) where
  -- `ClientBuilder::build`: the HTTP client, then the header.
  abbrev pub with_header :
      Client → Result Text (Unit {0}) → Result Message (Option Text) → Result QrmiError Client
  with_header client (err e) header = err (QrmiError.other (text e ∷ []))
  with_header client (ok u) (err e) = err (QrmiError.other e)
  with_header client (ok u) (ok header) = ok (record client { auth_header = header })

  unfoldable pub build_client : Env → Text → PasqalCloudConfig → Result QrmiError Client
  unfolding make_auth_header project_id auth_token auth_endpoint base_url credentials
      service_account_credentials
  build_client env backend_name cfg =
      let client = configured env backend_name cfg in
      with_header client build_http_client (make_auth_header lib client.auth_token)

  abbrev pub new_cloud : Text → Result QrmiError Client → Result QrmiError PasqalCloud
  new_cloud backend_name (err e) = err e
  new_cloud backend_name (ok client) =
      ok (record { api_client = client; backend_name = backend_name; task_kinds = [] })

  unfoldable pub from_pasqal_cloud_config :
      Env → Text → PasqalCloudConfig → Result QrmiError PasqalCloud
  unfolding build_client
  from_pasqal_cloud_config env backend_name cfg =
      new_cloud backend_name (build_client env backend_name cfg)
