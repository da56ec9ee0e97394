-- ===== src/Pasqal/Config.antt =====
-- The access settings of Pasqal Cloud (src/pasqal/cloud_config.rs): where the configuration file is
-- looked for, and what overrides its values.
pub mod Preference
use qrmi.Prelude.{
  Bool, not, ◌||◌, Option, none, some, List, [], ◌∷◌, ◌++◌, is_empty, keep_if, or_option, unwrap_or,
  String, if◌then◌else◌,
}
use qrmi.Text.{Text, codes, trim, ends_with}
use qrmi.Result.{Result, ok, err, ◌>>=◌}
use qrmi.Errors.{QrmiError}
use qrmi.Settings.{Env, Config, resolve_opt}
use qrmi.Pasqal.Expand.{expand_config_root}
use qrmi.Pasqal.File.{PasqalCloudConfig, default, parse_pasqal_config_content}

-- `.filter(|v| !v.trim().is_empty())`
abbrev pub non_blank : Option Text → Option Text
non_blank none = none
non_blank (some v) = if is_empty (trim v) then none else some v

abbrev pub prefixed : Text → String → Option Config → Text
prefixed backend_name value none = backend_name ++ (codes "_" ++ codes value)
prefixed backend_name value (some config) = codes value

-- `PathBuf::push` of a relative name.
abbrev pub push_name : Text → Text → Text
push_name path name =
    if is_empty path || ends_with b'/' path then path ++ name else path ++ (b'/' ∷ name)

module _ (env : Env) where
  unfoldable pub resolve_backend_prefixed_param : Text → String → Option Config → Option Text
  unfolding resolve_opt
  resolve_backend_prefixed_param backend_name value config =
      non_blank (resolve_opt env (prefixed backend_name value config) config)

  module _ (self : PasqalCloudConfig) (backend_name : Text) where
    unfoldable pub project_id : Option Text
    unfolding resolve_backend_prefixed_param
    project_id =
        or_option
          (resolve_backend_prefixed_param backend_name "QRMI_PASQAL_CLOUD_PROJECT_ID" self.config)
          (non_blank self.project_id)

    unfoldable pub auth_token : Option Text
    unfolding resolve_backend_prefixed_param
    auth_token =
        or_option
          (resolve_backend_prefixed_param backend_name "QRMI_PASQAL_CLOUD_AUTH_TOKEN" self.config)
          (non_blank self.token)

    unfoldable pub auth_endpoint : Text
    unfolding resolve_backend_prefixed_param
    auth_endpoint =
        unwrap_or
          (or_option
            (resolve_backend_prefixed_param backend_name "QRMI_PASQAL_CLOUD_AUTH_ENDPOINT"
              self.config)
            (non_blank self.auth_endpoint))
          (codes "authenticate.pasqal.cloud/oauth/token")

    unfoldable pub base_url : Option Text
    unfolding resolve_backend_prefixed_param
    base_url = resolve_backend_prefixed_param backend_name "QRMI_PASQAL_CLOUD_BASE_URL" self.config

    unfoldable pub service_account_credentials : Option Text × Option Text
    unfolding resolve_backend_prefixed_param
    service_account_credentials = (
      or_option
          (resolve_backend_prefixed_param backend_name "QRMI_PASQAL_CLOUD_CLIENT_ID" self.config)
          (non_blank self.client_id),
      or_option
          (resolve_backend_prefixed_param backend_name "QRMI_PASQAL_CLOUD_CLIENT_SECRET"
            self.config)
          (non_blank self.client_secret),
    )

  unfoldable pub credentials : PasqalCloudConfig → Option Text × Option Text
  unfolding resolve_opt
  credentials self = (
    or_option (non_blank (resolve_opt env (codes "PASQAL_USERNAME") self.config))
        (non_blank self.username),
    or_option (non_blank (resolve_opt env (codes "PASQAL_PASSWORD") self.config))
        (non_blank self.password),
  )

  abbrev pub path_of : Text → Result QrmiError (Option Text)
  path_of config_root = if is_empty config_root then ok none else (do
    expanded ← expand_config_root env config_root
    ok (some (push_name (push_name expanded (codes ".pasqal")) (codes "config"))))

  unfoldable pub pasqal_config_path_from_root : Text → Result QrmiError (Option Text)
  unfolding expand_config_root trim ends_with
  pasqal_config_path_from_root config_root = path_of (trim config_root)

  -- The path from a setting that may be missing.
  abbrev pub path_from : Option Text → Result QrmiError (Option Text)
  path_from none = ok none
  path_from (some root) = pasqal_config_path_from_root root

  -- `PASQAL_CONFIG_ROOT`, and without a map and a path the one of the backend.
  abbrev pub config_root_path : Text → Option Config → Option Text → Result QrmiError (Option Text)
  config_root_path backend_name none none =
      path_from (resolve_opt env (backend_name ++ codes "_PASQAL_CONFIG_ROOT") none)
  config_root_path backend_name _ path = ok path

  -- `read` is `fs::read_to_string(path).ok()`.
  module _ (read : Text → Option Text) where
    -- The first candidate that can be read, parsed; a file that makes the parser panic gives `none`.
    unfoldable pub resolve_pasqal_config : List Text → Option PasqalCloudConfig
    unfolding parse_pasqal_config_content
    resolve_pasqal_config [] = some default
    resolve_pasqal_config (path ∷ paths) =
        let rest = resolve_pasqal_config paths in
        elim (read path) [ none ↦ rest | some content ↦ parse_pasqal_config_content content ]

    abbrev pub candidates : Option Text → Option Text → List Text
    candidates none none = []
    candidates none (some home) = home ∷ []
    candidates (some root) none = root ∷ []
    candidates (some root) (some home) = root ∷ home ∷ []

    abbrev pub with_config : Option Config → Option PasqalCloudConfig → Option PasqalCloudConfig
    with_config config none = none
    with_config config (some c) = some (record c { config = config })

    unfoldable pub read_pasqal_config :
        Text → Option Config → Result QrmiError (Option PasqalCloudConfig)
    unfolding resolve_opt pasqal_config_path_from_root resolve_pasqal_config
    read_pasqal_config backend_name hashmap_config = do
      shared ← path_from (resolve_opt env (codes "PASQAL_CONFIG_ROOT") hashmap_config)
      root ← config_root_path backend_name hashmap_config shared
      home ← path_from (resolve_opt env (codes "HOME") hashmap_config)
      ok (with_config hashmap_config (resolve_pasqal_config (candidates root home)))
