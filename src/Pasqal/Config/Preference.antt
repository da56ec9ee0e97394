-- ===== src/Pasqal/Config/Preference.antt =====
-- The order of the sources of an access setting (src/pasqal/cloud_config.rs).
use qrmi.Prelude.{
  ◌≡◌, refl, true, false, Option, none, some, is_empty, or_option, Bool-cases, inl, inr,
}
use qrmi.Text.{Text, codes, trim}
use qrmi.Settings.{Env, resolve_opt}
use qrmi.Pasqal.File.{PasqalCloudConfig}
use qrmi.Pasqal.Config.{
  non_blank, prefixed, resolve_backend_prefixed_param, project_id, auth_token,
  service_account_credentials, credentials,
}

abbrev pub IsBlank : Option Text → Type 0
IsBlank none = Unit
IsBlank (some v) = is_empty (trim v) ≡ true

-- The first of two settings that is there and is not blank.
pub data Preferred (a b : Option Text) : Option Text → Type 0 where
  first : {v : Text} → a ≡ some v → is_empty (trim v) ≡ false → Preferred a b (some v)
  second : {v : Text} → IsBlank a → b ≡ some v → is_empty (trim v) ≡ false → Preferred a b (some v)
  neither : IsBlank a → IsBlank b → Preferred a b none

second-Preferred : (a b : Option Text) → IsBlank a → Preferred a b (non_blank b)
second-Preferred a none h = neither h tt
second-Preferred a (some v) h = elim (Bool-cases (is_empty (trim v))) [
  | inl e ↦ rw e (neither h e)
  | inr e ↦ rw e (second h refl e)
]

non_blank-Preferred : (a b : Option Text) → Preferred a b (or_option (non_blank a) (non_blank b))
non_blank-Preferred none b = second-Preferred none b tt
non_blank-Preferred (some v) b = elim (Bool-cases (is_empty (trim v))) [
  | inl e ↦ rw (or_option, e) (second-Preferred (some v) b e)
  | inr e ↦ rw (or_option, e) (first refl e)
]

-- The project, the token and the credentials each come from the map, or without one from the
-- environment under the backend's name (the name and password of a user under no backend's), and
-- else from the configuration file; a blank value counts as missing, and none is ever returned.
access-Preferred :
    (env : Env) (self : PasqalCloudConfig) (backend_name : Text)
    → Preferred
        (resolve_opt env
          (prefixed backend_name "QRMI_PASQAL_CLOUD_PROJECT_ID" self.config)
          self.config)
        self.project_id
        (project_id env self backend_name)
      × Preferred
          (resolve_opt env
            (prefixed backend_name "QRMI_PASQAL_CLOUD_AUTH_TOKEN" self.config)
            self.config)
          self.token
          (auth_token env self backend_name)
      × Preferred
          (resolve_opt env
            (prefixed backend_name "QRMI_PASQAL_CLOUD_CLIENT_ID" self.config)
            self.config)
          self.client_id
          (service_account_credentials env self backend_name).0
      × Preferred
          (resolve_opt env
            (prefixed backend_name "QRMI_PASQAL_CLOUD_CLIENT_SECRET" self.config)
            self.config)
          self.client_secret
          (service_account_credentials env self backend_name).1
      × Preferred
          (resolve_opt env (codes "PASQAL_USERNAME") self.config)
          self.username
          (credentials env self).0
      × Preferred
          (resolve_opt env (codes "PASQAL_PASSWORD") self.config)
          self.password
          (credentials env self).1
unfolding project_id auth_token service_account_credentials credentials
    resolve_backend_prefixed_param
access-Preferred env self backend_name = (
  non_blank-Preferred _ _,
  non_blank-Preferred _ _,
  non_blank-Preferred _ _,
  non_blank-Preferred _ _,
  non_blank-Preferred _ _,
  non_blank-Preferred _ _,
)
