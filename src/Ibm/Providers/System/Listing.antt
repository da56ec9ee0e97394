-- ===== src/Ibm/Providers/System/Listing.antt =====
-- What `resources` returns (src/ibm/quantum_system_provider/mod.rs).
use qrmi.Prelude.{
  ◌≡◌, refl, ap, ◌∙◌, Option, some, none, List, [], ◌∷◌, ◌++◌, Bool, ◌&&◌, map, Bool-cases, inl,
  inr, unwrap_or, arith, String, ◌⊎◌,
}
use qrmi.Prelude.Sort.{filter, filter-filter}
use qrmi.Text.{Text, codes}
use qrmi.Result.{Result, ok, err, Result-cases}
use qrmi.Errors.{QrmiError}
use qrmi.Settings.{Env, resolve_opt, resolve_opt_required}
use qrmi.Ibm.Filter.{
  BackendFilter, BackendConfiguration, parse_system, matches_name, matches_status,
}
use qrmi.Ibm.System.Api.{SystemApi, SystemError, ListedBackend, Connection}
use qrmi.Ibm.System.{System, settings_of, from_settings, require, opened_s3, s3_env, get_setting}
use qrmi.Ibm.Providers.{
  Environment, value_of, get, inject_backend_env, join_all, join_all-map, zip, zip-map,
}
use qrmi.Ibm.Providers.Environment.{inject_backend_env-found}
use qrmi.Ibm.Providers.System.{Provider, new, is_online, candidates, accepted, construct, resources}

-- A connection with the four settings of the map.
pub record IsConnectionOf (environment : Environment) (c : Connection) : Type 0 where
  pub endpoint : value_of environment (codes "QRMI_IBM_QS_ENDPOINT") ≡ some c.endpoint
  pub apikey : value_of environment (codes "QRMI_IBM_QS_IAM_APIKEY") ≡ some c.apikey
  pub service_crn : value_of environment (codes "QRMI_IBM_QS_SERVICE_CRN") ≡ some c.service_crn
  pub iam : value_of environment (codes "QRMI_IBM_QS_IAM_ENDPOINT") ≡ some c.iam_endpoint_url

-- The value of a setting in the map.
abbrev pub setting : Environment → String → Text
setting environment name = unwrap_or (value_of environment (codes name)) []

abbrev HasSetting : Environment → String → Type 0
HasSetting environment name = value_of environment (codes name) ≡ some (setting environment name)

-- The map has the four settings.
record HasSettings (environment : Environment) : Type 0 where
  pub endpoint : HasSetting environment "QRMI_IBM_QS_ENDPOINT"
  pub apikey : HasSetting environment "QRMI_IBM_QS_IAM_APIKEY"
  pub service_crn : HasSetting environment "QRMI_IBM_QS_SERVICE_CRN"
  pub iam : HasSetting environment "QRMI_IBM_QS_IAM_ENDPOINT"

module _ {V Client Value : Type 0} (api : SystemApi V Client Value)
    (environment : Environment) where
  -- The systems for these names, in order: of each name one that is connected with the settings of the
  -- map, unless no client could be built from a connection with these settings.
  pub data Made : List (System Client) → List Text → Type 0 where
    all_made : Made [] []
    made :
        {s : System Client} {name : Text} {systems : List (System Client)} {names : List Text}
        (c : Connection)
        → IsConnectionOf environment c
        → api.build c ≡ ok s.api_client
        → s.backend_name ≡ name
        → Made systems names
        → Made (s ∷ systems) (name ∷ names)
    unbuilt :
        {name : Text} {systems : List (System Client)} {names : List Text} (c : Connection)
        (e : SystemError)
        → IsConnectionOf environment c
        → api.build c ≡ err e
        → Made systems names
        → Made systems (name ∷ names)

  module _ (h : HasSettings environment) (name : Text) where
    connection : Env → Connection
    connection env = record {
      endpoint = (setting environment "QRMI_IBM_QS_ENDPOINT");
      apikey = (setting environment "QRMI_IBM_QS_IAM_APIKEY");
      service_crn = (setting environment "QRMI_IBM_QS_SERVICE_CRN");
      iam_endpoint_url = (setting environment "QRMI_IBM_QS_IAM_ENDPOINT");
      s3 = opened_s3 (s3_env env (settings_of name none));
      s3_endpoint_for_daapi =
          get_setting env (settings_of name none) "QRMI_IBM_QS_S3_ENDPOINT_FOR_QSAPI";
    }

    connection-IsConnectionOf : (env : Env) → IsConnectionOf environment (connection env)
    unfolding connection
    connection-IsConnectionOf env = record {
      endpoint = h.endpoint;
      apikey = h.apikey;
      service_crn = h.service_crn;
      iam = h.iam;
    }

    -- The system is built, or its client cannot be.
    abbrev Settled : Result QrmiError (System Client) → Env → Type 0
    Settled r env =
        ((s : System Client) × (r ≡ ok s)
          × (api.build (connection env) ≡ ok s.api_client)
          × (s.backend_name ≡ name))
        ⊎ ((x : QrmiError) × (e : SystemError) × (r ≡ err x) × (api.build (connection env) ≡ err e))

    from_settings-found :
        (env : Env)
        → env ((name ++ codes "_") ++ codes "QRMI_IBM_QS_ENDPOINT")
          ≡ some (setting environment "QRMI_IBM_QS_ENDPOINT")
        → env ((name ++ codes "_") ++ codes "QRMI_IBM_QS_IAM_APIKEY")
          ≡ some (setting environment "QRMI_IBM_QS_IAM_APIKEY")
        → env ((name ++ codes "_") ++ codes "QRMI_IBM_QS_SERVICE_CRN")
          ≡ some (setting environment "QRMI_IBM_QS_SERVICE_CRN")
        → env ((name ++ codes "_") ++ codes "QRMI_IBM_QS_IAM_ENDPOINT")
          ≡ some (setting environment "QRMI_IBM_QS_IAM_ENDPOINT")
        → Settled (from_settings api env name (settings_of name none)) env
    unfolding from_settings connection require resolve_opt resolve_opt_required
    from_settings-found env e a c i =
        rw (e, a, c, i)
          (elim (Result-cases (api.build (connection env))) [
            | inl (client, b) ↦ rw b (inl (_, refl, refl, refl))
            | inr (x, b) ↦ rw b (inr (_, x, refl, refl))
          ])

    from_settings-inject :
        (env : Env)
        → Settled
            (from_settings api
              (inject_backend_env name environment env)
              name
              (settings_of name none))
            (inject_backend_env name environment env)
    from_settings-inject env =
        from_settings-found (inject_backend_env name environment env)
          (inject_backend_env-found name environment env (codes "QRMI_IBM_QS_ENDPOINT")
            (setting environment "QRMI_IBM_QS_ENDPOINT") h.endpoint)
          (inject_backend_env-found name environment env (codes "QRMI_IBM_QS_IAM_APIKEY")
            (setting environment "QRMI_IBM_QS_IAM_APIKEY") h.apikey)
          (inject_backend_env-found name environment env (codes "QRMI_IBM_QS_SERVICE_CRN")
            (setting environment "QRMI_IBM_QS_SERVICE_CRN") h.service_crn)
          (inject_backend_env-found name environment env (codes "QRMI_IBM_QS_IAM_ENDPOINT")
            (setting environment "QRMI_IBM_QS_IAM_ENDPOINT") h.iam)

  module _ {Pattern : Type 0} (glob : Text → Result Text Pattern) (matches : Pattern → Text → Bool)
      (read : Value → Option BackendConfiguration) (document : Text → Result SystemError Value)
      (f : BackendFilter Pattern) (h : HasSettings environment) where
    construct-Made :
        (names : List Text) (env : Env)
        → Made
            (construct api glob matches read environment f
              (map (λ (name : Text). (name, document name)) names)
              env).0
            (filter (λ name. accepted api glob matches read f (document name)) names)
    unfolding construct
    construct-Made [] env = all_made
    construct-Made (name ∷ names) env =
        let env' = inject_backend_env name environment env in
        elim (Bool-cases (accepted api glob matches read f (document name))) [
          | inr e ↦ rw e (construct-Made names env)
          | inl e ↦ elim (from_settings-inject h name env) [
            | inl (s, m, b, n) ↦
                rw (e, m)
                  (made (connection h name env') (connection-IsConnectionOf h name env') b n
                    (construct-Made names env'))
            | inr (x, y, m, b) ↦
                rw (e, m)
                  (unbuilt (connection h name env') y (connection-IsConnectionOf h name env') b
                    (construct-Made names env'))
          ]
        ]

filter-name :
    (p : Text → Bool) (bs : List ListedBackend)
    → filter p (map (λ (b : ListedBackend). b.name) bs)
      ≡ map (λ (b : ListedBackend). b.name) (filter (λ b. p b.name) bs)
filter-name p [] = refl
filter-name p (b ∷ bs) = elim (Bool-cases (p b.name)) [
  | inl e ↦ rw e (ap (◌∷◌ b.name) (filter-name p bs))
  | inr e ↦ rw e (filter-name p bs)
]

module _ {V Client Value Pattern : Type 0} (api : SystemApi V Client Value)
    (glob : Text → Result Text Pattern) (matches : Pattern → Text → Bool)
    (read : Value → Option BackendConfiguration) where
  -- A backend that the filter asks for.
  abbrev pub qualifies :
      (Text → Result SystemError Value) → BackendFilter Pattern → ListedBackend → Bool
  qualifies document f b =
      (matches_status f (is_online b.status) && matches_name matches f b.name)
      && accepted api glob matches read f (document b.name)

  new-HasSettings :
      (environment : Environment) (self : Provider Client)
      → new api glob matches read environment ≡ ok self
      → HasSettings environment × (self.provider_env ≡ environment)
  unfolding new get
  new-HasSettings environment self n = ground arith

  candidates-qualifies :
      (document : Text → Result SystemError Value) (f : BackendFilter Pattern)
      (backends : List ListedBackend)
      → filter
          (λ name. accepted api glob matches read f (document name))
          (candidates matches f backends)
        ≡ map (λ (b : ListedBackend). b.name) (filter (qualifies document f) backends)
  candidates-qualifies document f backends =
      filter-name (λ name. accepted api glob matches read f (document name))
        (filter (λ b. matches_name matches f b.name)
          (filter (λ b. matches_status f (is_online b.status)) backends))
      ∙ ap (map (λ (b : ListedBackend). b.name)) (
          ap (filter (λ b. accepted api glob matches read f (document b.name))) (
            filter-filter (λ b. matches_name matches f b.name)
              (λ b. matches_status f (is_online b.status)) backends)
          ∙ filter-filter (λ b. accepted api glob matches read f (document b.name))
              (λ b. matches_status f (is_online b.status) && matches_name matches f b.name)
              backends)

  -- A provider that `new` has built, a filter string that can be read, a list of the backends, and
  -- configurations that do not change meanwhile: `resources` returns a system for each backend that
  -- the filter asks for and no other, in the order of the list, each connected with the provider's
  -- settings under the backend's name; one is left out only if its client cannot be built.
  pub resources-Made :
      (document : Text → Result SystemError Value) (environment : Environment)
      (self : Provider Client) (filters : Option Text) (f : BackendFilter Pattern)
      (backends : List ListedBackend) (env : Env) (v v' : V)
      → new api glob matches read environment ≡ ok self
      → parse_system glob (unwrap_or filters []) ≡ ok f
      → api.list_backends self.client v ≡ (ok backends, v')
      → ((name : Text) (w : V)
          → (api.get_backend_configuration self.client name w).0 ≡ document name)
      → (systems : List (System Client)) × (s : Env × V) × (resources api glob matches read self
            filters
            (env, v)
          ≡ (ok systems, s))
        × Made api environment systems
            (map (λ (b : ListedBackend). b.name) (filter (qualifies document f) backends))
  unfolding resources
  resources-Made document environment self filters f backends env v v' n p l steady =
      let names = candidates matches f backends in
      let (h, same) = new-HasSettings environment self n in
      let fetched = join_all (api.get_backend_configuration self.client) names v' in
      let e : zip names fetched.0 ≡ map (λ (name : Text). (name, document name)) names =
        ap (zip names)
          (join_all-map (api.get_backend_configuration self.client) document steady names v')
        ∙ zip-map document names in
      rw (p, l)
        (
          _,
          _,
          refl,
          rw (same, e)
              (rw (← candidates-qualifies document f backends)
                (construct-Made api environment glob matches read document f h names env)),
        )
