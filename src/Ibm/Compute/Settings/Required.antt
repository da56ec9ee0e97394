-- ===== src/Ibm/Compute/Settings/Required.antt =====
-- The settings that a service cannot do without.
use qrmi.Prelude.{◌≡◌, refl, Option, none, some, List, [], ◌∷◌, Option-cases, inl, inr}
use qrmi.Text.{Text}
use qrmi.Result.{Result, ok, err}
use qrmi.Errors.{QrmiError}
use qrmi.Settings.{Env, Config, resolve_opt, resolve_opt_required, not_found_error}
use qrmi.Ibm.Compute.State.{Service}
use qrmi.Ibm.Compute.Tasks.{Product}
use qrmi.Ibm.Compute.Settings.{key, from_opt}

module _ (env : Env) (config : Option Config) where
  -- The first of `keys` that is not set is `k`.
  pub data FirstMissing : List Text → Text → Type 0 where
    here : {k : Text} {ks : List Text} → resolve_opt env k config ≡ none → FirstMissing (k ∷ ks) k
    later :
        {k j v : Text} {ks : List Text}
        → resolve_opt env j config ≡ some v
        → FirstMissing ks k
        → FirstMissing (j ∷ ks) k

module _ (env : Env) (product : Product) (backend_name : Text) (config : Option Config) where
  abbrev pub required : List Text
  required =
      key env product backend_name config "ENDPOINT"
      ∷ key env product backend_name config "IAM_ENDPOINT"
      ∷ key env product backend_name config "IAM_APIKEY"
      ∷ key env product backend_name config "SERVICE_CRN"
      ∷ []

  -- A service has the four required settings, each looked up under the name of its product; without
  -- one of them the error names the first that is missing.
  abbrev pub Configured : Result QrmiError Service → Type 0
  Configured (ok s) =
      (resolve_opt env (key env product backend_name config "ENDPOINT") config ≡ some s.base_path)
      × (resolve_opt env (key env product backend_name config "IAM_ENDPOINT") config
          ≡ some s.iam_endpoint)
      × (resolve_opt env (key env product backend_name config "IAM_APIKEY") config ≡ some s.api_key)
      × (resolve_opt env (key env product backend_name config "SERVICE_CRN") config ≡ some s.crn)
  Configured (err e) =
      (k : Text) × FirstMissing env config required k × (e ≡ not_found_error k config)

  -- A service is built exactly from the four required settings, each looked up under the name of its
  -- product and, in the environment, of its backend; without one of them the error names the first
  -- that is missing.
  from_opt-Configured : Configured (from_opt env product backend_name config)
  unfolding from_opt resolve_opt_required
  from_opt-Configured =
      elim (Option-cases
        (resolve_opt env (key env product backend_name config "ENDPOINT") config)) [
          | inl e ↦ rw e (_, here e, refl)
          | inr (a, e) ↦
              elim (Option-cases
                (resolve_opt env (key env product backend_name config "IAM_ENDPOINT") config)) [
                  | inl f ↦ rw (e, f) (_, later e (here f), refl)
                  | inr (b, f) ↦
                      elim (Option-cases (
                        resolve_opt env (key env product backend_name config "IAM_APIKEY")
                          config)) [
                            | inl g ↦ rw (e, f, g) (_, later e (later f (here g)), refl)
                            | inr (c, g) ↦
                                elim (Option-cases (
                                  resolve_opt env
                                    (key env product backend_name config "SERVICE_CRN") config)) [
                                      | inl h ↦
                                          rw (e, f, g, h)
                                            (_, later e (later f (later g (here h))), refl)
                                      | inr (d, h) ↦ rw (e, f, g, h) (e, f, g, h)
                                    ]
                          ]
                ]
        ]
