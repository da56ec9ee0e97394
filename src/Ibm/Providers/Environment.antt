-- ===== src/Ibm/Providers/Environment.antt =====
-- What a provider's map says in the environment under a backend's name.
use qrmi.Prelude.{
  ◌≡◌, refl, ◌∙◌, ◌++◌, [], ◌∷◌, or_option, Bool-cases, inl, inr, arith, append_assoc, some,
}
use qrmi.Text.{Text, codes, eq_text}
use qrmi.Settings.{Env}
use qrmi.Ibm.Providers.{Environment, value_of, set_var, inject_backend_env}

eq_text-append : (p a b : Text) → eq_text (p ++ a) (p ++ b) ≡ eq_text a b
unfolding eq_text
eq_text-append [] a b = refl
eq_text-append (c ∷ p) a b = ground (arith, eq_text-append p a b)

-- Where the map has the key, the environment has its value under the backend's name; elsewhere it is
-- as it was.
pub inject_backend_env_lem :
    (name : Text) (environment : Environment) (env : Env) (key : Text)
    → inject_backend_env name environment env (name ++ (codes "_" ++ key))
      ≡ or_option (value_of environment key) (env (name ++ (codes "_" ++ key)))
unfolding inject_backend_env value_of set_var
inject_backend_env_lem name [] env key = refl
inject_backend_env_lem name ((k, v) ∷ rest) env key =
    let e : eq_text (name ++ (codes "_" ++ k)) (name ++ (codes "_" ++ key)) ≡ eq_text k key =
      eq_text-append name (codes "_" ++ k) (codes "_" ++ key) ∙ eq_text-append (codes "_") k key in
    elim (Bool-cases (eq_text k key)) [
      | inl h ↦ rw (e, h)
      | inr h ↦ rw (e, h) (inject_backend_env_lem name rest env key)
    ]

-- So a setting of the map is found where a resource of that name looks for it.
pub inject_backend_env-found :
    (name : Text) (environment : Environment) (env : Env) (key value : Text)
    → value_of environment key ≡ some value
    → inject_backend_env name environment env ((name ++ codes "_") ++ key) ≡ some value
inject_backend_env-found name environment env key value h =
    rw (append_assoc name (codes "_") key) (inject_backend_env_lem name environment env key ∙ rw h)
