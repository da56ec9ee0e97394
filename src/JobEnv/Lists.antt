-- ===== src/JobEnv/Lists.antt =====
-- The QPUs of a job, name by name and type by type (src/common/job_env.rs).
use qrmi.Prelude.{
  ◌≡◌, ◌≢◌, refl, ◌∙◌, ap, Option, none, some, List, [], ◌∷◌, or_option, length, arith,
}
use qrmi.Text.{Text, join}
use qrmi.Text.Laws.{join-split}
use qrmi.Result.{ok, step-ok}
use qrmi.Settings.{Env}
use qrmi.JobEnv.{
  paired, list_of, job_env_list, get_job_qpu_resources_and_types, delimiter, split, resources_name,
  resources_legacy, types_name, types_legacy,
}

-- `items` are the pieces of the value that `name`, or else `legacy_name`, has.
pub record Holds (env : Env) (name legacy_name : Text) (items : List Text) : Type 0 where
  pub value : Text
  pub set : or_option (env name) (env legacy_name) ≡ some value
  pub joined : join (delimiter env) items ≡ value

list_of-join :
    (env : Env) (name : Text) (o : Option Text) (items : List Text)
    → delimiter env ≢ []
    → list_of env o name ≡ ok items
    → (value : Text) × (o ≡ some value) × (join (delimiter env) items ≡ value)
unfolding join
list_of-join env name none items d h = cc
list_of-join env name (some []) items d h = let e : [] ≡ items = cc in ([], refl, rw (← e))
list_of-join env name (some (c ∷ v)) items d h =
    let e : split (delimiter env) (c ∷ v) ≡ items = cc in
    (c ∷ v, refl, rw (← e) (join-split (delimiter env) (c ∷ v) d))

job_env_list-Holds :
    (env : Env) (name legacy_name : Text) (items : List Text)
    → delimiter env ≢ []
    → job_env_list env name legacy_name ≡ ok items
    → Holds env name legacy_name items
unfolding job_env_list
job_env_list-Holds env name legacy_name items d h =
    let (v, s, j) = list_of-join env name (or_option (env name) (env legacy_name)) items d h in
    record { value = v; set = s; joined = j }

paired-eq-ok :
    (qpus qpu_types qs ts : List Text)
    → paired qpus qpu_types ≡ ok (qs, ts)
    → (qpus ≡ qs) × (qpu_types ≡ ts) × (length qs ≡ length ts)
paired-eq-ok qpus qpu_types qs ts h = ground arith

-- With a delimiter that is not empty, the names and the types that the program reads are as many,
-- and joined by the delimiter they are the values of the variables, each under its new name or else
-- its legacy one.
get_job_qpu_resources_and_types-Holds :
    (env : Env) (qpus qpu_types : List Text)
    → delimiter env ≢ []
    → get_job_qpu_resources_and_types env ≡ ok (qpus, qpu_types)
    → (length qpus ≡ length qpu_types)
      × Holds env resources_name resources_legacy qpus
      × Holds env types_name types_legacy qpu_types
unfolding get_job_qpu_resources_and_types
get_job_qpu_resources_and_types-Holds env qpus qpu_types d h =
    let (qs, eq, h') =
      step-ok (qpus, qpu_types) _ (job_env_list env resources_name resources_legacy) h in
    let (ts, et, h'') = step-ok (qpus, qpu_types) _ (job_env_list env types_name types_legacy) h' in
    let (e, f, g) = paired-eq-ok qs ts qpus qpu_types h'' in
    (
      g,
      job_env_list-Holds env resources_name resources_legacy qpus d (eq ∙ ap ok e),
      job_env_list-Holds env types_name types_legacy qpu_types d (et ∙ ap ok f),
    )
