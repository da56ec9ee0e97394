-- ===== src/JobEnv.antt =====
-- The QPUs that the job was given (src/common/job_env.rs).
pub mod Lists
use qrmi.Prelude.{
  Option, none, some, List, [], ◌∷◌, Bool, true, false, not, or_option, unwrap_or, length, is_empty,
  ◌==◌, if◌then◌else◌,
}
use qrmi.Text.{Text, codes, split}
use qrmi.Result.{Result, ok, err, ◌>>=◌}
use qrmi.Errors.{QrmiError, text, debug_list}
use qrmi.Settings.{Env}

abbrev pub delimiter : Env → Text
delimiter env = unwrap_or (env (codes "QRMI_LIST_DELIMITER")) (codes ",")

abbrev pub list_of : Env → Option Text → Text → Result QrmiError (List Text)
list_of env none name = err (QrmiError.env_var_not_set name)
list_of env (some values) name =
    if is_empty values then ok [] else ok (split (delimiter env) values)

-- `name`, or else `legacy_name`, split at the delimiter that the environment names.
unfoldable pub job_env_list : Env → Text → Text → Result QrmiError (List Text)
unfolding split
job_env_list env name legacy_name = list_of env (or_option (env name) (env legacy_name)) name

abbrev pub resources_name : Text
resources_name = codes "QRMI_JOB_QPU_RESOURCES"

abbrev pub resources_legacy : Text
resources_legacy = codes "SLURM_JOB_QPU_RESOURCES"

abbrev pub types_name : Text
types_name = codes "QRMI_JOB_QPU_TYPES"

abbrev pub types_legacy : Text
types_legacy = codes "SLURM_JOB_QPU_TYPES"

abbrev pub paired : List Text → List Text → Result QrmiError (List Text × List Text)
paired qpus qpu_types =
    if not (length qpus == length qpu_types)
    then err (
        QrmiError.invalid_config (
          text (codes "inconsistent number of QPU resources and types: ")
          ∷ debug_list qpus
          ∷ text (codes " vs ")
          ∷ debug_list qpu_types
          ∷ []))
    else ok (qpus, qpu_types)

unfoldable pub get_job_qpu_resources_and_types : Env → Result QrmiError (List Text × List Text)
unfolding job_env_list
get_job_qpu_resources_and_types env = do
  qpus ← job_env_list env resources_name resources_legacy
  qpu_types ← job_env_list env types_name types_legacy
  paired qpus qpu_types
