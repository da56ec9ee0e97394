-- ===== src/Tests/Choices.antt =====
-- The filters of the IBM providers, and the environment of a job.
use qrmi.Prelude.{arith, ◌≡◌, refl, none, some, List, [], ◌∷◌, if◌then◌else◌}
use qrmi.Text.{Text, codes, eq_text, parse_u32, trim}
use qrmi.Result.{Result, ok}
use qrmi.Ibm.Filter.{default, parse_from}
use qrmi.Ibm.Filter.Written.{Written, then_pair, last_pair, num_qubits, parse_from-Written}
use qrmi.Settings.{Env}
use qrmi.JobEnv.{get_job_qpu_resources_and_types}

abbrev compiled : Text → Result Text Text
compiled pattern = ok pattern

-- The second number of qubits is the one that counts.
twice :
    Written compiled parse_u32
      (codes "num_qubits=5&num_qubits= 7")
      (λ f. record f { num_qubits = some 7 })
unfolding parse_u32 trim
twice =
    then_pair (codes "num_qubits=5") (λ f. record f { num_qubits = some 5 }) (codes "num_qubits= 7")
      (λ f. record f { num_qubits = some 7 }) (num_qubits (codes "5") 5 refl) (ground arith) refl
      (last_pair (codes "num_qubits= 7") (λ f. record f { num_qubits = some 7 })
        (num_qubits (codes " 7") 7 refl) (ground arith) refl)

parse_from-Written_example :
    parse_from compiled parse_u32 default (codes "num_qubits=5&num_qubits= 7")
    ≡ ok (record default { num_qubits = some 7 })
parse_from-Written_example = parse_from-Written compiled parse_u32 twice default

abbrev job_env : Env
job_env key =
    if eq_text key (codes "SLURM_JOB_QPU_RESOURCES")
    then some (codes "q1,q2")
    else if eq_text key (codes "QRMI_JOB_QPU_TYPES")
    then some (codes "oqtopus,iqm-server")
    else none

abbrev names : List Text
names = codes "q1" ∷ codes "q2" ∷ []

abbrev types : List Text
types = codes "oqtopus" ∷ codes "iqm-server" ∷ []

read-job_env : get_job_qpu_resources_and_types job_env ≡ ok (names, types)
unfolding get_job_qpu_resources_and_types eq_text
read-job_env = refl
