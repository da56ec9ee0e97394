-- ===== src/Tests/Providers.antt =====
-- The theorems on the providers of IBM in a small world.
use qrmi.Prelude.{◌≡◌, refl, Option, none, some, List, [], ◌∷◌, false, Bool, map, ℕ}
use qrmi.Prelude.Int.{pos}
use qrmi.Text.{Text, codes, eq_text}
use qrmi.Result.{Result, ok}
use qrmi.Exec.{return}
use qrmi.Settings.{Env}
use qrmi.Ibm.Api.{Api, ApiError, Device, DeviceName}
use qrmi.Ibm.Filter.{BackendFilter, BackendConfiguration, StatusFilter, parse_compute, parse_system}
use qrmi.Ibm.Compute.State.{Service, check_token}
use qrmi.Ibm.Compute.Tasks.{compute}
use qrmi.Ibm.Providers.{Environment}
use qrmi.Ibm.Providers.Compute.{new, resources, least_busy, with_bearer}
use qrmi.Ibm.Providers.Compute.Listing.{IsListing, qualifies}
use qrmi.Ibm.Providers.Compute.LeastBusy.{
  IsAnswered, LeastBusy, resources-IsListing, least_busy-LeastBusy,
}
use qrmi.Tests.Cloud.{Cloud, world}
use qrmi.Ibm.System.Api.{SystemError, ListedBackend, SystemApi, BackendStatus}
use qrmi.Ibm.Providers.System.Listing.{resources-Made, Made}
use qrmi.Prelude.Sort.{filter}
use qrmi.Ibm.System.{System as QuantumSystem}
use qrmi.Ibm.Providers.Compute
use qrmi.Tests.Cloud
use qrmi.Tests.Systems
use qrmi.Ibm.Providers.System

abbrev device : Text → Text → Device
device name _ = record {
  name = name;
  status = DeviceName.online;
  reason = none;
  queue_length = pos 7;
  is_simulator = none;
}

abbrev devices : List Device
devices =
    device (codes "kyiv") [] ∷ record (device (codes "torino") []) { queue_length = pos 2 } ∷ []

abbrev api : Api Cloud Text Text Text
api = record Cloud.api { list_backends = λ c version. return (some devices) }

-- A pattern is the name itself, and every backend has 127 qubits.
abbrev glob : Text → Result Text Text
glob p = ok p

abbrev matches : Text → Text → Bool
matches = eq_text

abbrev read : Text → Option BackendConfiguration
read document = some (record { n_qubits = 127; max_shots = 1000; simulator = false })

abbrev environment : Environment
environment =
    (codes "QRMI_IBM_QCS_ENDPOINT", codes "e")
    ∷ (codes "QRMI_IBM_QCS_IAM_ENDPOINT", codes "i")
    ∷ (codes "QRMI_IBM_QCS_IAM_APIKEY", codes "a")
    ∷ (codes "QRMI_IBM_QCS_SERVICE_CRN", codes "c")
    ∷ []

abbrev provider : Compute.Provider
provider = record {
  base_path = codes "e";
  crn = codes "c";
  api_key = codes "a";
  iam_endpoint = codes "i";
  provider_env = environment;
}

abbrev filters : Option Text
filters = some (codes "num_qubits=100&status=online")

abbrev asked : BackendFilter Text
asked = record {
  num_qubits = some 100;
  max_shots = none;
  name_pattern = none;
  is_simulator = false;
  status = StatusFilter.online;
}

abbrev status : Text → Result ApiError (Option Text)
status name = ok (some (codes "active"))

abbrev document : Text → Result ApiError Text
document name = ok (codes "{}")

abbrev env : Env
env key = none

provider_new : new compute environment ≡ ok provider
unfolding new
provider_new = refl

answered :
    IsAnswered api glob matches read compute provider filters env world status document asked
      (some devices)
unfolding check_token parse_compute
answered = record {
  environment = environment;
  provider = provider_new;
  parsed = refl;
  token = record { bearer = some (codes "bearer"); expiration = 4600; lifetime = 3600 };
  before = world;
  renewed = refl;
  after = world;
  listing = refl;
  steady = record { statuses = λ name v. refl; documents = λ name v. refl };
}

resources-IsListing_example :
    (services : List Service) × (s : Env × Cloud) × (resources api glob matches read compute
        provider filters
        (env, world)
      ≡ (ok services, s))
    × IsListing api glob matches read status document provider asked devices services
resources-IsListing_example =
    resources-IsListing api glob matches read compute provider filters env world status document
      asked (some devices) answered

least_busy-LeastBusy_example :
    (o : Option Service) × (s : Env × Cloud) × (least_busy api glob matches read compute provider
        filters
        (env, world)
      ≡ (ok o, s))
    × LeastBusy (qualifies api glob matches read status document asked) provider devices o
least_busy-LeastBusy_example =
    least_busy-LeastBusy api glob matches read compute provider filters env world status document
      asked (some devices) answered

abbrev backends : List ListedBackend
backends =
    record { name = codes "kyiv"; status = BackendStatus.offline }
    ∷ record { name = codes "torino"; status = BackendStatus.online }
    ∷ []

abbrev system_api : SystemApi ℕ Text Text
system_api = record Systems.api { list_backends = λ c. return backends }

abbrev system_environment : Environment
system_environment =
    (codes "QRMI_IBM_QS_ENDPOINT", codes "e")
    ∷ (codes "QRMI_IBM_QS_IAM_ENDPOINT", codes "i")
    ∷ (codes "QRMI_IBM_QS_IAM_APIKEY", codes "a")
    ∷ (codes "QRMI_IBM_QS_SERVICE_CRN", codes "c")
    ∷ []

abbrev system_provider : System.Provider Text
system_provider = record { client = codes "client"; provider_env = system_environment }

system_new : System.new system_api glob matches read system_environment ≡ ok system_provider
unfolding System.new
system_new = refl

abbrev system_document : Text → Result SystemError Text
system_document name = ok (codes "{}")

system_parsed : parse_system glob (codes "num_qubits=100&status=online") ≡ ok asked
unfolding parse_system
system_parsed = refl

resources-Made_example :
    (systems : List (QuantumSystem Text)) × (s : Env × ℕ) × (System.resources system_api glob
        matches read system_provider filters
        (env, 0)
      ≡ (ok systems, s))
    × Made system_api system_environment systems (
        map
          (λ (b : ListedBackend). b.name)
          (filter
            (System.Listing.qualifies system_api glob matches read system_document asked)
            backends))
resources-Made_example =
    resources-Made system_api glob matches read system_document system_environment system_provider
      filters asked backends env 0 0 system_new system_parsed refl (λ name w. refl)
