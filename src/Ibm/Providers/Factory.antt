-- ===== src/Ibm/Providers/Factory.antt =====
-- `create_provider` (src/resource_provider.rs).
use qrmi.Prelude.{Bool, Option}
use qrmi.Text.{Text}
use qrmi.Result.{Result, ok, err, ◌>>=◌}
use qrmi.Errors.{QrmiError}
use qrmi.Models.{
  ResourceType, ibm_quantum_system, qiskit_runtime_service, ibm_quantum_compute_service,
}
use qrmi.Models.Names.{as_str}
use qrmi.Ibm.Filter.{BackendConfiguration}
use qrmi.Ibm.Compute.Tasks.{runtime, compute}
use qrmi.Ibm.System.Api.{SystemApi}
use qrmi.Ibm.Providers.{Environment}
use qrmi.Ibm.Providers.Compute
use qrmi.Ibm.Providers.System

-- `Box<dyn ResourceProvider>`.
pub data AnyProvider (Client : Type 0) : Type 0 where
  runtime_provider compute_provider : Compute.Provider → AnyProvider Client
  system_provider : System.Provider Client → AnyProvider Client

module _ {V Client Value Pattern : Type 0} (api : SystemApi V Client Value)
    (glob : Text → Result Text Pattern) (matches : Pattern → Text → Bool)
    (read : Value → Option BackendConfiguration) where
  unfoldable pub create_provider :
      ResourceType → Environment → Result QrmiError (AnyProvider Client)
  unfolding Compute.new System.new as_str
  create_provider qiskit_runtime_service environment = do
    p ← Compute.new runtime environment
    ok (runtime_provider p)
  create_provider ibm_quantum_system environment = do
    p ← System.new api glob matches read environment
    ok (system_provider p)
  create_provider ibm_quantum_compute_service environment = do
    p ← Compute.new compute environment
    ok (compute_provider p)
  create_provider resource_type environment =
      err (QrmiError.unsupported_resource_type (as_str resource_type))
