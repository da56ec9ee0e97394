-- ===== src/Lib.antt =====
-- QRMI, the Quantum Resource Management Interface: one interface to the quantum computers of several
-- vendors, for jobs of a cluster. This library models its core in Rust.
--
-- The parts, and the files that model them:
--   * Models, Models/Names: the data that all resources share (src/models/).
--   * Errors, Errors/Kinds: the error type, its kinds, and the return codes of the C binding
--     (src/error.rs, src/ibm/error.rs, src/pasqal/error.rs, src/cext.rs).
--   * Resource: the trait `QuantumResource` (src/lib.rs), a record of methods over a state `W` that
--     stands for the resource and the service behind it.
--   * Runner: `run_task` of the command line tool (src/bin/task_runner.rs), which drives any such
--     resource. Runner/Calls and Runner/Trace are about its calls, Runner/Total about its end, and
--     Runner/Choice is `find_qpu_type`. Runner/Input is what it makes of its input file, over the JSON
--     library of Json; Accepted and Submitted there are about the files for Maestro.
--   * Settings, JobEnv: where settings come from (src/common/config.rs, src/common/job_env.rs). The
--     environment of the process is a function.
--   * Pasqal: the configuration file of Pasqal Cloud, the expansion of paths, and what overrides the
--     file's values (src/pasqal/cloud_config.rs).
--   * Pasqal/Client: the client of the Pasqal Cloud API (dependencies/pasqal_cloud_client). The file has
--     the tokens (src/auth/auth.rs there), Requests the requests, Auth and Header are about the token
--     that it holds.
--   * Pasqal/Cloud: the resource of Pasqal Cloud (src/pasqal/cloud.rs) over that client. Build makes it
--     from a configuration, Tasks has its methods; Promises and Reach are about them.
--   * Pasqal/Local: the resource of Pasqal Local (src/pasqal/local.rs); Pasqal/Local/Client is the client
--     of its middleware (dependencies/pasqal_local_client/src/client.rs).
--   * AliceBob: the resource of Alice & Bob Felis (src/alice_bob/), over the generated client as an
--     interface. AliceBob/Names has the names of targets and devices.
--   * Service: `QRMIService` and the choice of a constructor by the type of a resource
--     (src/service.rs, src/common/create_resource.rs), over the resources' constructors as an
--     interface. Service/Discovery is about the resources that it offers.
--   * Ibm/Filter: the filters of the IBM providers (src/ibm/*_provider/provider_filter.rs). Written there
--     is about what each key sets, Meaning about what a filter selects.
--   * Ibm/Api: the client of the Qiskit Runtime Service and of the Quantum Compute Service, an
--     interface over a world `V`, and `classify` (src/ibm/error.rs).
--   * Ibm/Compute: the two services (src/ibm/quantum_compute_service.rs and
--     src/ibm/qiskit_runtime_service.rs, which hold the same code but for the settings' names, the
--     program `executor` and `status`). State has the fields, the token and its check
--     (dependencies/quantum_compute_client/src/apis/auth.rs), Settings `from_opt`, Sessions
--     `acquire` and `release`, Tasks the tasks, Paging `has_dedicated_active_session`, Status
--     `status` and the two records of methods.
--   * Ibm/System: IBM Quantum System (src/ibm/quantum_system.rs), over a client in Ibm/System/Api.
--     Ibm/System/Http is the access token of that client and how it explains an answer
--     (dependencies/quantum_system_client/src/middleware/auth.rs and error.rs), and Retry there the
--     sending again of a request (middleware/retry.rs), on fuel for the retries of the policy.
--   * Ibm/Providers: the providers (src/ibm/*_provider/mod.rs). The file has the map of settings, the
--     environment of the process as a state, and the joining of requests; Compute is the provider of
--     the two services, System that of IBM Quantum System, Factory `create_provider`
--     (src/resource_provider.rs). Listing and LeastBusy are about what they return.
--   * Iqm: the resource of IQM Server (src/iqm/), over its client as an interface. The file has how it is
--     built and how it explains errors, Iqm/Status the state of the computer, Iqm/Tasks the tasks and
--     the target.
--   * Maestro: Socket, Session and Request are the client of the Maestro server
--     (dependencies/maestro_rust_library/src), whose socket and JSON library are interfaces;
--     Session/Lines is about the lines that it sends. Maestro/Local is the resource of Maestro
--     Local (src/maestro/local.rs), Maestro/Local/Tasks its methods, and Submit there `task_start`.
--     Cache, Later, Ahead, Ends and Reach are about the tasks that it remembers as ended, Replies
--     and Refusal about its errors, Answers and Ids about the names that it gives.
--   * Oqtopus: the resource of OQTOPUS (src/oqtopus/lib.rs), over the loader of libraries and the
--     Python bridge as interfaces. Config is what it passes to the bridge, Tasks how it is built and its
--     methods, Promises what it submits.
--   * Json: a value of `serde_json`, and that library's parser and printer as an interface.
--   * Tests: small worlds and inputs at which the theorems are applied.
--   * Text, Result, Exec, Prelude: texts as lists of chars with the functions of `str` that the code
--     uses, `Result`, and computations that change a state and may fail.
--
-- A text is the list of its code points. A machine integer is a natural number, and a parser of one
-- returns nothing out of range. `Exec S E A` is a function from a state to a result and the new
-- state, which an error keeps.
--
-- The loop of `run_task` has no bound of its own, so it runs on fuel and returns `none` when that is
-- used up; a measure of the world says how long the task may run, and the fuel is to be above it. The
-- loop over the pages of `has_dedicated_active_session` has fuel for the pages at all offsets up to
-- the largest. The other loops go down a list.
--
-- Requests that the code sends at once and joins are sent one after the other, in the order of the
-- code. A `HashMap` is a list of entries of which the first with a key counts.
--
-- Not modelled: the HTTP clients of the other services (dependencies/) and the requests of the
-- client of IBM Quantum System but for their token, which are parameters; the marshalling of the C
-- and Python bindings; logging; the reading of files; the Python bridge of OQTOPUS; the keepalive and
-- the parsed results of the Maestro client, which the resource does not call.
mod Prelude
pub mod Text
pub mod Result
pub mod Exec
pub mod Models
pub mod Errors
pub mod Resource
pub mod Runner
pub mod Service
pub mod Settings
pub mod JobEnv
pub mod Pasqal
pub mod AliceBob
pub mod Ibm
pub mod Iqm
pub mod Json
pub mod Maestro
pub mod Oqtopus
mod Tests
