-- ===== src/Tests/Inputs.antt =====
-- The theorems on input files for Maestro at small documents, with a JSON library that reads what it
-- prints of a request.
use qrmi.Prelude.{ℕ, true, false, some, none, []}
use qrmi.Text.{codes}
use qrmi.Result.{ok, err}
use qrmi.Models.{Payload}
use qrmi.Json.{Value, number, pos_int, string, object, end, field, Codec}
use qrmi.Maestro.Socket.{Socket}
use qrmi.Maestro.Request.{Json}
use qrmi.Maestro.Local.{MaestroLocal, fresh}
use qrmi.Runner.Input.{ResourceType, maestro_local}
use qrmi.Runner.Input.Submitted

-- A legacy job.
abbrev job : Value
job = object (
    field (codes "input") (string (codes "OPENQASM 2.0;")) (
      field (codes "job_type") (string (codes "Execute")) (
        field (codes "qubits") (number (pos_int 2)) (
          field (codes "simulator_type") (number (pos_int 1))
            (field (codes "simulation_method") (number (pos_int 0)) end)))))

abbrev schema_2 : Value
schema_2 = object (field (codes "schema_version") (number (pos_int 2)) end)

abbrev wrapped : Value
wrapped = object (field (codes "request") schema_2 end)

abbrev codec : Codec
codec = record {
  from_str = λ t. some schema_2;
  parse_error = λ t. codes "no JSON";
  to_string = λ v. codes "a request";
}

abbrev socket : Socket ℕ
socket = record {
  transfer = λ time bytes command n. (err (codes "refused"), n);
  socket_path = codes "/run/maestro.sock";
  debug = λ t. t;
}

-- Every document is a number, and every text a document.
abbrev json : Json ℕ
json = record {
  parse = λ t. ok 2;
  dump = λ n. codes "2";
  object = λ fields. 2;
  number = λ n. n;
  string = λ t. 2;
  member = λ n name. n;
  is_object = λ n. true;
  is_null = λ n. false;
  as_u32 = λ n. some n;
  as_u64 = λ n. some n;
  as_bool = λ n. some true;
  as_str = λ n. none;
}

abbrev start : MaestroLocal × ℕ
start = (fresh (codes "m") (codes "/run/maestro.sock") (some 9), 0)

abbrev taken_job : ResourceType
taken_job = maestro_local (codes "a request") (codes "request") 0 0 0 [] (codes "{}")

abbrev payload : Payload
payload = Payload.maestro_local (codes "a request") (codes "request") 0 0 0 [] (codes "{}")
