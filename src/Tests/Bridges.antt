-- ===== src/Tests/Bridges.antt =====
-- The theorem on OQTOPUS in a world of the submitted job specifications.
use qrmi.Prelude.{List, [], ◌∷◌, some}
use qrmi.Text.{Text, codes}
use qrmi.Result.{err}
use qrmi.Models.{Payload}
use qrmi.Json.{string, object, end, field, Codec}
use qrmi.Oqtopus.Config.{Library}
use qrmi.Oqtopus.Tasks.{Oqtopus, Bridge, gave, task_start}
use qrmi.Oqtopus.Promises.{Asked, task_start-Asked}

abbrev codec : Codec
codec = record {
  from_str = λ t. some (
      object
        (field (codes "device_id") (string (codes "mine")) (field (codes "name") (string t) end)));
  parse_error = λ t. codes "no JSON";
  to_string = λ v. codes "a job";
}

abbrev lib : Library
lib = record {
  codec = codec;
  f64_value = λ t. err (codes "no float");
  int_error = λ t. codes "no integer";
  nul_error = λ t. codes "a nul";
  to_uppercase = λ t. t;
}

abbrev bridge : Bridge (List Text)
bridge = record {
  call = λ op arg config jobs. (gave (codes "j1"), arg ∷ jobs);
  device = λ t. err (codes "no device");
}

abbrev oqtopus : Oqtopus
oqtopus = record { device_id = codes "qulacs"; config_json = codes "{}" }

task_start-Asked_example :
    Asked lib bridge oqtopus []
      (Payload.oqtopus (codes "bell"))
      (task_start lib bridge oqtopus (Payload.oqtopus (codes "bell")) [])
task_start-Asked_example = task_start-Asked lib bridge oqtopus [] (Payload.oqtopus (codes "bell"))
