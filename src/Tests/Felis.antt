-- ===== src/Tests/Felis.antt =====
-- The theorems on Alice & Bob Felis at a target's name and in a small world.
use qrmi.Prelude.{◌≡◌, refl, List, [], ◌∷◌, arith}
use qrmi.Text.{Text, codes, to_ascii_lowercase, to_ascii_uppercase}
use qrmi.Result.{ok, err}
use qrmi.Models.{Payload}
use qrmi.AliceBob.{Api, AliceBobFelis, task_start, ApiError}
use qrmi.AliceBob.Names.{
  IsAscii, target_to_device, device_to_target, device_to_target-target_to_device,
}
use qrmi.AliceBob.Promises.{IsService}
use qrmi.AliceBob.Promises

device_to_target-target_to_device_example :
    device_to_target to_ascii_uppercase
      (target_to_device to_ascii_lowercase (codes "EMU:40Q:PHYSICAL_CATS"))
    ≡ codes "EMU:40Q:PHYSICAL_CATS"
device_to_target-target_to_device_example =
    device_to_target-target_to_device to_ascii_lowercase to_ascii_uppercase (λ s a. refl)
      (λ s a. refl) (codes "EMU") (codes "40Q") (codes "PHYSICAL_CATS")
      (unfold IsAscii in ground arith) (unfold IsAscii in ground arith)
      (unfold IsAscii in ground arith) (refl, (refl, (refl, tt))) (refl, (refl, (refl, tt)))
      (refl, (refl, (refl, tt))) (refl, (refl, (refl, tt)))
      (
        refl,
        (
          refl,
          (
            refl,
            (refl, (refl, (refl, (refl, (refl, (refl, (refl, (refl, (refl, (refl, tt)))))))))),
          ),
        ),
      )
      (unfold to_ascii_uppercase in unfold to_ascii_lowercase in refl)
      (unfold to_ascii_uppercase in unfold to_ascii_lowercase in refl)
      (unfold to_ascii_uppercase in unfold to_ascii_lowercase in refl)

-- The world is the list of the jobs, and the upload of an input always fails.
abbrev api : Api (List Text) Text Text
api = record {
  to_lowercase = to_ascii_lowercase;
  to_uppercase = to_ascii_uppercase;
  decode_api_key = λ key. ok key;
  from_str = λ t. ok t;
  list_targets = λ c v. (ok [], v);
  create_job = λ c t p v. (ok (codes "j1"), codes "j1" ∷ v);
  upload_input = λ c id i v. (err (ApiError.response_error 422 (codes "no")), v);
  get_job = λ c id v. (ok [], v);
  cancel_job = λ c id v. (ok tt, v);
  download_output = λ c id v. (ok (codes "0,1"), v);
}

abbrev felis : AliceBobFelis Text
felis = record {
  config = record { base_path = codes "https://felis"; basic_auth = codes "u:p" };
  backend_name = codes "ab_emu_40q_physical_cats";
  felis_target = codes "EMU:40Q:PHYSICAL_CATS";
}

service : IsService api felis (λ v. v)
service = record {
  created = λ p id v v' h. ground arith;
  refused = λ p e v v' h n. cc;
  keeps = λ id i v. refl;
}

task_start_creates_example :
    Promises.Started api felis
      (λ v. v)
      service
      []
      (task_start api felis (Payload.alice_bob_felis (codes "q") (codes "{}")) [])
task_start_creates_example =
    Promises.task_start_creates api felis (λ v. v) service []
      (Payload.alice_bob_felis (codes "q") (codes "{}"))
