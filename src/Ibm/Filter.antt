-- ===== src/Ibm/Filter.antt =====
-- The filters of a provider's `resources` (src/ibm/*_provider/provider_filter.rs): `key=value`
-- pairs joined by `&`. The three files differ in the width of `num_qubits` and in the tests that
-- they make before a backend's configuration is fetched.
pub mod Meaning
pub mod Written
use qrmi.Prelude.{
  ℕ, Bool, true, false, not, Option, none, some, List, [], ◌∷◌, is_empty, ltb, if◌then◌else◌,
  unwrap_or, ◌||◌,
}
use qrmi.Text.{
  Text, codes, eq_text, trim, split, split_once, parse_u32, parse_u64, to_ascii_lowercase,
}
use qrmi.Result.{Result, ok, err, ◌>>=◌, ok_or, map_err}
use qrmi.Errors.{QrmiError, Message, text, debug}

pub data StatusFilter : Type 0 where
  any online : StatusFilter

-- `Pattern` is the type of the compiled glob patterns of the crate `glob`.
pub record BackendFilter (Pattern : Type 0) : Type 0 where
  pub num_qubits : Option ℕ
  pub max_shots : Option ℕ
  pub name_pattern : Option Pattern
  pub is_simulator : Bool
  pub status : StatusFilter

-- What `matches_config` reads of a configuration (src/ibm/models/backend_configuration.rs).
pub record BackendConfiguration : Type 0 where
  pub n_qubits : ℕ
  pub max_shots : ℕ
  pub simulator : Bool

abbrev pub default : {Pattern : Type 0} → BackendFilter Pattern
default = record {
  num_qubits = none;
  max_shots = none;
  name_pattern = none;
  is_simulator = false;
  status = any;
}

abbrev pub invalid : Text → Text → Text → QrmiError
invalid before value after = QrmiError.invalid_input (text before ∷ debug value ∷ text after ∷ [])

abbrev pub not_a_number : Text → Text → QrmiError
not_a_number key value = QrmiError.invalid_input (
    text (codes "invalid value for filter '")
    ∷ text key
    ∷ text (codes "': ")
    ∷ debug value
    ∷ text (codes " (expected a non-negative integer)")
    ∷ [])

unfoldable pub parse_bool : Text → Result QrmiError Bool
unfolding eq_text trim
parse_bool value =
    if eq_text (trim value) (codes "true")
    then ok true
    else if eq_text (trim value) (codes "false")
    then ok false
    else err (
        invalid (codes "invalid value for filter 'is_simulator': ") value
          (codes " (expected 'true' or 'false')"))

unfoldable pub parse_status : Text → Result QrmiError StatusFilter
unfolding eq_text trim
parse_status value =
    if eq_text (trim value) (codes "online")
    then ok online
    else err (
        invalid (codes "invalid value for filter 'status': ") value
          (codes " (supported: 'online')"))

-- `new` is `glob::Pattern::new`, with the message of its error, and `width` the parser of the
-- integer type of `num_qubits`.
module _ {Pattern : Type 0} (new : Text → Result Text Pattern) (width : Text → Option ℕ) where
  -- The `match` on the key; an unknown key is passed over.
  unfoldable pub set_key :
      Text → Text → BackendFilter Pattern → Result QrmiError (BackendFilter Pattern)
  unfolding eq_text parse_bool parse_status trim
  set_key key value f =
      if eq_text key (codes "num_qubits")
      then (do
        n ← ok_or (width (trim value)) (not_a_number (codes "num_qubits") value)
        ok (record f { num_qubits = some n }))
      else if eq_text key (codes "max_shots")
      then (do
        n ← ok_or (parse_u64 (trim value)) (not_a_number (codes "max_shots") value)
        ok (record f { max_shots = some n }))
      else if eq_text key (codes "name")
      then (do
        p ←
            map_err (invalid (codes "invalid glob pattern for 'name' filter ") value)
              (new (trim value))
        ok (record f { name_pattern = some p }))
      else if eq_text key (codes "is_simulator")
      then (do b ← parse_bool value; ok (record f { is_simulator = b }))
      else if eq_text key (codes "status")
      then (do s ← parse_status value; ok (record f { status = s }))
      else ok f

  abbrev pub set_pair :
      BackendFilter Pattern → Text → Option (Text × Text) → Result QrmiError (BackendFilter Pattern)
  set_pair f pair none =
      err (invalid (codes "invalid filter segment ") pair (codes ": expected 'key=value'"))
  set_pair f pair (some (key, value)) = set_key (trim key) value f

  abbrev pub parse_trimmed : BackendFilter Pattern → Text → Result QrmiError (BackendFilter Pattern)
  parse_trimmed f pair = if is_empty pair then ok f else set_pair f pair (split_once b'=' pair)

  -- The loop over the segments.
  unfoldable pub parse_pairs :
      BackendFilter Pattern → List Text → Result QrmiError (BackendFilter Pattern)
  unfolding set_key split_once
  parse_pairs f [] = ok f
  parse_pairs f (pair ∷ rest) = do g ← parse_trimmed f (trim pair); parse_pairs g rest

  unfoldable pub parse_from :
      BackendFilter Pattern → Text → Result QrmiError (BackendFilter Pattern)
  unfolding parse_pairs split
  parse_from f filters = parse_pairs f (split (codes "&") filters)

-- `BackendFilter::parse` of the provider of IBM Quantum System, and of those of Qiskit Runtime
-- Service and of Quantum Compute Service.
module _ {Pattern : Type 0} (new : Text → Result Text Pattern) where
  unfoldable pub parse_system : Text → Result QrmiError (BackendFilter Pattern)
  unfolding parse_from parse_u64
  parse_system filters = parse_from new parse_u64 default filters

  unfoldable pub parse_runtime : Text → Result QrmiError (BackendFilter Pattern)
  unfolding parse_from parse_u32
  parse_runtime filters = parse_from new parse_u32 default filters

  unfoldable pub parse_compute : Text → Result QrmiError (BackendFilter Pattern)
  unfolding parse_from parse_u32
  parse_compute filters = parse_from new parse_u32 default filters

-- `matches` is `glob::Pattern::matches`.
unfoldable pub matches_name :
    {Pattern : Type 0} → (Pattern → Text → Bool) → BackendFilter Pattern → Text → Bool
matches_name matches f name = elim f.name_pattern [ none ↦ true | some p ↦ matches p name ]

-- `config.simulator != self.is_simulator`.
abbrev pub differs : Bool → Bool → Bool
differs true b = not b
differs false b = b

abbrev pub too_few : Option ℕ → ℕ → Bool
too_few none n = false
too_few (some min) n = ltb n min

unfoldable pub matches_config :
    {Pattern : Type 0} → BackendFilter Pattern → BackendConfiguration → Bool
matches_config f config =
    if differs config.simulator f.is_simulator
    then false
    else if too_few f.num_qubits config.n_qubits
    then false
    else if too_few f.max_shots config.max_shots
    then false
    else true

-- `matches_device`, on the field `is_simulator` of a device.
unfoldable pub matches_device : {Pattern : Type 0} → BackendFilter Pattern → Option Bool → Bool
matches_device f is_simulator = not (differs (unwrap_or is_simulator false) f.is_simulator)

abbrev pub is_online_filter : StatusFilter → Bool
is_online_filter any = false
is_online_filter online = true

unfoldable pub needs_status_check : {Pattern : Type 0} → BackendFilter Pattern → Bool
needs_status_check f = is_online_filter f.status

-- Of the chars that `to_lowercase` changes and `to_ascii_lowercase` does not, none has a letter of
-- `active` or `online` as its lower case.
unfoldable pub is_online_status : Text → Bool
unfolding to_ascii_lowercase eq_text
is_online_status status =
    let lower = to_ascii_lowercase status in
    eq_text lower (codes "active") || eq_text lower (codes "online")

-- `matches_status`, on whether the backend is listed as online.
unfoldable pub matches_status : {Pattern : Type 0} → BackendFilter Pattern → Bool → Bool
matches_status f is_online = not (is_online_filter f.status) || is_online
