-- ===== src/Settings.antt =====
-- Where a setting comes from (src/common/config.rs): a config map if one is given, else the
-- environment of the process.
pub mod Order
use qrmi.Prelude.{Option, none, some, List, [], ◌∷◌, Bool, or_option, if◌then◌else◌}
use qrmi.Text.{Text, codes, eq_text, to_ascii_lowercase, join}
use qrmi.Result.{Result, ok_or}
use qrmi.Errors.{QrmiError}

-- `std::env::var(key).ok()`, and `map.get(key)`.
abbrev pub Env : Type 0
Env = Text → Option Text

abbrev pub Config : Type 0
Config = Text → Option Text

-- The keys that the program looks up in a map are ASCII, so `to_lowercase` is `to_ascii_lowercase`.
unfoldable pub resolve_opt : Env → Text → Option Config → Option Text
unfolding to_ascii_lowercase
resolve_opt env key (some config) = or_option (config key) (config (to_ascii_lowercase key))
resolve_opt env key none = env key

unfoldable pub not_found_error : Text → Option Config → QrmiError
not_found_error name (some config) = QrmiError.missing_config_key name
not_found_error name none = QrmiError.env_var_not_set name

unfoldable pub resolve_opt_required : Env → Text → Option Config → Result QrmiError Text
unfolding resolve_opt not_found_error
resolve_opt_required env key config =
    ok_or (resolve_opt env key config) (not_found_error key config)

abbrev pub in_place_of_head : Text → List Text → List Text
in_place_of_head k [] = k ∷ []
in_place_of_head k (j ∷ rest) = k ∷ rest

-- `Vec::dedup`: of equal neighbours the first stays.
unfoldable pub dedup : List Text → List Text
dedup [] = []
dedup (k ∷ []) = k ∷ []
dedup (k ∷ j ∷ ks) =
    let rest = dedup (j ∷ ks) in if eq_text k j then in_place_of_head k rest else k ∷ rest

-- `iter().find_map(|key| resolve_opt(key, config))`.
unfoldable pub find_setting : Env → Option Config → List Text → Option Text
find_setting env config [] = none
find_setting env config (k ∷ ks) = or_option (resolve_opt env k config) (find_setting env config ks)

unfoldable pub resolve_opt_required_any : Env → List Text → Option Config → Result QrmiError Text
unfolding dedup find_setting not_found_error join
resolve_opt_required_any env keys config =
    let keys = dedup keys in
    ok_or (find_setting env config keys) (not_found_error (join (codes " or ") keys) config)

unfoldable pub required_env : Env → Text → Result QrmiError Text
unfolding resolve_opt_required
required_env env name = resolve_opt_required env name none
