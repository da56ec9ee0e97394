-- ===== src/Oqtopus/Config.antt =====
-- The configuration that the resource of OQTOPUS (src/oqtopus/lib.rs) passes to its Python bridge.
use qrmi.Prelude.{
  ℕ, ◌==◌, Option, none, some, List, [], ◌∷◌, ◌++◌, any, map, is_empty, not, if◌then◌else◌,
}
use qrmi.Prelude.Sort.{filter}
use qrmi.Prelude.Int.{ℤ, pos, negsuc}
use qrmi.Text.{Text, codes, eq_text, split, trim, parse_u32, parse_i64}
use qrmi.Result.{Result, ok, err, ◌>>=◌}
use qrmi.Errors.{QrmiError, text}
use qrmi.Settings.{Config, Env}
use qrmi.Json.{
  Value, Items, nil, cons, Fields, end, field, Codec, string, number, pos_int, neg_int, array,
  object,
}

abbrev pub other : Text → QrmiError
other s = QrmiError.other (text s ∷ [])

-- Of the standard library and the JSON library: a 64-bit float as its JSON value, what they print of
-- an error, and `to_uppercase`.
pub record Library : Type 0 where
  pub codec : Codec
  pub f64_value : Text → Result Text Value
  pub int_error : Text → Text
  pub nul_error : Text → Text
  pub to_uppercase : Text → Text

-- `Map::insert` of the JSON library.
unfoldable pub insert : Text → Value → Fields → Fields
unfolding eq_text
insert name v end = field name v end
insert name v (field k w fields) =
    let rest = insert name v fields in if eq_text k name then field k v fields else field k w rest

abbrev pub insert_some : Text → Option Value → Fields → Fields
insert_some name none fields = fields
insert_some name (some v) fields = insert name v fields

unfoldable pub parse_value_list : Option Text → Option (List Text)
unfolding split trim
parse_value_list none = none
parse_value_list (some raw) =
    some (filter (λ s. not (is_empty s)) (map trim (split (codes ",") raw)))

abbrev pub items : List Value → Items
items [] = nil
items (v ∷ vs) = cons v (items vs)

abbrev pub int_value : ℤ → Value
int_value (pos n) = number (pos_int n)
int_value (negsuc n) = number (neg_int n)

module _ (lib : Library) where
  open lib use {codec, f64_value, int_error, nul_error, to_uppercase}

  abbrev pub value_or_error : Text → Result Text Value → Result QrmiError (Option Value)
  value_or_error name (ok v) = ok (some v)
  value_or_error name (err e) = err (other (codes "invalid value for " ++ name ++ codes ": " ++ e))

  -- `parse_value` at each of its two types.
  unfoldable pub parse_value :
      (Text → Result Text Value) → Option Text → Text → Result QrmiError (Option Value)
  unfolding trim
  parse_value parse none name = ok none
  parse_value parse (some raw) name = value_or_error name (parse (trim raw))

  abbrev pub u32_read : Text → Option ℕ → Result Text Value
  u32_read s none = err (int_error s)
  u32_read s (some n) = ok (number (pos_int n))

  abbrev pub u32_value : Text → Result Text Value
  u32_value s = u32_read s (parse_u32 s)

  abbrev pub code_read : Text → Text → Option ℤ → Result QrmiError Value
  code_read name s none =
      err (other (codes "invalid value in " ++ name ++ codes ": " ++ int_error s))
  code_read name s (some n) = ok (int_value n)

  unfoldable pub status_codes : Text → List Text → Result QrmiError Items
  unfolding parse_i64
  status_codes name [] = ok nil
  status_codes name (s ∷ ss) =
      code_read name s (parse_i64 s) >>= λ v. status_codes name ss >>= λ vs. ok (cons v vs)

  abbrev pub codes_value : Text → Option (List Text) → Result QrmiError (Option Value)
  codes_value name none = ok none
  codes_value name (some ss) = status_codes name ss >>= λ vs. ok (some (array vs))

  abbrev pub methods_value : Option (List Text) → Option Value
  methods_value none = none
  methods_value (some ss) = some (array (items (map (λ s. string (to_uppercase s)) ss)))

  abbrev pub text_value : Option Text → Option Value
  text_value none = none
  text_value (some s) = some (string s)

  abbrev pub key_name : Text → Option Config → Text → Text
  key_name device_id (some params) suffix = codes "QRMI_OQTOPUS_" ++ suffix
  key_name device_id none suffix = device_id ++ codes "_QRMI_OQTOPUS_" ++ suffix

  abbrev pub find : Env → Option Config → Text → Option Text
  find env (some params) key = params key
  find env none key = env key

  unfoldable pub c_string : Text → Text → Result QrmiError Text
  c_string what s =
      if any (λ c. c == 0) s
      then err (other (codes "invalid " ++ what ++ codes ": " ++ nul_error s))
      else ok s

  abbrev pub value : Env → Text → Option Config → Text → Option Text
  value env device_id params suffix = find env params (key_name device_id params suffix)

  unfoldable pub build_config_json : Env → Text → Option Config → Result QrmiError Text
  unfolding insert parse_value parse_value_list status_codes c_string parse_u32
  build_config_json env device_id params =
      parse_value f64_value (value env device_id params (codes "TIMEOUT"))
        (key_name device_id params (codes "TIMEOUT"))
      >>= λ timeout.
          parse_value u32_value (value env device_id params (codes "RETRY_MAX_ATTEMPTS"))
            (key_name device_id params (codes "RETRY_MAX_ATTEMPTS"))
          >>= λ attempts.
              parse_value f64_value (value env device_id params (codes "RETRY_BACKOFF_SECONDS"))
                (key_name device_id params (codes "RETRY_BACKOFF_SECONDS"))
              >>= λ backoff.
                  codes_value (key_name device_id params (codes "RETRY_STATUS_CODES"))
                    (parse_value_list (value env device_id params (codes "RETRY_STATUS_CODES")))
                  >>= λ statuses. c_string (codes "config json") (
                      codec.to_string (
                        object (
                          insert_some (codes "retry_methods")
                            (methods_value (
                              parse_value_list
                                (value env device_id params (codes "RETRY_METHODS"))))
                            (insert_some (codes "retry_status_codes") statuses (
                              insert_some (codes "retry_backoff_seconds") backoff (
                                insert_some (codes "retry_max_attempts") attempts (
                                  insert_some (codes "timeout") timeout (
                                    insert_some (codes "proxy")
                                      (text_value (value env device_id params (codes "PROXY")))
                                      (insert_some (codes "api_token")
                                        (text_value
                                          (value env device_id params (codes "API_TOKEN")))
                                        (insert_some (codes "url")
                                          (text_value (value env device_id params (codes "URL")))
                                          end))))))))))
