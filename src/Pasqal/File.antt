-- ===== src/Pasqal/File.antt =====
-- The configuration file of Pasqal Cloud (src/pasqal/cloud_config.rs): lines `key = value`, comments
-- behind `#` and `;`. A slice out of range panics, which is `none` here.
pub mod Values
use qrmi.Prelude.{
  and_then, ℕ, Bool, true, false, ◌&&◌, ◌||◌, Option, none, some, List, [], ◌∷◌, is_empty, length,
  leb, ◌==◌, if◌then◌else◌,
}
use qrmi.Text.{
  Text, codes, eq_text, trim, split_once, lines, starts_with, ends_with, without_last,
  to_ascii_lowercase,
}
use qrmi.Settings.{Config}
use qrmi.Pasqal.Expand.{without_first}

pub record PasqalCloudConfig : Type 0 where
  pub config : Option Config
  pub username : Option Text
  pub password : Option Text
  pub client_id : Option Text
  pub client_secret : Option Text
  pub token : Option Text
  pub project_id : Option Text
  pub auth_endpoint : Option Text

-- `PasqalCloudConfig::default()`.
abbrev pub default : PasqalCloudConfig
default = record {
  config = none;
  username = none;
  password = none;
  client_id = none;
  client_secret = none;
  token = none;
  project_id = none;
  auth_endpoint = none;
}

abbrev pub enclosed : ℕ → Text → Bool
enclosed q s = starts_with (q ∷ []) s && ends_with q s

-- `&s[1..s.len() - 1]`, whose end lies before its start if `s` is one quote.
abbrev pub between_ends : Text → Option Text
between_ends [] = none
between_ends (c ∷ []) = none
between_ends (c ∷ d ∷ s) = some (without_last (d ∷ s))

abbrev pub unquoted : Text → Option Text
unquoted s = if enclosed b'"' s || enclosed b'\'' s then between_ends s else some s

unfoldable pub strip_quotes : Text → Option Text
unfolding trim starts_with ends_with without_last
strip_quotes s = unquoted (trim s)

-- The `match` on the key; an unknown key changes nothing.
unfoldable pub set_key : Text → Text → PasqalCloudConfig → PasqalCloudConfig
unfolding eq_text
set_key k v config =
    if eq_text k (codes "username")
    then record config { username = some v }
    else if eq_text k (codes "password")
    then record config { password = some v }
    else if eq_text k (codes "client_id")
    then record config { client_id = some v }
    else if eq_text k (codes "client_secret")
    then record config { client_secret = some v }
    else if eq_text k (codes "token")
    then record config { token = some v }
    else if eq_text k (codes "project_id")
    then record config { project_id = some v }
    else if eq_text k (codes "auth_endpoint")
    then record config { auth_endpoint = some v }
    else config

abbrev pub is_comment : Text → Bool
is_comment line = is_empty line || starts_with (b'#' ∷ []) line || starts_with (b';' ∷ []) line

abbrev pub assigned : PasqalCloudConfig → Text → Option Text → Option PasqalCloudConfig
assigned config k none = none
assigned config k (some v) =
    if is_empty k then some config else some (set_key (to_ascii_lowercase k) (trim v) config)

abbrev pub split_line : PasqalCloudConfig → Option (Text × Text) → Option PasqalCloudConfig
split_line config none = some config
split_line config (some (k, v)) = assigned config (trim k) (strip_quotes v)

abbrev pub parse_trimmed : PasqalCloudConfig → Text → Option PasqalCloudConfig
parse_trimmed config line =
    if is_comment line then some config else split_line config (split_once b'=' line)

-- One round of the loop over the lines.
unfoldable pub parse_line : PasqalCloudConfig → Text → Option PasqalCloudConfig
unfolding set_key strip_quotes split_once to_ascii_lowercase trim
parse_line config line = parse_trimmed config (trim line)

unfoldable pub parse_lines : PasqalCloudConfig → List Text → Option PasqalCloudConfig
unfolding parse_line
parse_lines config [] = some config
parse_lines config (line ∷ rest) =
    and_then (parse_line config line) (λ config'. parse_lines config' rest)

unfoldable pub parse_pasqal_config_content : Text → Option PasqalCloudConfig
unfolding parse_lines lines
parse_pasqal_config_content content = parse_lines default (lines content)
