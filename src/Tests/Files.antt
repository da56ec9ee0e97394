-- ===== src/Tests/Files.antt =====
-- A configuration file, and paths with variables.
use qrmi.Prelude.{◌≡◌, none, some, List, [], ◌∷◌, if◌then◌else◌, arith}
use qrmi.Text.{codes, eq_text}
use qrmi.Result.{ok}
use qrmi.Settings.{Env}
use qrmi.Pasqal.Expand.{expand_env_vars, is_key_char, all_key_chars}
use qrmi.Pasqal.Expand.Tokens.{
  Token, literal, braced_key, bare_key, meanings, expand_env_vars-write,
}
use qrmi.Pasqal.File.{default, parse_pasqal_config_content}
use qrmi.Pasqal.File.Values.{
  FileLine, setting, comment, token, project_id, effect, parse_pasqal_config_content-write,
}
use qrmi.Pasqal.File.Values
use qrmi.Pasqal.Expand.Tokens

abbrev file : List FileLine
file =
    comment (codes " cloud") ∷ setting token (codes "a\"=#b ") ∷ setting project_id (codes "p") ∷ []

file-IsWritable : Values.IsWritable file
file-IsWritable = ground arith

parse_pasqal_config_content-write_example :
    parse_pasqal_config_content (Values.write file) ≡ some (effect file default)
parse_pasqal_config_content-write_example = parse_pasqal_config_content-write file file-IsWritable

abbrev env : Env
env key = if eq_text key (codes "HOME") then some (codes "/root") else none

abbrev path : List Token
path = bare_key (codes "HOME") ∷ literal b'/' ∷ literal b'$' ∷ braced_key (codes "X") ∷ []

path-IsWritable : Tokens.IsWritable path
unfolding is_key_char all_key_chars
path-IsWritable = ground arith

expand_env_vars-write_example : expand_env_vars env (Tokens.write path) ≡ ok (meanings env path)
expand_env_vars-write_example = expand_env_vars-write env path path-IsWritable
