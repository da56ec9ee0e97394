-- ===== src/Pasqal/Expand.antt =====
-- `expand_env_vars` and `expand_config_root` (src/pasqal/cloud_config.rs): `$VAR`, `${VAR}`, `$$` and
-- `~` in the path of a configuration.
pub mod Tokens
use qrmi.Prelude.{
  ℕ, zero, suc, ◌+◌, Bool, true, false, not, ◌&&◌, ◌||◌, Option, none, some, List, [], ◌∷◌, ◌++◌,
  unwrap_or, is_empty, length, ◌==◌, if◌then◌else◌,
}
use qrmi.Text.{Text, codes, eq_text, starts_with, is_ascii_alphanumeric}
use qrmi.Result.{Result, ok, err}
use qrmi.Errors.{QrmiError, text}
use qrmi.Settings.{Env}

unfoldable pub is_key_char : ℕ → Bool
unfolding is_ascii_alphanumeric
is_key_char c = c == b'_' || is_ascii_alphanumeric c

unfoldable pub all_key_chars : Text → Bool
unfolding is_key_char
all_key_chars [] = true
all_key_chars (c ∷ s) = is_key_char c && all_key_chars s

-- The chars up to a closing brace, and whether there was one.
unfoldable pub read_braced : Text → Text × Bool
read_braced [] = ([], false)
read_braced (c ∷ s) =
    let rest = read_braced s in if c == b'}' then ([], true) else (c ∷ rest.0, rest.1)

-- The longest run of key chars.
unfoldable pub read_name : Text → Text
unfolding is_key_char
read_name [] = []
read_name (c ∷ s) = let rest = read_name s in if is_key_char c then c ∷ rest else []

abbrev pub without_first : Text → Text
without_first [] = []
without_first (c ∷ s) = s

module _ (env : Env) where
  -- A variable that is not set adds nothing.
  abbrev pub value : Text → Text
  value key = unwrap_or (env key) []

  module _ (next : ℕ → Text → Result QrmiError Text) (expanded : Text) where
    abbrev pub braced : Text × Bool → Result QrmiError Text
    braced (key, false) = err (
        QrmiError.invalid_input (
          text (codes "malformed environment variable in path: missing closing brace after ${")
          ∷ text key
          ∷ text (codes "}")
          ∷ []))
    braced (key, true) =
        if is_empty key || not (all_key_chars key)
        then err (
            QrmiError.invalid_input (
              text (codes "malformed environment variable in path: ${")
              ∷ text key
              ∷ text (codes "}")
              ∷ []))
        else next (length key + 2) (expanded ++ value key)

    abbrev pub named : Text → Result QrmiError Text
    named key =
        if is_empty key
        then next 0 (expanded ++ b'$' ∷ [])
        else next (length key) (expanded ++ value key)

    -- behind a `$`; `next` goes on after so many more chars
    unfoldable pub dollar : Text → Result QrmiError Text
    unfolding all_key_chars read_braced read_name
    dollar [] = next 0 (expanded ++ b'$' ∷ [])
    dollar (d ∷ s) =
        if d == b'$'
        then next 1 (expanded ++ b'$' ∷ [])
        else if d == b'{'
        then braced (read_braced s)
        else named (read_name (d ∷ s))

  -- The loop over the chars; the number is how many of them the inner loops have taken already.
  unfoldable pub expand_from : ℕ → Text → Text → Result QrmiError Text
  unfolding dollar
  expand_from k expanded [] = ok expanded
  expand_from (suc k) expanded (ch ∷ s) = expand_from k expanded s
  expand_from zero expanded (ch ∷ s) =
      let plain = expand_from 0 (expanded ++ ch ∷ []) s in
      let special = dollar (λ k out. expand_from k out s) expanded s in
      if ch == b'$' then special else plain

  unfoldable pub expand_env_vars : Text → Result QrmiError Text
  unfolding expand_from
  expand_env_vars = expand_from 0 []

  abbrev home_expanded : Text → Text
  home_expanded root =
      if eq_text root (codes "~")
      then unwrap_or (env (codes "HOME")) root
      else if starts_with (codes "~/") root
      then elim (env (codes "HOME")) [ none ↦ root | some home ↦ home ++ without_first root ]
      else root

  unfoldable pub expand_config_root : Text → Result QrmiError Text
  unfolding expand_env_vars eq_text starts_with
  expand_config_root config_root = expand_env_vars (home_expanded config_root)
