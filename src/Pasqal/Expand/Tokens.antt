-- ===== src/Pasqal/Expand/Tokens.antt =====
-- What a path with variables stands for, token by token: the meaning that `expand_env_vars`
-- (src/pasqal/cloud_config.rs) is to compute.
use qrmi.Prelude.{
  ℕ, suc, ◌+◌, ◌≡◌, ◌≢◌, refl, ◌∙◌, List, [], ◌∷◌, ◌++◌, true, false, arith, length, append_assoc,
  append-nil, ◌==◌, if◌then◌else◌,
}
use native.Mathlib.Nat.{zero-add, suc-add}
use qrmi.Text.{Text}
use qrmi.Result.{ok}
use qrmi.Settings.{Env}
use qrmi.Pasqal.Expand.{
  is_key_char, all_key_chars, read_braced, read_name, value, dollar, expand_from, expand_env_vars,
}

pub data Token : Type 0 where
  -- one char of the path itself
  literal : ℕ → Token
  -- `${key}` and `$key`
  braced_key bare_key : Text → Token

abbrev pub write_token : Token → Text → Text
write_token (literal c) rest = if c == b'$' then b'$' ∷ b'$' ∷ rest else c ∷ rest
write_token (braced_key k) rest = b'$' ∷ b'{' ∷ (k ++ (b'}' ∷ rest))
write_token (bare_key k) rest = b'$' ∷ (k ++ rest)

-- How a list of tokens is written, a literal `$` as `$$`.
abbrev pub write : List Token → Text
write [] = []
write (t ∷ ts) = write_token t (write ts)

abbrev pub meaning : Env → Token → Text
meaning env (literal c) = c ∷ []
meaning env (braced_key k) = value env k
meaning env (bare_key k) = value env k

abbrev pub meanings : Env → List Token → Text
meanings env [] = []
meanings env (t ∷ ts) = meaning env t ++ meanings env ts

abbrev pub IsKey : Text → Type 0
IsKey k = (k ≢ []) × (all_key_chars k ≡ true)

-- A name without braces ends where no key char follows.
abbrev pub Stops : Text → Type 0
Stops [] = Unit
Stops (c ∷ s) = is_key_char c ≡ false

abbrev pub IsWritable : List Token → Type 0
IsWritable [] = Unit
IsWritable (literal c ∷ ts) = IsWritable ts
IsWritable (braced_key k ∷ ts) = IsKey k × IsWritable ts
IsWritable (bare_key k ∷ ts) = IsKey k × Stops (write ts) × IsWritable ts

brace-is_key_char : is_key_char b'}' ≡ false
unfolding is_key_char
brace-is_key_char = refl

read_braced-append :
    (k rest : Text) → all_key_chars k ≡ true → read_braced (k ++ (b'}' ∷ rest)) ≡ (k, true)
unfolding read_braced all_key_chars
read_braced-append [] rest h = refl
read_braced-append (c ∷ k) rest h = ground (arith, read_braced-append k rest)

all_key_chars_cons :
    (c : ℕ) (k : Text)
    → all_key_chars (c ∷ k) ≡ true
    → (is_key_char c ≡ true) × (all_key_chars k ≡ true)
unfolding all_key_chars
all_key_chars_cons c k h = ground arith

-- Neither `$` nor a brace begins a key.
key_char_plain : (c : ℕ) → is_key_char c ≡ true → ((c == b'$') ≡ false) × ((c == b'{') ≡ false)
unfolding is_key_char
key_char_plain c h = ground arith

read_name-append : (k rest : Text) → all_key_chars k ≡ true → Stops rest → read_name (k ++ rest) ≡ k
unfolding read_name
read_name-append [] [] h s = refl
read_name-append [] (c ∷ rest) h s = rw s
read_name-append (c ∷ k) rest h s =
    let (hc, hk) = all_key_chars_cons c k h in rw (hc, read_name-append k rest hk s)

module _ (env : Env) where
  expand_from-skip :
      (p : Text) (j : ℕ) (out rest : Text)
      → expand_from env (length p + j) out (p ++ rest) ≡ expand_from env j out rest
  unfolding expand_from
  expand_from-skip [] j out rest = rw zero-add
  expand_from-skip (c ∷ p) j out rest = rw suc-add (expand_from-skip p j out rest)

  expand_from-literal :
      (c : ℕ) (out rest : Text)
      → expand_from env 0 out (write_token (literal c) rest)
        ≡ expand_from env 0 (out ++ c ∷ []) rest
  unfolding expand_from
  expand_from-literal c out rest = ground arith

  expand_from-braced_key :
      (k out rest : Text)
      → IsKey k
      → expand_from env 0 out (write_token (braced_key k) rest)
        ≡ expand_from env 0 (out ++ value env k) rest
  unfolding expand_from
  expand_from-braced_key [] out rest (ne, h) = absurd (ne refl)
  expand_from-braced_key (c ∷ k) out rest (ne, h) =
      let count : suc (length k) + 2 ≡ suc (suc (length k)) + 1 = omega arith in
      rw (read_braced-append (c ∷ k) rest h, h, count)
        (expand_from-skip (b'{' ∷ c ∷ k) 1 (out ++ value env (c ∷ k)) (b'}' ∷ rest))

  expand_from-bare_key :
      (k out rest : Text)
      → IsKey k
      → Stops rest
      → expand_from env 0 out (write_token (bare_key k) rest)
        ≡ expand_from env 0 (out ++ value env k) rest
  unfolding expand_from
  expand_from-bare_key [] out rest (ne, h) s = absurd (ne refl)
  expand_from-bare_key (c ∷ k) out rest (ne, h) s =
      let (no_dollar, no_brace) = key_char_plain c (all_key_chars_cons c k h).0 in
      let count : length k ≡ length k + 0 = omega arith in
      rw (dollar, no_dollar, no_brace, read_name-append (c ∷ k) rest h s, count)
        (expand_from-skip k 0 (out ++ value env (c ∷ k)) rest)

  expand_from-write :
      (ts : List Token) (out : Text)
      → IsWritable ts
      → expand_from env 0 out (write ts) ≡ ok (out ++ meanings env ts)
  expand_from-write [] out w = rw append-nil (unfold expand_from in refl)
  expand_from-write (literal c ∷ ts) out w =
      expand_from-literal c out (write ts)
      ∙ expand_from-write ts (out ++ c ∷ []) w
      ∙ rw append_assoc
  expand_from-write (braced_key k ∷ ts) out (key, w) =
      expand_from-braced_key k out (write ts) key
      ∙ expand_from-write ts (out ++ value env k) w
      ∙ rw append_assoc
  expand_from-write (bare_key k ∷ ts) out (key, stops, w) =
      expand_from-bare_key k out (write ts) key stops
      ∙ expand_from-write ts (out ++ value env k) w
      ∙ rw append_assoc

-- A path made of chars, with a `$` doubled, of variables in braces and of variables without, where
-- each name is not empty and holds key chars only and no key char follows a name without braces,
-- expands to the chars and the values in order, a variable that is not set adding nothing.
pub expand_env_vars-write :
    (env : Env) (ts : List Token)
    → IsWritable ts
    → expand_env_vars env (write ts) ≡ ok (meanings env ts)
unfolding expand_env_vars
expand_env_vars-write env ts w = expand_from-write env ts [] w
