-- ===== src/Pasqal/File/Values.antt =====
-- What a configuration file sets (src/pasqal/cloud_config.rs), and the values that it cannot hold.
use qrmi.Prelude.{
  and_then, ◌≡◌, refl, ap, ◌∙◌, ◌⊎◌, ◌↔◌, none, some, List, [], ◌∷◌, ◌++◌, false, arith, map,
}
use mathlib.Core.Bool.{and-false}
use qrmi.Text.{
  strip_cr, ended_lines, Text, codes, trim, trim_end, split_once, lines, starts_with, ends_with,
  without_last, to_ascii_lowercase,
}
use qrmi.Text.Laws.{
  pieces_cons, Free, Free-append, pieces-line, trim_end-concat, ends_with-concat,
  without_last-concat, ends_with-Free,
}
use qrmi.Pasqal.File.{
  PasqalCloudConfig, default, unquoted, is_comment, assigned, parse_trimmed, strip_quotes, set_key,
  parse_line, parse_lines, parse_pasqal_config_content,
}

unquoted-none : (s : Text) → (unquoted s ≡ none) ↔ ((s ≡ b'"' ∷ []) ⊎ (s ≡ b'\'' ∷ []))
unfolding starts_with ends_with
unquoted-none [] = ground arith
unquoted-none (c ∷ []) = ground arith
unquoted-none (c ∷ d ∷ s) = ground arith

-- A value makes the program panic exactly if it is a single quote char between blanks.
strip_quotes-none :
    (s : Text) → (strip_quotes s ≡ none) ↔ ((trim s ≡ b'"' ∷ []) ⊎ (trim s ≡ b'\'' ∷ []))
unfolding strip_quotes
strip_quotes-none s = unquoted-none (trim s)

pub data Field : Type 0 where
  username password client_id client_secret token project_id auth_endpoint : Field

abbrev pub name : Field → Text
name username = codes "username"
name password = codes "password"
name client_id = codes "client_id"
name client_secret = codes "client_secret"
name token = codes "token"
name project_id = codes "project_id"
name auth_endpoint = codes "auth_endpoint"

abbrev pub set_field : Field → Text → PasqalCloudConfig → PasqalCloudConfig
set_field username v c = record c { username = some v }
set_field password v c = record c { password = some v }
set_field client_id v c = record c { client_id = some v }
set_field client_secret v c = record c { client_secret = some v }
set_field token v c = record c { token = some v }
set_field project_id v c = record c { project_id = some v }
set_field auth_endpoint v c = record c { auth_endpoint = some v }

pub data FileLine : Type 0 where
  setting : Field → Text → FileLine
  comment : Text → FileLine

-- `field = "value"`, and `# text`.
abbrev pub write_line : FileLine → Text
write_line (setting f v) = (name f ++ codes " = \"" ++ v) ++ b'"' ∷ []
write_line (comment t) = b'#' ∷ t

abbrev pub write : List FileLine → Text
write [] = []
write (l ∷ ls) = write_line l ++ (b'\n' ∷ write ls)

-- Each value without the blanks at its ends; of two for one field the later counts.
abbrev pub effect : List FileLine → PasqalCloudConfig → PasqalCloudConfig
effect [] c = c
effect (setting f v ∷ ls) c = effect ls (set_field f (trim v) c)
effect (comment t ∷ ls) c = effect ls c

abbrev pub IsWritable : List FileLine → Type 0
IsWritable [] = Unit
IsWritable (setting f v ∷ ls) = Free b'\n' v × IsWritable ls
IsWritable (comment t ∷ ls) = Free b'\n' t × Free b'\r' t × IsWritable ls

tail_of : (l : FileLine) (ls : List FileLine) → IsWritable (l ∷ ls) → IsWritable ls
tail_of (setting f v) ls w = w.1
tail_of (comment t) ls w = w.2

trim-write_line :
    (f : Field) (v : Text) → trim (write_line (setting f v)) ≡ write_line (setting f v)
unfolding trim
trim-write_line username v = trim_end-concat (name username ++ codes " = \"" ++ v) b'"' refl
trim-write_line password v = trim_end-concat (name password ++ codes " = \"" ++ v) b'"' refl
trim-write_line client_id v = trim_end-concat (name client_id ++ codes " = \"" ++ v) b'"' refl
trim-write_line client_secret v =
    trim_end-concat (name client_secret ++ codes " = \"" ++ v) b'"' refl
trim-write_line token v = trim_end-concat (name token ++ codes " = \"" ++ v) b'"' refl
trim-write_line project_id v = trim_end-concat (name project_id ++ codes " = \"" ++ v) b'"' refl
trim-write_line auth_endpoint v =
    trim_end-concat (name auth_endpoint ++ codes " = \"" ++ v) b'"' refl

is_comment-setting : (f : Field) (v : Text) → is_comment (write_line (setting f v)) ≡ false
unfolding starts_with
is_comment-setting username v = refl
is_comment-setting _ v = refl

abbrev quoted : Text → Text
quoted v = codes " \"" ++ (v ++ b'"' ∷ [])

split_once-setting :
    (f : Field) (v : Text)
    → split_once b'=' (write_line (setting f v)) ≡ some (name f ++ b' ' ∷ [], quoted v)
unfolding split_once
split_once-setting username v = refl
split_once-setting _ v = refl

trim-name : (f : Field) → trim (name f ++ b' ' ∷ []) ≡ name f
unfolding trim
trim-name username = refl
trim-name _ = refl

unquoted-enclosed : (v : Text) → unquoted (b'"' ∷ (v ++ b'"' ∷ [])) ≡ some v
unfolding starts_with ends_with without_last
unquoted-enclosed [] = refl
unquoted-enclosed (c ∷ v) =
    rw (ends_with-concat b'"' (c ∷ v) b'"', without_last-concat (c ∷ v) b'"')

strip_quotes-quoted : (v : Text) → strip_quotes (quoted v) ≡ some v
unfolding strip_quotes
strip_quotes-quoted v = ap unquoted (trim_end-concat (b'"' ∷ v) b'"' refl) ∙ unquoted-enclosed v

assigned-name :
    (f : Field) (v : Text) (c : PasqalCloudConfig)
    → assigned c (name f) (some v) ≡ some (set_field f (trim v) c)
unfolding set_key to_ascii_lowercase
assigned-name username v c = refl
assigned-name _ v c = refl

parse_trimmed-setting :
    (f : Field) (v : Text) (c : PasqalCloudConfig)
    → parse_trimmed c (write_line (setting f v)) ≡ some (set_field f (trim v) c)
parse_trimmed-setting f v c =
    rw (is_comment-setting f v, split_once-setting f v)
      (rw (trim-name f, strip_quotes-quoted v) (assigned-name f v c))

parse_line-setting :
    (f : Field) (v : Text) (c : PasqalCloudConfig)
    → parse_line c (write_line (setting f v)) ≡ some (set_field f (trim v) c)
unfolding parse_line
parse_line-setting f v c = ap (parse_trimmed c) (trim-write_line f v) ∙ parse_trimmed-setting f v c

trim-comment : (t : Text) → (s : Text) × (trim (b'#' ∷ t) ≡ b'#' ∷ s)
unfolding trim
trim-comment t = (trim_end t, rw and-false)

parse_line-comment :
    (t : Text) (c : PasqalCloudConfig) → parse_line c (write_line (comment t)) ≡ some c
unfolding parse_line
parse_line-comment t c =
    let (s, e) = trim-comment t in ap (parse_trimmed c) e ∙ (unfold starts_with in refl)

Free-opening : (f : Field) → Free b'\n' (name f ++ codes " = \"")
Free-opening username = ground arith
Free-opening _ = ground arith

Free-write_line :
    (l : FileLine) (ls : List FileLine) → IsWritable (l ∷ ls) → Free b'\n' (write_line l)
Free-write_line (comment t) ls w = (refl, w.0)
Free-write_line (setting f v) ls w =
    Free-append b'\n' (name f ++ codes " = \"" ++ v) (b'"' ∷ [])
      (Free-append b'\n' (name f ++ codes " = \"") v (Free-opening f) w.0) (refl, tt)

strip_cr-write_line :
    (l : FileLine) (ls : List FileLine)
    → IsWritable (l ∷ ls)
    → strip_cr (write_line l) ≡ write_line l
strip_cr-write_line (comment t) ls w = rw (ends_with-Free b'\r' (b'#' ∷ t) (refl, w.1))
strip_cr-write_line (setting f v) ls w =
    rw (ends_with-concat b'\r' (name f ++ codes " = \"" ++ v) b'"')

-- The lines of a written file are those written.
lines-write : (ls : List FileLine) → IsWritable ls → lines (write ls) ≡ map write_line ls
unfolding lines
lines-write [] w = refl
lines-write (l ∷ ls) w =
    let (q, ps, e) = pieces_cons (b'\n' ∷ []) 0 (write ls) in
    ap ended_lines (pieces-line b'\n' (write_line l) (write ls) (Free-write_line l ls w))
    ∙ rw (e, strip_cr-write_line l ls w)
        (ap (◌∷◌ (write_line l)) (rw e at (lines-write ls (tail_of l ls w))))

parse_lines-write :
    (ls : List FileLine) (c : PasqalCloudConfig)
    → parse_lines c (map write_line ls) ≡ some (effect ls c)
unfolding parse_lines
parse_lines-write [] c = refl
parse_lines-write (setting f v ∷ ls) c =
    ap (λ o. and_then o (λ d. parse_lines d (map write_line ls))) (parse_line-setting f v c)
    ∙ parse_lines-write ls (set_field f (trim v) c)
parse_lines-write (comment t ∷ ls) c =
    ap (λ o. and_then o (λ d. parse_lines d (map write_line ls))) (parse_line-comment t c)
    ∙ parse_lines-write ls c

-- Reading a file of `field = "value"` lines and comments gives the default configuration with each
-- value set, without the blanks at its ends, whatever else the values hold but a newline: quotes,
-- equal signs and comment marks included. The file is read without a panic.
pub parse_pasqal_config_content-write :
    (ls : List FileLine)
    → IsWritable ls
    → parse_pasqal_config_content (write ls) ≡ some (effect ls default)
unfolding parse_pasqal_config_content
parse_pasqal_config_content-write ls w =
    ap (parse_lines default) (lines-write ls w) ∙ parse_lines-write ls default
