-- ===== src/Text/Chars.antt =====
-- Texts, their equality, trimming and case.
use qrmi.Prelude.{
  ℕ, ◌+◌, ◌-◌, ◌≡◌, refl, ◌↔◌, Bool, true, false, ◌&&◌, ◌||◌, List, [], ◌∷◌, map, String, arith,
  leb, ◌==◌, if◌then◌else◌, is_empty, Option, ltb, some, drop, length, none,
}
use Prim.Native.Char.{code}

abbrev pub Text : Type 0
Text = List ℕ

-- The chars of a literal.
abbrev pub codes : String → Text
codes String.[] = []
codes (String.◌∷◌ c s) = code c ∷ codes s

unfoldable pub eq_text : Text → Text → Bool
eq_text [] [] = true
eq_text (x ∷ xs) (y ∷ ys) = x == y && eq_text xs ys
eq_text _ _ = false

pub eq_text_iff : (a b : Text) → (eq_text a b ≡ true) ↔ (a ≡ b)
unfolding eq_text
eq_text_iff [] [] = ground arith
eq_text_iff (x ∷ a) (y ∷ b) = ground (arith, eq_text_iff a b)
eq_text_iff _ _ = ground arith

pub eq_text_refl : (a : Text) → eq_text a a ≡ true
eq_text_refl a = (eq_text_iff a a).1 refl

abbrev within : ℕ → ℕ → ℕ → Bool
within lo hi c = leb lo c && leb c hi

-- `char::is_whitespace`: the code points with the property White_Space.
unfoldable pub is_whitespace : ℕ → Bool
is_whitespace c =
    within 9 13 c
    || c == 32
    || c == 0x85
    || c == 0xA0
    || c == 0x1680
    || within 0x2000 0x200A c
    || c == 0x2028
    || c == 0x2029
    || c == 0x202F
    || c == 0x205F
    || c == 0x3000

-- `char::is_ascii_alphanumeric`.
unfoldable pub is_ascii_alphanumeric : ℕ → Bool
is_ascii_alphanumeric c = within b'0' b'9' c || within b'A' b'Z' c || within b'a' b'z' c

-- `to_ascii_lowercase`, of a char and of a text.
unfoldable pub lower_char : ℕ → ℕ
lower_char c = if within b'A' b'Z' c then c + 32 else c

unfoldable pub to_ascii_lowercase : Text → Text
unfolding lower_char
to_ascii_lowercase = map lower_char

-- `to_ascii_uppercase`, of a char and of a text.
unfoldable pub upper_char : ℕ → ℕ
upper_char c = if within b'a' b'z' c then c - 32 else c

unfoldable pub to_ascii_uppercase : Text → Text
unfolding upper_char
to_ascii_uppercase = map upper_char

unfoldable pub trim_start : Text → Text
trim_start [] = []
trim_start (c ∷ s) = if is_whitespace c then trim_start s else c ∷ s

unfoldable pub trim_end : Text → Text
trim_end [] = []
trim_end (c ∷ s) = let r = trim_end s in if is_empty r && is_whitespace c then [] else c ∷ r

-- `str::trim`.
unfoldable pub trim : Text → Text
unfolding trim_start trim_end is_whitespace
trim s = trim_end (trim_start s)

-- `str::starts_with` on a text.
unfoldable pub starts_with : Text → Text → Bool
starts_with [] s = true
starts_with (x ∷ p) [] = false
starts_with (x ∷ p) (c ∷ s) = x == c && starts_with p s

-- `str::ends_with` on a char.
unfoldable pub ends_with : ℕ → Text → Bool
ends_with x [] = false
ends_with x (c ∷ s) = if is_empty s then c == x else ends_with x s

-- A slice that leaves out the last char.
unfoldable pub without_last : Text → Text
without_last [] = []
without_last (c ∷ s) = let r = without_last s in if is_empty s then [] else c ∷ r

-- `str::contains` of a text.
unfoldable pub contains : Text → Text → Bool
unfolding starts_with
contains x [] = starts_with x []
contains x (c ∷ s) = starts_with x (c ∷ s) || contains x s

-- `str::strip_prefix` of a text.
unfoldable pub strip_prefix : Text → Text → Option Text
unfolding starts_with
strip_prefix p s = if starts_with p s then some (drop (length p) s) else none

-- The number of the bytes in UTF-8, `str::len`.
abbrev char_len_utf8 : ℕ → ℕ
char_len_utf8 c =
    if ltb c 0x80 then 1 else if ltb c 0x800 then 2 else if ltb c 0x10000 then 3 else 4

unfoldable pub len_utf8 : Text → ℕ
len_utf8 [] = 0
len_utf8 (c ∷ s) = char_len_utf8 c + len_utf8 s

-- `eq_ignore_ascii_case`.
unfoldable pub eq_ignore_ascii_case : Text → Text → Bool
unfolding eq_text to_ascii_lowercase
eq_ignore_ascii_case a b = eq_text (to_ascii_lowercase a) (to_ascii_lowercase b)
