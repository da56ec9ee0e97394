-- ===== src/Text/Numbers.antt =====
-- `str::parse` at the integer types.
use qrmi.Prelude.{
  ℕ, zero, suc, ◌/◌, ◌%◌, ◌+◌, ◌-◌, ◌*◌, ◌^◌, Bool, ◌&&◌, [], ◌∷◌, Option, none, some, leb, ltb,
  ◌==◌, if◌then◌else◌,
}
use qrmi.Prelude.Int.{ℤ, pos, negsuc, neg}
use qrmi.Text.Chars.{Text}

abbrev is_digit : ℕ → Bool
is_digit c = leb b'0' c && leb c b'9'

-- All digits, from the value of those before them.
unfoldable pub digits : ℕ → Text → Option ℕ
digits n [] = some n
digits n (c ∷ s) = let rest = digits (n * 10 + (c - b'0')) s in if is_digit c then rest else none

-- One digit or more.
unfoldable pub number : Text → Option ℕ
unfolding digits
number [] = none
number (c ∷ s) = digits 0 (c ∷ s)

abbrev pub unsigned : Text → Option ℕ
unsigned [] = none
unsigned (c ∷ s) = if c == b'+' then number s else number (c ∷ s)

abbrev pub below : ℕ → Option ℕ → Option ℕ
below bound none = none
below bound (some n) = if ltb n bound then some n else none

-- `parse::<u64>` and `parse::<u32>`: an optional plus sign, then digits, within the type's range.
unfoldable pub parse_u64 : Text → Option ℕ
unfolding number
parse_u64 s = below (2 ^ 64) (unsigned s)

unfoldable pub parse_u32 : Text → Option ℕ
unfolding number
parse_u32 s = below (2 ^ 32) (unsigned s)

abbrev negated : Option ℕ → Option ℤ
negated none = none
negated (some n) = some (neg n)

abbrev positive : Option ℕ → Option ℤ
positive none = none
positive (some n) = some (pos n)

-- `parse::<i32>`.
unfoldable pub parse_i32 : Text → Option ℤ
unfolding number
parse_i32 [] = none
parse_i32 (c ∷ s) =
    if c == b'-'
    then negated (below (2 ^ 31 + 1) (number s))
    else positive (below (2 ^ 31) (unsigned (c ∷ s)))

-- `parse::<i64>`.
unfoldable pub parse_i64 : Text → Option ℤ
unfolding number
parse_i64 [] = none
parse_i64 (c ∷ s) =
    if c == b'-'
    then negated (below (2 ^ 63 + 1) (number s))
    else positive (below (2 ^ 63) (unsigned (c ∷ s)))

-- `to_string` of an integer: the digits before `acc`, on fuel above the number.
unfoldable pub print_digits : ℕ → ℕ → Text → Text
print_digits zero n acc = acc
print_digits (suc fuel) n acc =
    let more = print_digits fuel (n / 10) ((b'0' + n % 10) ∷ acc) in
    if ltb n 10 then (b'0' + n % 10) ∷ acc else more

unfoldable pub print_ℤ : ℤ → Text
unfolding print_digits
print_ℤ (pos n) = print_digits (suc n) n []
print_ℤ (negsuc n) = b'-' ∷ print_digits (suc (suc n)) (suc n) []

unfoldable pub print_ℕ : ℕ → Text
unfolding print_digits
print_ℕ n = print_digits (suc n) n []
