-- ===== src/Text/Printing.antt =====
-- What `parse` makes of the text of a number.
use qrmi.Prelude.{
  ℕ, zero, suc, ◌+◌, ◌-◌, ◌*◌, ◌/◌, ◌%◌, ◌^◌, ◌<◌, ◌≡◌, refl, ◌∙◌, ap, inl, inr, true, false, [],
  ◌∷◌, Option, none, some, Bool-cases, arith, ltb, leb, ◌==◌,
}
use qrmi.Text.{Text, below, unsigned, digits, number, parse_u32, print_digits, print_ℕ}

one_digit :
    (acc n : ℕ) (rest : Text)
    → digits acc ((b'0' + n % 10) ∷ rest) ≡ digits (acc * 10 + n % 10) rest
unfolding digits
one_digit acc n rest =
    let e : acc * 10 + (b'0' + n % 10 - b'0') ≡ acc * 10 + n % 10 = omega arith in ground (arith, e)

value_below : (n : ℕ) → ltb n 10 ≡ true → 0 * 10 + n % 10 ≡ n
value_below n e = ground arith

value_whole : (n : ℕ) → n / 10 * 10 + n % 10 ≡ n
value_whole n = omega arith

tenth_below : (n fuel : ℕ) → ltb n 10 ≡ false → n < suc fuel → n / 10 < fuel
tenth_below n fuel e h = ground arith

digits-print_digits :
    (fuel n : ℕ) (rest : Text) → n < fuel → digits 0 (print_digits fuel n rest) ≡ digits n rest
unfolding print_digits
digits-print_digits zero n rest h = absurd (omega arith)
digits-print_digits (suc fuel) n rest h = elim (Bool-cases (ltb n 10)) [
  | inl e ↦ rw e (one_digit 0 n rest ∙ ap (λ m. digits m rest) (value_below n e))
  | inr e ↦ rw e (
      digits-print_digits fuel (n / 10) ((b'0' + n % 10) ∷ rest) (tenth_below n fuel e h)
      ∙ one_digit (n / 10) n rest
      ∙ ap (λ m. digits m rest) (value_whole n))
]

-- The text starts with a digit.
print_cons :
    (fuel n : ℕ) (c : ℕ) (rest : Text)
    → leb b'0' c ≡ true
    → (d : ℕ) × (t : Text) × (leb b'0' d ≡ true) × (print_digits fuel n (c ∷ rest) ≡ d ∷ t)
unfolding print_digits
print_cons zero n c rest h = (c, rest, h, refl)
print_cons (suc fuel) n c rest h =
    let (d, t, k, e) = print_cons fuel (n / 10) (b'0' + n % 10) (c ∷ rest) (ground arith) in
    elim (Bool-cases (ltb n 10)) [
      | inl below ↦ (b'0' + n % 10, c ∷ rest, ground arith, rw below)
      | inr above ↦ (d, t, k, rw above e)
    ]

print_ℕ_cons : (n : ℕ) → (d : ℕ) × (t : Text) × (leb b'0' d ≡ true) × (print_ℕ n ≡ d ∷ t)
unfolding print_ℕ print_digits
print_ℕ_cons n =
    let (d, t, k, e) = print_cons n (n / 10) (b'0' + n % 10) [] (ground arith) in
    elim (Bool-cases (ltb n 10)) [
      | inl below ↦ (b'0' + n % 10, [], ground arith, rw below)
      | inr above ↦ (d, t, k, rw above e)
    ]

digits-print_ℕ : (n : ℕ) → digits 0 (print_ℕ n) ≡ some n
unfolding print_ℕ
digits-print_ℕ n = digits-print_digits (suc n) n [] (omega arith) ∙ unfold digits in refl

parsed :
    (n d : ℕ) (t : Text)
    → leb b'0' d ≡ true
    → digits 0 (d ∷ t) ≡ some n
    → ltb n (2 ^ 32) ≡ true
    → parse_u32 (d ∷ t) ≡ some n
unfolding parse_u32 number
parsed n d t h e b = let plain : (d == b'+') ≡ false = ground arith in rw (plain, e, b)

-- A number of 32 bits is read back.
pub parse_u32-print_ℕ : (n : ℕ) → ltb n (2 ^ 32) ≡ true → parse_u32 (print_ℕ n) ≡ some n
parse_u32-print_ℕ n b =
    let (d, t, h, e) = print_ℕ_cons n in rw e (parsed n d t h (rw e at (digits-print_ℕ n)) b)

below-lt : (bound : ℕ) (o : Option ℕ) (n : ℕ) → below bound o ≡ some n → ltb n bound ≡ true
below-lt bound none n h = cc
below-lt bound (some m) n h = elim (Bool-cases (ltb m bound)) [
  | inl e ↦ let same : m ≡ n = cc (rw e at h) in rw same at e
  | inr e ↦ absurd (cc (rw e at h))
]

-- What is read has 32 bits.
pub parse_u32-lt : (s : Text) (n : ℕ) → parse_u32 s ≡ some n → ltb n (2 ^ 32) ≡ true
unfolding parse_u32
parse_u32-lt s n h = below-lt (2 ^ 32) (unsigned s) n h
