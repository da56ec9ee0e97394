-- ===== src/Text/Split.antt =====
-- `str::split`, `str::split_once`, `str::lines` and `join`.
use qrmi.Prelude.{
  ℕ, zero, suc, ◌-◌, List, [], ◌∷◌, ◌++◌, Option, none, some, ◌==◌, if◌then◌else◌, is_empty, length,
  Bool, false, not,
}
use qrmi.Text.Chars.{Text, starts_with, ends_with, without_last, is_whitespace}

abbrev pub push : ℕ → List Text → List Text
push c [] = (c ∷ []) ∷ []
push c (p ∷ ps) = (c ∷ p) ∷ ps

-- The pieces between the matches of a separator that is not empty; the number is how many chars of
-- a match are still to be passed over.
unfoldable pub pieces : Text → ℕ → Text → List Text
pieces sep k [] = [] ∷ []
pieces sep (suc k) (c ∷ s) = pieces sep k s
pieces sep zero (c ∷ s) =
    let ended = [] ∷ pieces sep (length sep - 1) s in
    let extended = push c (pieces sep zero s) in if starts_with sep (c ∷ s) then ended else extended

-- An empty separator matches between all chars, and at both ends.
abbrev singles : Text → List Text
singles [] = [] ∷ []
singles (c ∷ s) = (c ∷ []) ∷ singles s

-- `str::split`.
unfoldable pub split : Text → Text → List Text
unfolding pieces starts_with
split [] s = [] ∷ singles s
split (x ∷ sep) s = pieces (x ∷ sep) 0 s

-- `[str]::join`.
unfoldable pub join : Text → List Text → Text
join sep [] = []
join sep (p ∷ []) = p
join sep (p ∷ q ∷ ps) = p ++ sep ++ join sep (q ∷ ps)

-- `str::split_once` at a char.
unfoldable pub split_once : ℕ → Text → Option (Text × Text)
split_once x [] = none
split_once x (c ∷ s) =
    let rest = split_once x s in
    if c == x then some ([], s) else elim rest [ none ↦ none | some (k, v) ↦ some (c ∷ k, v) ]

abbrev pub strip_cr : Text → Text
strip_cr s = if ends_with b'\r' s then without_last s else s

abbrev pub ended_lines : List Text → List Text
ended_lines [] = []
ended_lines (p ∷ []) = if is_empty p then [] else p ∷ []
ended_lines (p ∷ q ∷ ps) = strip_cr p ∷ ended_lines (q ∷ ps)

-- `str::lines`: a newline ends a line, and takes a carriage return before it along; what stands
-- behind the last newline is a line only if it is not empty.
unfoldable pub lines : Text → List Text
unfolding pieces starts_with ends_with without_last
lines s = ended_lines (pieces (b'\n' ∷ []) 0 s)

abbrev starts_word : Text → Bool
starts_word [] = false
starts_word (c ∷ s) = not (is_whitespace c)

-- `str::split_whitespace`.
unfoldable pub split_whitespace : Text → List Text
unfolding is_whitespace
split_whitespace [] = []
split_whitespace (c ∷ s) =
    let rest = split_whitespace s in
    if is_whitespace c then rest else if starts_word s then push c rest else (c ∷ []) ∷ rest
