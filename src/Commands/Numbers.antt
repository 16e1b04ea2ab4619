-- ===== src/Commands/Numbers.antt =====
-- The parts of strconv and fmt that cmd/ reads numbers and tests with: `Atoi`, `ParseBool`, and `Sscanf`
-- with `%d`, on bytes.
use sqliteproxy.Base.{
  ℕ, zero, suc, ◌+◌, ◌-◌, ◌*◌, ◌^◌, Bool, true, false, ◌&&◌, ◌||◌, Text, codes, Option, none, some,
  List, [], ◌∷◌, text_eq, is_empty, is_space, ltb, leb, ◌==◌, if◌then◌else◌,
}
use sqliteproxy.Base.Int.{ℤ, pos, negsuc}

abbrev is_digit : ℕ → Bool
is_digit c = leb b'0' c && leb c b'9'

abbrev all_digits : Text → Bool
all_digits [] = true
all_digits (c ∷ s) = is_digit c && all_digits s

-- The digits at the start of a text.
unfoldable pub leading_digits : Text → Text
leading_digits [] = []
leading_digits (c ∷ s) = if is_digit c then c ∷ leading_digits s else []

abbrev value : ℕ → Text → ℕ
value n [] = n
value n (c ∷ s) = value (n * 10 + (c - b'0')) s

-- A number that an `int` of 64 bits holds.
abbrev signed : Bool → ℕ → Option ℤ
signed false n = if ltb n (2 ^ 63) then some (pos n) else none
signed true zero = some (pos 0)
signed true (suc n) = if ltb n (2 ^ 63) then some (negsuc n) else none

abbrev unsigned : Text → Bool × Text
unsigned [] = (false, [])
unsigned (c ∷ s) = if c == b'-' then (true, s) else if c == b'+' then (false, s) else (false, c ∷ s)

abbrev number : Bool → Text → Option ℤ
number minus digits = if is_empty digits then none else signed minus (value 0 digits)

-- `strconv.Atoi`
unfoldable pub atoi : Text → Option ℤ
atoi s = let (minus, digits) = unsigned s in if all_digits digits then number minus digits else none

-- The blanks that `Sscanf` skips; a line's end among them is an error.
unfoldable pub skip_blanks : Text → Option Text
unfolding is_space
skip_blanks [] = none
skip_blanks (c ∷ s) =
    if c == b'\n' then none else if is_space c then skip_blanks s else some (c ∷ s)

-- `fmt.Sscanf(s, "%d", &n)`: what is written to `n`, if anything is. What follows the digits is not read.
unfoldable pub sscan_int : Text → Option ℤ
unfolding skip_blanks leading_digits
sscan_int s = elim (skip_blanks s) [
  | none ↦ none
  | some t ↦ let (minus, rest) = unsigned t in number minus (leading_digits rest)
]

abbrev one_of : List Text → Text → Bool
unfolding text_eq
one_of [] s = false
one_of (w ∷ ws) s = text_eq w s || one_of ws s

-- `strconv.ParseBool`
unfoldable pub parse_bool : Text → Option Bool
unfolding text_eq
parse_bool s =
    if one_of (codes "1" ∷ codes "t" ∷ codes "T" ∷ codes "true" ∷ codes "TRUE" ∷ codes "True" ∷ [])
      s
    then some true
    else if one_of
        (codes "0" ∷ codes "f" ∷ codes "F" ∷ codes "false" ∷ codes "FALSE" ∷ codes "False" ∷ []) s
    then some false
    else none
