-- ===== src/Base/Int.antt =====
-- Go's signed `int` and `time.Duration`, as far as the program uses them: a test of the sign, a
-- quotient rounded towards zero, and the decimal text. `negsuc n` is -(n + 1).
use sqliteproxy.Base.{
  ℕ, zero, suc, ◌+◌, ◌/◌, ◌%◌, ◌∷◌, [], Bool, true, false, Text, ltb, if◌then◌else◌,
}

pub data ℤ : Type 0 where
  pos : ℕ → ℤ
  negsuc : ℕ → ℤ

-- `n <= 0`
abbrev pub is_nonpositive : ℤ → Bool
is_nonpositive (pos zero) = true
is_nonpositive (pos (suc n)) = false
is_nonpositive (negsuc n) = true

-- A quotient by a positive number.
abbrev pub quot : ℤ → ℕ → ℤ
quot (pos n) d = pos (n / d)
quot (negsuc n) d = elim (suc n / d) [ zero ↦ pos 0 | suc q ↦ negsuc q ]

-- The greater of 1 and `n`.
abbrev pub at_least_one : ℤ → ℤ
at_least_one n = if is_nonpositive n then pos 1 else n

-- Decimal digits; a number has no more digits than the fuel `suc n` that `decimal` gives.
unfoldable pub decimal_digits : ℕ → ℕ → Text → Text
decimal_digits zero n rest = rest
decimal_digits (suc fuel) n rest =
    let digit = b'0' + n % 10 in
    let more = decimal_digits fuel (n / 10) (digit ∷ rest) in
    if ltb n 10 then digit ∷ rest else more

unfoldable pub decimal : ℕ → Text
unfolding decimal_digits
decimal n = decimal_digits (suc n) n []

-- `%d`
unfoldable pub format_int : ℤ → Text
unfolding decimal
format_int (pos n) = decimal n
format_int (negsuc n) = b'-' ∷ decimal (suc n)
