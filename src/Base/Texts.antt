-- ===== src/Base/Texts.antt =====
-- Go's strings as lists of bytes, with the functions of package `strings` that the program calls.
-- Letters and spaces are ASCII: no byte of 128 or more is a letter or a space.
use Prim.Native.Char.{code}
use Prim.Native.Nat.{ℕ, ◌+◌, ◌-◌}
use Prim.Native.String.{String}
use mathlib.Core.Bool.{Bool, true, false, ◌&&◌, ◌||◌}
use mathlib.Core.List.{List, [], ◌∷◌, ◌++◌, map, reverse}
use mathlib.Core.Logic.{◌↔◌, ◌≢◌}
use mathlib.Core.Path.{◌≡◌, refl}
use native.Mathlib.Omega.{arith}
use sqliteproxy.Base.Tests.{leb, ◌==◌, if◌then◌else◌}

abbrev pub Text : Type 0
Text = List ℕ

-- The bytes of an ASCII literal.
abbrev pub codes : String → Text
codes String.[] = []
codes (String.◌∷◌ c s) = code c ∷ codes s

unfoldable pub text_eq : Text → Text → Bool
text_eq [] [] = true
text_eq (x ∷ xs) (y ∷ ys) = x == y && text_eq xs ys
text_eq _ _ = false

pub text_eq_iff : (a b : Text) → (text_eq a b ≡ true) ↔ (a ≡ b)
unfolding text_eq
text_eq_iff (x ∷ xs) (y ∷ ys) = ground (arith, text_eq_iff xs ys)
text_eq_iff _ _ = ground arith

pub text_eq_refl : (a : Text) → text_eq a a ≡ true
text_eq_refl a = (text_eq_iff a a).1 refl

pub text_eq_ne : (a b : Text) → a ≢ b → text_eq a b ≡ false
text_eq_ne a b h = ground (arith, text_eq_iff a b)

-- `s == ""`
abbrev pub is_empty : Text → Bool
is_empty [] = true
is_empty (_ ∷ _) = false

pub is_empty_iff : (a : Text) → (is_empty a ≡ true) ↔ (a ≡ [])
is_empty_iff [] = ground arith
is_empty_iff (x ∷ xs) = ground arith

-- `strings.HasPrefix(s, prefix)`, the prefix first.
unfoldable pub has_prefix : Text → Text → Bool
has_prefix [] s = true
has_prefix (p ∷ ps) [] = false
has_prefix (p ∷ ps) (c ∷ s) = p == c && has_prefix ps s

unfoldable pub has_suffix : Text → Text → Bool
unfolding has_prefix
has_suffix p s = has_prefix (reverse p) (reverse s)

-- `strings.Contains(s, sub)`, the part looked for first.
unfoldable pub contains : Text → Text → Bool
unfolding has_prefix
contains p [] = is_empty p
contains p (c ∷ s) = has_prefix p (c ∷ s) || contains p s

unfoldable pub to_upper_byte : ℕ → ℕ
to_upper_byte c = if leb b'a' c && leb c b'z' then c - 32 else c

unfoldable pub to_lower_byte : ℕ → ℕ
to_lower_byte c = if leb b'A' c && leb c b'Z' then c + 32 else c

unfoldable pub to_upper : Text → Text
unfolding to_upper_byte
to_upper = map to_upper_byte

unfoldable pub to_lower : Text → Text
unfolding to_lower_byte
to_lower = map to_lower_byte

-- `unicode.IsSpace` below 128: the tab, the line ends and the blank.
unfoldable pub is_space : ℕ → Bool
is_space c = leb 9 c && leb c 13 || c == b' '

-- Drop the leading bytes of a set. One structural call, whatever the test says.
unfoldable pub trim_left_of : (ℕ → Bool) → Text → Text
trim_left_of drops [] = []
trim_left_of drops (c ∷ s) = elim (drops c) [ true ↦ trim_left_of drops s | false ↦ c ∷ s ]

-- `strings.Trim(s, cutset)`
unfoldable pub trim_of : (ℕ → Bool) → Text → Text
unfolding trim_left_of
trim_of drops s = reverse (trim_left_of drops (reverse (trim_left_of drops s)))

unfoldable pub trim_left : Text → Text
unfolding trim_left_of is_space
trim_left = trim_left_of is_space

-- `strings.TrimSpace`
unfoldable pub trim_space : Text → Text
unfolding trim_of is_space
trim_space = trim_of is_space

-- Pieces joined with nothing between them: a chain of `+`.
abbrev pub concat : List Text → Text
concat [] = []
concat (t ∷ ts) = t ++ concat ts
