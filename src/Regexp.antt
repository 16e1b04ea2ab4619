-- ===== src/Regexp.antt =====
-- Go's package `regexp` for the expressions that the translator uses, on bytes: an expression as a
-- data type, and the search for its matches in Go's order of preference (leftmost, then the first
-- branch and the longest repetition).
pub mod Relation
pub mod Replace
pub mod Lacking
pub mod Preferred
pub mod Words
pub mod Replacement
pub mod Renaming
pub mod Leading
use sqliteproxy.Base.{
  ℕ, zero, suc, Bool, true, false, not, ◌||◌, ◌&&◌, [], ◌∷◌, ◌++◌, List, map, Text, String, codes,
  is_empty, Option, none, some, to_upper_byte, take, length, leb, ltb, ◌==◌, if◌then◌else◌, ◌-◌,
}

pub data Regex : Type 0 where
  empty : Regex
  byte : (ℕ → Bool) → Regex
  chain : Regex → Regex → Regex
  either : Regex → Regex → Regex
  many : Regex → Regex
  group : ℕ → Regex → Regex
  boundary text_start text_end : Regex

-- The texts that the groups took, the latest first.
abbrev pub Groups : Type 0
Groups = List (ℕ × Text)

-- A position in the text: the byte before it, the text from it on, and the groups that are set.
pub record Place : Type 0 where
  pub before : Option ℕ
  pub rest : Text
  pub groups : Groups

-- `[0-9A-Za-z_]`
unfoldable pub is_word : ℕ → Bool
is_word c =
    leb b'0' c && leb c b'9' || leb b'A' c && leb c b'Z' || leb b'a' c && leb c b'z' || c == b'_'

abbrev pub word_before : Option ℕ → Bool
word_before none = false
word_before (some c) = is_word c

abbrev pub word_after : Text → Bool
word_after [] = false
word_after (c ∷ s) = is_word c

-- `\b`
abbrev pub at_boundary : Place → Bool
at_boundary p = if word_before p.before then not (word_after p.rest) else word_after p.rest

abbrev pub at_start : Option ℕ → Bool
at_start none = true
at_start (some _) = false

abbrev pub captured : ℕ → Place → Place → Place
captured k p q = record q { groups = (k, take (length p.rest - length q.rest) p.rest) ∷ q.groups }

unfoldable pub take_byte : (ℕ → Bool) → Option ℕ → Text → Groups → List Place
take_byte test before [] gs = []
take_byte test before (c ∷ s) gs =
    if test c then record { before = some c; rest = s; groups = gs } ∷ [] else []

unfoldable pub each : (Place → List Place) → List Place → List Place
each f [] = []
each f (p ∷ ps) = f p ++ each f ps

-- The repetitions of `body` that take something, the longest first.
unfoldable pub repeat : ℕ → (Place → List Place) → Place → List Place
unfolding each
repeat zero body p = p ∷ []
repeat (suc n) body p =
    each
      (λ q. let more = repeat n body q in if ltb (length q.rest) (length p.rest) then more else [])
      (body p)
    ++ p ∷ []

-- The matches of an expression at a place, the preferred ones first.
unfoldable pub runs : Regex → Place → List Place
unfolding take_byte each repeat is_word
runs empty p = p ∷ []
runs (byte test) p = take_byte test p.before p.rest p.groups
runs (chain a b) p = each (runs b) (runs a p)
runs (either a b) p = runs a p ++ runs b p
runs (many a) p = repeat (length p.rest) (runs a) p
runs (group k a) p = map (captured k p) (runs a p)
runs boundary p = if at_boundary p then p ∷ [] else []
runs text_start p = if at_start p.before then p ∷ [] else []
runs text_end p = if is_empty p.rest then p ∷ [] else []

-- The notations that the program's patterns use.
abbrev pub folds : ℕ → ℕ → Bool
folds c b = to_upper_byte b == to_upper_byte c

abbrev pub text_of : Text → Regex
text_of [] = empty
text_of (c ∷ s) = chain (byte (folds c)) (text_of s)

-- A literal under `(?i)`.
abbrev pub word : String → Regex
word s = text_of (codes s)

-- `(?i)\b…\b`
abbrev pub whole_word : Text → Regex
whole_word t = chain boundary (chain (text_of t) boundary)

abbrev pub all_of : List Regex → Regex
all_of [] = empty
all_of (a ∷ es) = chain a (all_of es)

-- `a+` and `a?`
abbrev pub some_of : Regex → Regex
some_of a = chain a (many a)

abbrev pub optional : Regex → Regex
optional a = either a empty

-- `\s`, which has no vertical tab.
unfoldable pub is_blank : ℕ → Bool
is_blank c = c == 9 || c == 10 || c == 12 || c == 13 || c == b' '

abbrev pub is_digit : ℕ → Bool
is_digit c = leb b'0' c && leb c b'9'

abbrev pub blank : Regex
blank = byte is_blank

abbrev pub digit : Regex
digit = byte is_digit

abbrev pub word_byte : Regex
word_byte = byte is_word

abbrev pub is_one_of : Text → ℕ → Bool
is_one_of [] c = false
is_one_of (b ∷ bs) c = c == b || is_one_of bs c

-- `[…]` and `[^…]`
abbrev pub one_of : String → Regex
one_of s = byte (is_one_of (codes s))

abbrev pub none_of : String → Regex
none_of s = byte (λ c. not (is_one_of (codes s) c))
