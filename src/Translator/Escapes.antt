-- ===== src/Translator/Escapes.antt =====
-- translator/translator.go, `translateStringEscapes`: quotes inside string literals.
pub mod Literals
use sqliteproxy.Base.{ℕ, Bool, true, false, not, ◌&&◌, [], ◌∷◌, Text, ◌==◌, if◌then◌else◌}

abbrev pub quote : ℕ
quote = b'\''

abbrev pub backslash : ℕ
backslash = b'\\'

-- What one pass of the loop does at a byte that another byte follows.
pub data Move : Type 0 where
  opens closes writes : Move
  doubles : Move

unfoldable pub next_move : Bool → ℕ → ℕ → Move
next_move in_string c d =
    if c == quote
    then if not in_string then opens else if d == quote then doubles else closes
    else if c == backslash && in_string && d == quote
    then doubles
    else writes

-- The loop; `doubles` writes two quotes and takes two bytes, every other pass writes the byte.
unfoldable pub escape_from : Bool → Text → Text
unfolding next_move
escape_from in_string [] = []
escape_from in_string (c ∷ []) = c ∷ []
escape_from in_string (c ∷ d ∷ s) = elim (next_move in_string c d) [
  | opens ↦ c ∷ escape_from true (d ∷ s)
  | closes ↦ c ∷ escape_from false (d ∷ s)
  | doubles ↦ quote ∷ quote ∷ escape_from in_string s
  | writes ↦ c ∷ escape_from in_string (d ∷ s)
]

unfoldable pub translate_string_escapes : Text → Text
unfolding escape_from
translate_string_escapes sql = escape_from false sql
