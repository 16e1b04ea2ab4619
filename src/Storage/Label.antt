-- ===== src/Storage/Label.antt =====
-- storage/store.go, `normalizeLabel`.
pub mod Normal
use sqliteproxy.Base.{
  ℕ, ◌≡◌, refl, ◌≤◌, Bool, true, false, ◌||◌, ◌&&◌, [], ◌∷◌, Text, codes, is_empty, trim_space,
  length, ltb, leb, if◌then◌else◌, ◌==◌, arith,
}
use sqliteproxy.Errors.{invalid_label, annotated, is_invalid_label}
use sqliteproxy.Effect.{Result, ok, err}

abbrev pub max_label_len : ℕ
max_label_len = 128

-- `unicode.IsControl` of some rune: a byte below 32, the byte 127, or one of U+0080 to U+009F, which
-- UTF-8 writes as the byte 0xC2 and a byte from 0x80 to 0x9F.
unfoldable pub has_control : Text → Bool
has_control [] = false
has_control (c ∷ []) = ltb c 32 || c == 127
has_control (c ∷ d ∷ s) =
    ltb c 32 || c == 127 || (c == 0xC2 && leb 0x80 d && leb d 0x9F) || has_control (d ∷ s)

-- `normalizeLabel` on the trimmed label.
unfoldable pub check_label : Text → Result Text
unfolding has_control
check_label trimmed =
    if is_empty trimmed
    then ok []
    else if ltb max_label_len (length trimmed)
    then err (annotated invalid_label (codes "max length is 128"))
    else if has_control trimmed
    then err (annotated invalid_label (codes "control characters are not allowed"))
    else ok trimmed

unfoldable pub normalize_label : Text → Result Text
unfolding check_label trim_space
normalize_label label = check_label (trim_space label)
