-- ===== src/Translator/Functions.antt =====
-- translator/translator.go, `translateFunctions` and the functions it calls, and
-- `translateCharacterSetIntroducers`.
use sqliteproxy.Base.{
  to_upper_byte, ℕ, zero, suc, Bool, true, false, not, ◌||◌, ◌&&◌, [], ◌∷◌, ◌++◌, Text, codes,
  concat, length, Option, none, some, has_prefix, leb, ◌==◌, ◌-◌,
}
use sqliteproxy.Regexp.{
  Regex, Groups, byte, either, many, group, is_blank, word, all_of, some_of, blank, none_of,
}
use sqliteproxy.Regexp.Replace.{group_of, replace_all, find_submatch}
use sqliteproxy.Translator.Options.{replace_function}

abbrev pub concat_call : Regex
concat_call = all_of (
    word "CONCAT"
    ∷ many blank
    ∷ word "("
    ∷ group 1 (some_of (none_of ","))
    ∷ word ","
    ∷ many blank
    ∷ group 2 (some_of (none_of ")"))
    ∷ word ")"
    ∷ [])

abbrev pub joined : Groups → Text
joined gs = concat (codes "(" ∷ group_of 1 gs ∷ codes " || " ∷ group_of 2 gs ∷ codes ")" ∷ [])

-- `translateConcat`
unfoldable pub translate_concat : Text → Text
unfolding replace_all is_blank
translate_concat sql = replace_all concat_call joined sql

abbrev pub from_unixtime_call : Regex
from_unixtime_call =
    all_of (
      word "FROM_UNIXTIME"
      ∷ many blank
      ∷ word "("
      ∷ group 1 (some_of (none_of ")"))
      ∷ word ")"
      ∷ [])

abbrev pub from_epoch : Groups → Text
from_epoch gs = concat (codes "datetime(" ∷ group_of 1 gs ∷ codes ", 'unixepoch')" ∷ [])

-- `translateFromUnixtime`
unfoldable pub translate_from_unixtime : Text → Text
unfolding replace_all is_blank
translate_from_unixtime sql = replace_all from_unixtime_call from_epoch sql

-- `strings.ReplaceAll`, for an `old` that is not empty; `skip` bytes are still part of a match.
unfoldable pub replace_text : Text → Text → ℕ → Text → Text
unfolding has_prefix
replace_text old new skip [] = []
replace_text old new (suc n) (c ∷ s) = replace_text old new n s
replace_text old new zero (c ∷ s) = elim (has_prefix old (c ∷ s)) [
  | true ↦ new ++ replace_text old new (length old - 1) s
  | false ↦ c ∷ replace_text old new 0 s
]

unfoldable pub convert_date_format : Text → Text
unfolding replace_text
convert_date_format format = replace_text (codes "%i") (codes "%M") 0 format

abbrev pub date_format_call : Regex
date_format_call = all_of (
    word "DATE_FORMAT"
    ∷ many blank
    ∷ word "("
    ∷ group 1 (some_of (none_of ","))
    ∷ word ","
    ∷ many blank
    ∷ word "'"
    ∷ group 2 (some_of (none_of "'"))
    ∷ word "')"
    ∷ [])

-- The function that `translateDateFormat` gives to `ReplaceAllStringFunc`.
abbrev pub strftime_of : Text → Option Groups → Text
strftime_of whole none = whole
strftime_of whole (some gs) = concat (
    codes "strftime('"
    ∷ convert_date_format (group_of 2 gs)
    ∷ codes "', "
    ∷ group_of 1 gs
    ∷ codes ")"
    ∷ [])

abbrev pub strftime : Groups → Text
strftime gs = let whole = group_of 0 gs in strftime_of whole (find_submatch date_format_call whole)

-- `translateDateFormat`
unfoldable pub translate_date_format : Text → Text
unfolding replace_all find_submatch is_blank to_upper_byte
translate_date_format sql = replace_all date_format_call strftime sql

unfoldable pub translate_functions : Text → Text
unfolding replace_function translate_concat translate_from_unixtime translate_date_format
    to_upper_byte
translate_functions sql =
    let sql = replace_function sql (word "NOW()") "datetime('now')" in
    let sql = replace_function sql (word "CURDATE()") "date('now')" in
    let sql = replace_function sql (word "CURTIME()") "time('now')" in
    let sql = translate_concat sql in
    let sql = replace_function sql (word "UNIX_TIMESTAMP()") "strftime('%s','now')" in
    let sql = translate_from_unixtime sql in
    let sql = translate_date_format sql in
    replace_function sql (word "VERSION()") "sqlite_version()"

-- `[a-z0-9]` under `(?i)`
abbrev is_charset_byte : ℕ → Bool
is_charset_byte c = leb b'0' c && leb c b'9' || leb b'A' c && leb c b'Z' || leb b'a' c && leb c b'z'

-- `'(?:[^'\\]|\\.|'')*'`
abbrev pub string_literal : Regex
string_literal = all_of (
    word "'"
    ∷ many (
        either (none_of "'\\")
          (either (all_of (word "\\" ∷ byte (λ c. not (c == 10)) ∷ [])) (word "''")))
    ∷ word "'"
    ∷ [])

abbrev pub introducer : Regex
introducer = all_of (word "_" ∷ some_of (byte is_charset_byte) ∷ group 1 string_literal ∷ [])

-- `translateCharacterSetIntroducers`
unfoldable pub translate_character_set_introducers : Text → Text
unfolding replace_all to_upper_byte
translate_character_set_introducers sql = replace_all introducer (λ gs. group_of 1 gs) sql
