-- ===== src/Translator/Rows.antt =====
-- translator/translator.go, `translateDML` and the functions it calls: SELECT, INSERT, UPDATE and
-- DELETE.
pub mod Limit
use sqliteproxy.Base.{
  to_upper_byte, not, [], ◌∷◌, List, Text, String, codes, concat, has_prefix, to_upper,
  if◌then◌else◌, ◌==◌,
}
use sqliteproxy.Regexp.{
  Regex, Groups, byte, either, many, group, boundary, text_end, is_blank, word, all_of, some_of,
  optional, blank, digit, none_of, whole_word,
}
use sqliteproxy.Regexp.Replace.{group_of, replace_all}
use sqliteproxy.Translator.Options.{remove_option}

abbrev pub limit_pair : Regex
limit_pair = all_of (
    word "LIMIT"
    ∷ some_of blank
    ∷ group 1 (some_of digit)
    ∷ many blank
    ∷ word ","
    ∷ many blank
    ∷ group 2 (some_of digit)
    ∷ [])

abbrev pub count_offset : Groups → Text
count_offset gs = concat (codes "LIMIT " ∷ group_of 2 gs ∷ codes " OFFSET " ∷ group_of 1 gs ∷ [])

-- `translateLimitSyntax`
unfoldable pub translate_limit_syntax : Text → Text
unfolding replace_all is_blank
translate_limit_syntax sql = replace_all limit_pair count_offset sql

-- `translateBoolean`
unfoldable pub translate_boolean : Text → Text
unfolding replace_all to_upper_byte
translate_boolean sql =
    let sql = replace_all (whole_word (codes "TRUE")) (λ _. codes "1") sql in
    replace_all (whole_word (codes "FALSE")) (λ _. codes "0") sql

-- `INDEX\s*(\([^)]*\))?`
abbrev pub index_list : Regex
index_list = all_of (
    word "INDEX"
    ∷ many blank
    ∷ optional (group 2 (all_of (word "(" ∷ many (none_of ")") ∷ word ")" ∷ [])))
    ∷ [])

abbrev pub index_hint : Regex
index_hint = all_of (
    group 1 (either (word "FORCE") (either (word "USE") (word "IGNORE")))
    ∷ some_of blank
    ∷ index_list
    ∷ [])

unfoldable pub translate_select : Text → Text
unfolding translate_limit_syntax remove_option translate_boolean is_blank to_upper_byte
translate_select sql = translate_boolean (remove_option (translate_limit_syntax sql) index_hint)

abbrev pub duplicate_clause : Regex
duplicate_clause = all_of (
    some_of blank
    ∷ word "ON"
    ∷ some_of blank
    ∷ word "DUPLICATE"
    ∷ some_of blank
    ∷ word "KEY"
    ∷ some_of blank
    ∷ word "UPDATE"
    ∷ some_of blank
    ∷ many (byte (λ c. not (c == 10)))
    ∷ text_end
    ∷ [])

-- `removeOnDuplicateKeyUpdate`
unfoldable pub remove_on_duplicate_key_update : Text → Text
unfolding replace_all is_blank
remove_on_duplicate_key_update sql = replace_all duplicate_clause (λ _. []) sql

unfoldable pub translate_insert : Text → Text
unfolding remove_on_duplicate_key_update
translate_insert sql = remove_on_duplicate_key_update sql

-- The calls of `removeOption` with one keyword each.
abbrev pub remove_words : List String → Text → Text
remove_words [] sql = sql
remove_words (w ∷ ws) sql = remove_words ws (remove_option sql (whole_word (codes w)))

abbrev pub forced_index : Regex
forced_index = all_of (word "FORCE" ∷ some_of blank ∷ index_list ∷ [])

unfoldable pub translate_update : Text → Text
unfolding remove_option is_blank
translate_update sql =
    remove_option (remove_words ("LOW_PRIORITY" ∷ "IGNORE" ∷ []) sql) forced_index

unfoldable pub translate_delete : Text → Text
unfolding remove_option to_upper_byte
translate_delete sql = remove_words ("LOW_PRIORITY" ∷ "QUICK" ∷ "IGNORE" ∷ []) sql

-- `translateDML`, with the statement in capitals.
unfoldable pub translate_verb : Text → Text → Text
unfolding translate_select translate_insert translate_update translate_delete
translate_verb sql upper =
    if has_prefix (codes "SELECT") upper
    then translate_select sql
    else if has_prefix (codes "INSERT") upper
    then translate_insert sql
    else if has_prefix (codes "UPDATE") upper
    then translate_update sql
    else if has_prefix (codes "DELETE") upper
    then translate_delete sql
    else sql

unfoldable pub translate_dml : Text → Text
unfolding translate_verb
translate_dml sql = translate_verb sql (to_upper sql)
