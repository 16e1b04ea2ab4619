-- ===== src/Translator/Tables.antt =====
-- translator/translator.go, `translateDDL` and the functions it calls: CREATE TABLE, CREATE INDEX
-- and ALTER TABLE.
pub mod Modify
pub mod Restored
use sqliteproxy.Base.{
  to_upper_byte, ℕ, Bool, not, ◌||◌, [], ◌∷◌, ◌++◌, List, Text, String, codes, concat, Option, none,
  some, is_empty, has_prefix, contains, to_upper, if◌then◌else◌, ◌==◌,
}
use sqliteproxy.Regexp.{
  Regex, Groups, empty, byte, chain, either, many, group, boundary, text_start, text_end, is_blank,
  is_one_of, word, all_of, some_of, optional, blank, digit, word_byte, one_of, none_of,
}
use sqliteproxy.Regexp.Replace.{group_of, replace_all, find_all, find_submatch}
use sqliteproxy.Translator.Commands.{starts_with_one}
use sqliteproxy.Translator.Options.{remove_option}
use sqliteproxy.Translator.Types.{TypeMap, translate_column_types}

-- `name\s*=\s*value`
abbrev pub setting : Regex → Regex → Regex
setting name value = all_of (name ∷ many blank ∷ word "=" ∷ many blank ∷ value ∷ [])

abbrev pub charset : Regex
charset = all_of (
    word "DEFAULT"
    ∷ some_of blank
    ∷ group 1
        (either (word "CHARSET") (all_of (word "CHARACTER" ∷ some_of blank ∷ word "SET" ∷ [])))
    ∷ [])

-- The six calls of `removeOption`.
unfoldable pub remove_table_options : Text → Text
unfolding remove_option to_upper_byte
remove_table_options sql =
    let sql = remove_option sql (setting (word "ENGINE") (some_of word_byte)) in
    let sql = remove_option sql (setting charset (some_of word_byte)) in
    let sql = remove_option sql (setting (word "COLLATE") (some_of word_byte)) in
    let sql = remove_option sql (setting (word "AUTO_INCREMENT") (some_of digit)) in
    let sql = remove_option sql (setting (word "ROW_FORMAT") (some_of word_byte)) in
    remove_option sql
      (setting (word "COMMENT") (all_of (word "'" ∷ many (none_of "'") ∷ word "'" ∷ [])))

-- `\s*\(([^)]+)\)`
abbrev pub columns : ℕ → Regex
columns k = all_of (many blank ∷ word "(" ∷ group k (some_of (none_of ")")) ∷ word ")" ∷ [])

abbrev pub unique_index : Regex
unique_index = all_of (
    word "UNIQUE"
    ∷ some_of blank
    ∷ word "INDEX"
    ∷ some_of blank
    ∷ one_of "`\""
    ∷ some_of (none_of "`\"")
    ∷ one_of "\"`"
    ∷ columns 1
    ∷ [])

abbrev pub restored_unique : Regex
restored_unique = all_of (
    boundary
    ∷ word "unique"
    ∷ some_of blank
    ∷ word "\""
    ∷ some_of (none_of "\"")
    ∷ word "\""
    ∷ columns 1
    ∷ [])

abbrev pub inline_index : Regex
inline_index = all_of (
    optional (group 1 (all_of (word "," ∷ many blank ∷ [])))
    ∷ word "INDEX"
    ∷ some_of blank
    ∷ one_of "`\""
    ∷ group 2 (some_of (none_of "`\""))
    ∷ one_of "\"`"
    ∷ columns 3
    ∷ [])

abbrev pub created_table : Regex
created_table = all_of (
    word "CREATE"
    ∷ some_of blank
    ∷ word "TABLE"
    ∷ some_of blank
    ∷ optional (
        all_of (
          word "IF"
          ∷ some_of blank
          ∷ word "NOT"
          ∷ some_of blank
          ∷ word "EXISTS"
          ∷ some_of blank
          ∷ []))
    ∷ optional (one_of "`\"")
    ∷ group 1 (some_of (byte (λ c. not (is_one_of (codes "`\"(") c || is_blank c))))
    ∷ optional (one_of "\"`")
    ∷ [])

abbrev pub unique_columns : Groups → Text
unique_columns gs = concat (codes "UNIQUE(" ∷ group_of 1 gs ∷ codes ")" ∷ [])

-- `translateAutoIncrement`
unfoldable pub translate_auto_increment : Text → Text
unfolding replace_all is_blank
translate_auto_increment sql =
    replace_all (all_of (some_of blank ∷ word "AUTO_INCREMENT" ∷ boundary ∷ [])) (λ _. []) sql

abbrev pub table_name : Option Groups → Text
table_name none = []
table_name (some gs) = group_of 1 gs

-- The loop that appends a CREATE INDEX for each index that was taken out.
unfoldable pub append_indexes : Text → List Groups → Text → Text
append_indexes table [] sql = sql
append_indexes table (gs ∷ found) sql = append_indexes table found (
    sql
    ++ concat (
        codes "; CREATE INDEX IF NOT EXISTS `"
        ∷ group_of 2 gs
        ∷ codes "` ON `"
        ∷ table
        ∷ codes "` ("
        ∷ group_of 3 gs
        ∷ codes ")"
        ∷ []))

-- `translateCreateTable`
unfoldable pub translate_create_table : TypeMap → Text → Text
unfolding remove_table_options replace_all find_all find_submatch is_blank translate_column_types
    translate_auto_increment append_indexes
translate_create_table order sql =
    let sql = remove_table_options sql in
    let sql = replace_all unique_index unique_columns sql in
    let sql = replace_all restored_unique unique_columns sql in
    let indexes = find_all inline_index sql in
    let sql = replace_all inline_index (λ _. []) sql in
    let table = table_name (find_submatch created_table sql) in
    let sql = translate_auto_increment (translate_column_types order sql) in
    if is_empty table then sql else append_indexes table indexes sql

-- `translateCreateIndex`
unfoldable pub translate_create_index : Text → Text
unfolding remove_option is_blank
translate_create_index sql =
    remove_option sql
      (all_of (word "USING" ∷ some_of blank ∷ group 1 (either (word "BTREE") (word "HASH")) ∷ []))

-- `.`
abbrev pub in_line : ℕ → Bool
in_line c = not (c == 10)

-- "`?(\w+)`?"
abbrev pub name_at : ℕ → Regex
name_at k = all_of (optional (word "`") ∷ group k (some_of word_byte) ∷ optional (word "`") ∷ [])

abbrev pub modify_column : Regex
modify_column = all_of (
    text_start
    ∷ word "ALTER"
    ∷ some_of blank
    ∷ word "TABLE"
    ∷ some_of blank
    ∷ name_at 1
    ∷ some_of blank
    ∷ word "MODIFY"
    ∷ some_of blank
    ∷ word "COLUMN"
    ∷ some_of blank
    ∷ name_at 2
    ∷ some_of blank
    ∷ group 3 (many (byte in_line))
    ∷ text_end
    ∷ [])

abbrev pub marker_of : Text → Option Groups → Text
marker_of sql none = sql
marker_of sql (some gs) = concat (
    codes "-- RECONSTRUCT_TABLE: "
    ∷ group_of 1 gs
    ∷ codes " MODIFY "
    ∷ group_of 2 gs
    ∷ codes " "
    ∷ group_of 3 gs
    ∷ [])

-- `translateAlterTable`; behind its first test every branch returns the statement as it is.
unfoldable pub translate_alter_table : Text → Text
unfolding find_submatch is_blank
translate_alter_table sql = marker_of sql (find_submatch modify_column sql)

-- `translateDDL`, with the statement in capitals.
unfoldable pub translate_definition : TypeMap → Text → Text → Text
unfolding translate_create_table translate_create_index translate_alter_table
translate_definition order sql upper =
    if not (starts_with_one upper ("CREATE " ∷ "ALTER " ∷ "DROP " ∷ []))
    then sql
    else if starts_with_one upper ("CREATE TABLE" ∷ "CREATE TEMPORARY TABLE" ∷ [])
    then translate_create_table order sql
    else if starts_with_one upper ("CREATE INDEX" ∷ "CREATE UNIQUE INDEX" ∷ [])
    then translate_create_index sql
    else if has_prefix (codes "ALTER TABLE") upper
    then translate_alter_table sql
    else sql

unfoldable pub translate_ddl : TypeMap → Text → Text
unfolding translate_definition
translate_ddl order sql = translate_definition order sql (to_upper sql)
