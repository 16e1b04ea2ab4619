-- ===== src/Translator/Commands.antt =====
-- translator/translator.go, `handleSpecialCommands` with `translateTransaction` and `translateSet`:
-- the commands that the translator answers without rewriting them. A command that is none of them
-- is `none`, the program's `"", false`.
pub mod Dropped
use sqliteproxy.Base.{
  ℕ, Bool, true, false, ◌||◌, [], ◌∷◌, List, Text, String, codes, concat, Option, none, some,
  text_eq, has_prefix, contains, to_upper, trim_space, trim_of, drop, if◌then◌else◌, ◌==◌,
}

abbrev pub no_op : Text
no_op = codes "SELECT 1"

abbrev pub equals_one : Text → List String → Bool
equals_one t [] = false
equals_one t (s ∷ ss) = text_eq t (codes s) || equals_one t ss

abbrev pub starts_with_one : Text → List String → Bool
starts_with_one t [] = false
starts_with_one t (s ∷ ss) = has_prefix (codes s) t || starts_with_one t ss

abbrev pub contains_one : Text → List String → Bool
contains_one t [] = false
contains_one t (s ∷ ss) = contains (codes s) t || contains_one t ss

-- `translateTransaction`
unfoldable pub translate_transaction : Text → Text → Option Text
translate_transaction sql upper =
    if equals_one upper ("START TRANSACTION" ∷ "BEGIN" ∷ "BEGIN WORK" ∷ [])
    then some (codes "BEGIN TRANSACTION")
    else if equals_one upper ("COMMIT" ∷ "COMMIT WORK" ∷ [])
    then some (codes "COMMIT")
    else if equals_one upper ("ROLLBACK" ∷ "ROLLBACK WORK" ∷ [])
    then some (codes "ROLLBACK")
    else if has_prefix (codes "SAVEPOINT ") upper
    then some sql
    else if has_prefix (codes "RELEASE SAVEPOINT ") upper
    then some sql
    else if starts_with_one upper ("ROLLBACK TO SAVEPOINT " ∷ "ROLLBACK WORK TO SAVEPOINT " ∷ [])
    then some sql
    else if contains (codes "SET TRANSACTION") upper
    then some no_op
    else none

abbrev pub ignored_settings : List String
ignored_settings =
    "AUTOCOMMIT" ∷ "TRANSACTION ISOLATION" ∷ "SQL_MODE" ∷ "TIME_ZONE" ∷ "CHARACTER_SET"
    ∷ "COLLATION" ∷ []

-- `translateSet`
unfoldable pub translate_set : Text → Text
translate_set sql =
    let upper = to_upper sql in
    if starts_with_one upper ("SET NAMES" ∷ "SET CHARACTER SET" ∷ "SET CHARSET" ∷ [])
    then no_op
    else if starts_with_one upper ("SET SESSION" ∷ "SET GLOBAL" ∷ [])
    then no_op
    else if contains_one upper ignored_settings
    then no_op
    else sql

abbrev pub is_quote : ℕ → Bool
is_quote c = c == b'`' || c == b'"' || c == b'\''

-- `strings.Trim(strings.TrimSpace(sql[n:]), …)`
abbrev pub table_after : ℕ → Text → Text
table_after n sql = trim_of is_quote (trim_space (drop n sql))

abbrev pub pragma : Text → Text → Text
pragma name table = concat (codes "PRAGMA " ∷ name ∷ codes "('" ∷ table ∷ codes "')" ∷ [])

abbrev pub list_tables : Text
list_tables = codes "SELECT name FROM sqlite_master WHERE type='table' AND name NOT LIKE 'sqlite_%'"

abbrev pub show_create : Text → Text
show_create table =
    concat
      (codes "SELECT sql FROM sqlite_master WHERE type='table' AND name='" ∷ table ∷ codes "'" ∷ [])

-- `handleSpecialCommands` behind the SHOW and DESCRIBE commands.
unfoldable pub settings_and_transactions : Text → Text → Option Text
unfolding translate_set translate_transaction
settings_and_transactions sql upper =
    if has_prefix (codes "SET ") upper
    then some (translate_set sql)
    else translate_transaction sql upper

-- `handleSpecialCommands`, with the statement in capitals.
unfoldable pub answer_command : Text → Text → Option Text
unfolding settings_and_transactions
answer_command sql upper =
    if equals_one upper ("SHOW TABLES" ∷ "SHOW FULL TABLES" ∷ [])
    then some list_tables
    else if has_prefix (codes "SHOW CREATE TABLE ") upper
    then some (show_create (trim_space (drop 18 sql)))
    else if has_prefix (codes "DESCRIBE ") upper
    then some (pragma (codes "table_info") (table_after 9 sql))
    else if has_prefix (codes "DESC ") upper
    then some (pragma (codes "table_info") (table_after 5 sql))
    else if has_prefix (codes "SHOW INDEX FROM ") upper
    then some (pragma (codes "index_list") (table_after 16 sql))
    else if has_prefix (codes "SHOW KEYS FROM ") upper
    then some (pragma (codes "index_list") (table_after 15 sql))
    else if has_prefix (codes "SHOW COLUMNS FROM ") upper
    then some (pragma (codes "table_info") (table_after 18 sql))
    else if equals_one upper ("SHOW WARNINGS" ∷ "SHOW ERRORS" ∷ [])
    then some (codes "SELECT 1 LIMIT 0")
    else settings_and_transactions sql upper

unfoldable pub handle_special_commands : Text → Option Text
unfolding answer_command
handle_special_commands sql = answer_command sql (to_upper sql)
