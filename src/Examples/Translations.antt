-- ===== src/Examples/Translations.antt =====
-- The translator at concrete statements.
use sqliteproxy.Base.{
  [], ◌∷◌, List, ◌≡◌, refl, Text, codes, String, drop, In, inl, inr, true, false, arith, Option,
  some, none,
}
use sqliteproxy.Regexp.{is_blank, is_word}
use sqliteproxy.Regexp.Words.{map_words}
use sqliteproxy.Server.Handler.Marker.{reconstruct_marker}
use sqliteproxy.Translator.Types.{Entry, TypeMap, IsOrder, default_type_map, translate_column_types}
use sqliteproxy.Translator.Types.Order.{to_sqlite_type, translate_column_types-words}
use sqliteproxy.Translator.Options.{normalize_whitespace}
use sqliteproxy.Translator.Tables.{translate_ddl, translate_alter_table}
use sqliteproxy.Translator.Tables.Modify.{
  Modification, IsModification, translate_alter_table-marker,
}
use sqliteproxy.Translator.Tables.Restored.{translate_ddl-restored}
use sqliteproxy.Translator.Rows.{translate_limit_syntax, translate_dml}
use sqliteproxy.Translator.Rows.Limit.{Pair, IsPair, translate_limit_syntax-pair}
use sqliteproxy.Translator.Functions.{translate_functions, translate_character_set_introducers}
use sqliteproxy.Translator.Translate.{translate}
use sqliteproxy.Translator.Unchanged.Statement.{translate-plain}

normalize_runs : normalize_whitespace (codes "  SELECT   1 ") ≡ codes "SELECT 1"
unfolding normalize_whitespace
normalize_runs = refl

limit_runs :
    translate_limit_syntax (codes "select 1 limit 10 , 20;") ≡ codes "select 1 LIMIT 20 OFFSET 10;"
unfolding translate_limit_syntax sqliteproxy.Base.to_upper_byte
limit_runs = refl

types_run :
    translate_column_types default_type_map (codes "(a int(11), b set)")
    ≡ codes "(a INTEGER(11), b TEXT)"
unfolding translate_column_types
types_run = refl

introducer_runs :
    translate_character_set_introducers (codes "x = _utf8mb4'a\\'b''c' y")
    ≡ codes "x = 'a\\'b''c' y"
unfolding translate_character_set_introducers
introducer_runs = refl

functions_run :
    translate_functions (codes "SELECT CONCAT(a, b), now()")
    ≡ codes "SELECT (a || b), datetime('now')"
unfolding translate_functions
functions_run = refl

date_runs :
    translate_functions (codes "date_format(d,'%Y %i:%s')") ≡ codes "strftime('%Y %M:%s', d)"
unfolding translate_functions sqliteproxy.Translator.Functions.convert_date_format
date_runs = refl

modify_runs :
    translate_ddl default_type_map (codes "ALTER TABLE `t` MODIFY COLUMN c int not null")
    ≡ codes "-- RECONSTRUCT_TABLE: t MODIFY c int not null"
unfolding translate_ddl sqliteproxy.Base.has_prefix sqliteproxy.Base.to_upper
modify_runs = refl

-- A column that has the name of a type is renamed.
renamed_column :
    translate_ddl default_type_map (codes "create table t (`date` datetime)")
    ≡ codes "create table t (`TEXT` TEXT)"
unfolding translate_ddl sqliteproxy.Base.has_prefix sqliteproxy.Base.to_upper
renamed_column = refl

index_runs :
    translate_ddl default_type_map
      (codes "CREATE TABLE t (a int, INDEX `i` (a)) ENGINE=InnoDB DEFAULT CHARSET=utf8")
    ≡ codes "CREATE TABLE t (a INTEGER); CREATE INDEX IF NOT EXISTS `i` ON `t` (a)"
unfolding translate_ddl sqliteproxy.Base.has_prefix sqliteproxy.Base.to_upper
index_runs = refl

-- The words TRUE and FALSE of a string literal are replaced too.
literal_changed : translate_dml (codes "select 'true'") ≡ codes "select '1'"
unfolding translate_dml sqliteproxy.Base.has_prefix sqliteproxy.Base.to_upper
literal_changed = refl

-- A statement in SQLite's own words is not left as it is.
version_twice :
    translate_functions (codes "select sqlite_version()") ≡ codes "select sqlite_sqlite_version()"
unfolding translate_functions
version_twice = refl

three_arguments : translate_functions (codes "concat(a, b, c)") ≡ codes "(a || b, c)"
unfolding translate_functions
three_arguments = refl

-- Blanks in a string literal are data, and are lost.
blanks_lost :
    translate default_type_map (codes "insert into t values ('a  b')")
    ≡ codes "insert into t values ('a b')"
unfolding translate sqliteproxy.Base.text_eq sqliteproxy.Base.to_upper sqliteproxy.Base.has_prefix
    sqliteproxy.Base.contains
blanks_lost = refl

-- The map visited with its second entry first.
abbrev other_order : TypeMap
other_order = ("SMALLINT", "INTEGER") ∷ ("TINYINT", "INTEGER") ∷ drop 2 default_type_map

exchanged : (e x y : Entry) (es : TypeMap) → In e (x ∷ y ∷ es) → In e (y ∷ x ∷ es)
exchanged e x y es (inl p) = inr (inl p)
exchanged e x y es (inr (inl p)) = inl p
exchanged e x y es (inr (inr i)) = inr (inr i)

other_order-IsOrder : IsOrder other_order
other_order-IsOrder e =
    let small : Entry = ("SMALLINT", "INTEGER") in
    let tiny : Entry = ("TINYINT", "INTEGER") in
    let rest = drop 2 default_type_map in (exchanged e small tiny rest, exchanged e tiny small rest)

translate_column_types-words_example :
    translate_column_types other_order (codes "(a smallint, b set)")
    ≡ map_words to_sqlite_type (codes "(a smallint, b set)")
translate_column_types-words_example =
    translate_column_types-words other_order (codes "(a smallint, b set)") other_order-IsOrder

backticks_stay : translate other_order (codes "select `a` from `t`") ≡ codes "select `a` from `t`"
unfolding translate sqliteproxy.Base.text_eq sqliteproxy.Base.to_upper sqliteproxy.Base.has_prefix
    sqliteproxy.Base.contains
backticks_stay = refl

translate-plain_example :
    translate other_order (codes "select a, b from t where c = 'x'")
    ≡ codes "select a, b from t where c = 'x'"
unfolding normalize_whitespace sqliteproxy.Base.has_prefix sqliteproxy.Base.to_upper
    sqliteproxy.Base.contains
translate-plain_example =
    translate-plain other_order (codes "select a, b from t where c = 'x'") refl
      (
        (refl, (refl, (refl, (refl, (refl, (refl, (refl, (refl, tt)))))))),
        inl refl,
        inl refl,
        ground arith,
      )
      refl refl

abbrev pair : Pair
pair = record {
  keyword = codes "limit";
  gap = codes " ";
  offset = codes "10";
  before_comma = [];
  after_comma = codes " ";
  count = codes "20";
}

pair-IsPair : IsPair pair
unfolding sqliteproxy.Base.to_upper is_blank
pair-IsPair = record {
  is_limit = refl;
  some_gap = λ e. ground (arith, e);
  blank_gap = (refl, tt);
  is_offset = ((λ e. ground (arith, e)), (refl, (refl, tt)));
  blank_before = tt;
  blank_after = (refl, tt);
  is_count = ((λ e. ground (arith, e)), (refl, (refl, tt)));
}

translate_limit_syntax-pair_example :
    translate_limit_syntax (codes "select 1 limit 10, 20;") ≡ codes "select 1 LIMIT 20 OFFSET 10;"
unfolding sqliteproxy.Base.contains sqliteproxy.Base.to_upper
translate_limit_syntax-pair_example =
    translate_limit_syntax-pair (codes "select 1 ") pair (codes ";") refl pair-IsPair refl refl

abbrev modification : Modification
modification = record {
  alter = codes "alter";
  table = codes "table";
  table_quoted = true;
  table_name = codes "t";
  modify = codes "modify";
  column = codes "column";
  column_quoted = false;
  column_name = codes "c";
  definition = codes "bigint not null";
}

modification-IsModification : IsModification modification
unfolding sqliteproxy.Base.to_upper is_word is_blank
modification-IsModification = record {
  is_alter = refl;
  is_table = refl;
  is_modify = refl;
  is_column = refl;
  is_table_name = ((λ e. ground (arith, e)), (refl, tt));
  is_column_name = ((λ e. ground (arith, e)), (refl, tt));
  is_line = ground arith;
  no_blank = refl;
}

translate_alter_table-marker_example :
    translate_alter_table (codes "alter table `t` modify column c bigint not null")
    ≡ reconstruct_marker (codes "t") (codes "c") (codes "bigint not null")
translate_alter_table-marker_example =
    translate_alter_table-marker modification modification-IsModification

translate_ddl-restored_example :
    translate_ddl other_order (codes "alter table \"t\" modify column \"c\" bigint")
    ≡ codes "alter table \"t\" modify column \"c\" bigint"
translate_ddl-restored_example =
    translate_ddl-restored other_order (codes "t\" modify column \"c\" bigint")
