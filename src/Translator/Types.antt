-- ===== src/Translator/Types.antt =====
-- translator/translator.go, `defaultTypeMap` and `translateColumnTypes`. The order in which `range`
-- visits the map is the argument `order`, since Go leaves it open.
pub mod Order
use sqliteproxy.Base.{to_upper_byte, [], ◌∷◌, List, Text, String, codes, In, ◌↔◌}
use sqliteproxy.Regexp.{whole_word}
use sqliteproxy.Regexp.Replace.{replace_all}

abbrev pub Entry : Type 0
Entry = String × String

abbrev pub TypeMap : Type 0
TypeMap = List Entry

abbrev pub default_type_map : TypeMap
default_type_map =
    ("TINYINT", "INTEGER")
    ∷ ("SMALLINT", "INTEGER")
    ∷ ("MEDIUMINT", "INTEGER")
    ∷ ("INT", "INTEGER")
    ∷ ("INTEGER", "INTEGER")
    ∷ ("BIGINT", "INTEGER")
    ∷ ("FLOAT", "REAL")
    ∷ ("DOUBLE", "REAL")
    ∷ ("DECIMAL", "REAL")
    ∷ ("NUMERIC", "REAL")
    ∷ ("VARCHAR", "TEXT")
    ∷ ("CHAR", "TEXT")
    ∷ ("TINYTEXT", "TEXT")
    ∷ ("TEXT", "TEXT")
    ∷ ("MEDIUMTEXT", "TEXT")
    ∷ ("LONGTEXT", "TEXT")
    ∷ ("ENUM", "TEXT")
    ∷ ("SET", "TEXT")
    ∷ ("VARBINARY", "BLOB")
    ∷ ("BINARY", "BLOB")
    ∷ ("TINYBLOB", "BLOB")
    ∷ ("BLOB", "BLOB")
    ∷ ("MEDIUMBLOB", "BLOB")
    ∷ ("LONGBLOB", "BLOB")
    ∷ ("DATE", "TEXT")
    ∷ ("TIME", "TEXT")
    ∷ ("DATETIME", "TEXT")
    ∷ ("TIMESTAMP", "TEXT")
    ∷ ("YEAR", "INTEGER")
    ∷ ("BOOLEAN", "INTEGER")
    ∷ ("BOOL", "INTEGER")
    ∷ ("JSON", "TEXT")
    ∷ []

unfoldable pub translate_column_types : TypeMap → Text → Text
unfolding replace_all to_upper_byte
translate_column_types [] sql = sql
translate_column_types ((mysql_type, sqlite_type) ∷ order) sql =
    translate_column_types order
      (replace_all (whole_word (codes mysql_type)) (λ _. codes sqlite_type) sql)

-- The orders in which the map may be visited: lists with its entries.
abbrev pub IsOrder : TypeMap → Type 0
IsOrder order = (e : Entry) → In e order ↔ In e default_type_map
