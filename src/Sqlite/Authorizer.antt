-- ===== src/Sqlite/Authorizer.antt =====
-- sqlite/pool.go, `registerRestrictedDriver`: the authorizer of the restricted driver. SQLite calls
-- it with an operation code and its arguments while it compiles a statement.
pub mod Denied
use sqliteproxy.Base.{
  ◌||◌, Bool, false, List, [], ◌∷◌, Text, String, codes, text_eq, to_lower, if◌then◌else◌,
}

-- The operation codes that the program names, with the argument that it reads.
pub data Operation : Type 0 where
  attach detach : Operation
  pragma : Text → Operation
  function : Text → Operation
  other : Operation

pub data Verdict : Type 0 where
  allow deny : Verdict

abbrev pub is_one_of : Text → List String → Bool
is_one_of t [] = false
is_one_of t (s ∷ ss) = text_eq t (codes s) || is_one_of t ss

abbrev pub allowed_pragmas : List String
allowed_pragmas =
    "writable_schema" ∷ "load_extension" ∷ "vdbe_debug" ∷ "journal_mode" ∷ "busy_timeout"
    ∷ "foreign_keys" ∷ "table_info" ∷ "index_list" ∷ "index_info" ∷ "database_list"
    ∷ "compile_options" ∷ "integrity_check" ∷ "quick_check" ∷ "foreign_key_list" ∷ "table_xinfo"
    ∷ "collation_list" ∷ "function_list" ∷ "module_list" ∷ "pragma_list" ∷ "schema_version"
    ∷ "user_version" ∷ "data_version" ∷ "page_count" ∷ "page_size" ∷ "freelist_count" ∷ "encoding"
    ∷ "cache_size" ∷ "synchronous" ∷ "temp_store" ∷ "locking_mode" ∷ "wal_checkpoint"
    ∷ "application_id" ∷ "auto_vacuum" ∷ "secure_delete" ∷ []

-- `strings.EqualFold`, over ASCII.
abbrev pub equal_fold : Text → Text → Bool
equal_fold a b = text_eq (to_lower a) (to_lower b)

unfoldable pub authorize : Operation → Verdict
authorize attach = deny
authorize detach = deny
authorize (pragma name) = if is_one_of (to_lower name) allowed_pragmas then allow else deny
authorize (function name) = if equal_fold name (codes "load_extension") then deny else allow
authorize other = allow
