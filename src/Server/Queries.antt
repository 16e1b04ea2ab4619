-- ===== src/Server/Queries.antt =====
-- server/handler.go: what the handler reads off a statement and its text.
use sqliteproxy.Base.{
  Bool, true, false, ◌||◌, [], ◌∷◌, List, Text, codes, none, some, text_eq, if◌then◌else◌, ◌==◌,
  has_prefix, to_upper, trim_space,
}
use sqliteproxy.Base.Dict.{Dict, lookup}
use sqliteproxy.Server.Statement.{Stmt, show_databases, show_other, select_stmt, Select, Expr, call}

abbrev pub lookup_text : Text → Dict Text → Text
lookup_text k m = elim (lookup k m) [ none ↦ [] | some v ↦ v ]

-- `strings.ReplaceAll(s, "'", "''")`
unfoldable pub double_quotes : Text → Text
double_quotes [] = []
double_quotes (c ∷ s) = if c == b'\'' then b'\'' ∷ b'\'' ∷ double_quotes s else c ∷ double_quotes s

-- `isQueryType`
unfoldable pub is_query_type : Text → Bool
is_query_type sql =
    let upper = to_upper (trim_space sql) in
    has_prefix (codes "SELECT") upper
    || has_prefix (codes "PRAGMA") upper
    || has_prefix (codes "SHOW") upper
    || has_prefix (codes "DESCRIBE") upper
    || has_prefix (codes "DESC") upper
    || has_prefix (codes "EXPLAIN") upper

-- `isQueryStmt`
abbrev pub is_query_stmt : Stmt → Bool
is_query_stmt s = elim s.kind [
  | select_stmt _ ↦ true
  | show_databases ↦ true
  | show_other ↦ true
  | _ ↦ is_query_type s.text
]

abbrev calls_database : List Expr → Bool
calls_database [] = false
calls_database (e ∷ es) = elim e [
  | call f ↦ text_eq f (codes "database") || calls_database es
  | _ ↦ calls_database es
]

-- `isSelectDatabase`; the parser gives the function's name in lower case.
abbrev pub is_select_database : Select → Bool
is_select_database s = elim s.fields [ none ↦ false | some es ↦ calls_database es ]
