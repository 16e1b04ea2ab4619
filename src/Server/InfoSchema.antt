-- ===== src/Server/InfoSchema.antt =====
-- server/infoschema.go: which queries are about `information_schema`, and the conditions that the
-- program reads out of their WHERE clause.
pub mod Conditions
pub mod Columns
use sqliteproxy.Base.{
  ℕ, Bool, true, false, List, [], ◌∷◌, Text, codes, Option, none, some, is_empty, to_lower, text_eq,
  if◌then◌else◌,
}
use sqliteproxy.Base.Dict.{Dict, insert}
use sqliteproxy.Server.Statement.{
  TableRef, joined, joined_left, source, table, other_ref, Operator, eq_op, and_op, other_op, Expr,
  binary, column, value, Datum, get_string, call, other_expr, Select,
}

-- `findInfoSchemaInNode`
unfoldable pub find_info_schema : TableRef → Text
find_info_schema (joined l r) =
    let left = find_info_schema l in
    let right = find_info_schema r in if is_empty left then right else left
find_info_schema (joined_left l) = find_info_schema l
find_info_schema (source n) = find_info_schema n
find_info_schema (table schema name) =
    if text_eq (to_lower schema) (codes "information_schema") then to_lower name else []
find_info_schema other_ref = []

-- `extractInfoSchemaTable`
unfoldable pub extract_info_schema_table : Select → Text
unfolding find_info_schema
extract_info_schema_table s = elim s.from [ none ↦ [] | some refs ↦ find_info_schema refs ]

-- An equation between a column and a value, written either way round: the column's qualifier, its name
-- in lower case, and the value.
abbrev pub equality : Expr → Expr → Option (Text × Text × Datum)
equality (column q c) (value v) = some (q, to_lower c, v)
equality (value v) (column q c) = some (q, to_lower c, v)
equality _ _ = none

-- `collectEqualities` on the map `out`; the qualifier counts for nothing.
unfoldable pub collect_equalities : Expr → Dict Text → Dict Text
unfolding insert
collect_equalities (binary eq_op l r) out = elim (equality l r) [
  | some (q, c, v) ↦ insert c (get_string v) out
  | none ↦ out
]
collect_equalities (binary and_op l r) out = collect_equalities r (collect_equalities l out)
collect_equalities (binary other_op l r) out = out
collect_equalities (column q c) out = out
collect_equalities (value v) out = out
collect_equalities (call f) out = out
collect_equalities other_expr out = out

-- `extractWhereEqualities`
unfoldable pub extract_where_equalities : Option Expr → Dict Text
unfolding collect_equalities
extract_where_equalities none = []
extract_where_equalities (some e) = collect_equalities e []
