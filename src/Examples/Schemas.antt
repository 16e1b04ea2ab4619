-- ===== src/Examples/Schemas.antt =====
-- The conditions of queries about the schema at a concrete WHERE clause.
use sqliteproxy.Base.{
  ◌↔◌, ℕ, suc, ◌≡◌, ◌≢◌, ◌↔◌, ◌+◌, refl, inl, inr, ◌⊎◌, Bool, false, [], ◌∷◌, List, Text, codes,
  text_eq, Option, none, some, if◌then◌else◌, ◌==◌, All, map, length,
}
use sqliteproxy.Server.InfoSchema.Columns.{Equates, IsRead, extract_where_equalities-IsRead}
use sqliteproxy.Server.InfoSchema.{extract_where_equalities}
use sqliteproxy.Server.Statement.{Expr, binary, column, value, string, other_datum, eq_op, and_op}

-- t.TABLE_NAME = 'users' AND ordinal_position = 1
abbrev condition : Expr
condition =
    binary and_op
      (binary eq_op (column (codes "t") (codes "TABLE_NAME")) (value (string (codes "users"))))
      (binary eq_op (column [] (codes "ordinal_position")) (value (other_datum (codes "1"))))

abbrev users_row : Text → Text → Text
users_row q c = codes "users"

conditions_read :
    extract_where_equalities (some condition)
    ≡ (codes "table_name", codes "users") ∷ (codes "ordinal_position", []) ∷ []
unfolding extract_where_equalities sqliteproxy.Base.to_lower sqliteproxy.Base.Dict.insert text_eq
conditions_read = refl

extract_where_equalities-IsRead_example :
    IsRead (codes "table_name") (extract_where_equalities (some condition))
    ↔ Equates (codes "table_name") condition
extract_where_equalities-IsRead_example =
    extract_where_equalities-IsRead (codes "table_name") condition
