-- ===== src/Server/InfoSchema/Conditions.antt =====
-- server/infoschema.go: the conditions read from a WHERE clause, against the rows that satisfy it.
use sqliteproxy.Base.{◌≡◌, ◌≢◌, Bool, ◌&&◌, [], Text, none, some, text_eq}
use sqliteproxy.Base.Dict.{Dict, lookup}
use sqliteproxy.Server.InfoSchema.{equality}
use sqliteproxy.Server.Statement.{
  eq_op, and_op, other_op, Expr, binary, column, value, string, other_datum, call, other_expr,
}

-- A row of the joined tables: the text of each column, by its qualifier and its name in lower case.
abbrev pub RowOf : Type 0
RowOf = Text → Text → Text

-- Each condition with a value that is not empty is met by a column of that name under some qualifier.
abbrev pub Meets : RowOf → Dict Text → Type 0
Meets row conditions =
    (k v : Text) → lookup k conditions ≡ some v → v ≢ [] → (q : Text) × (row q k ≡ v)

-- Whether a row satisfies an expression. A conjunction needs both of its sides, an equation between
-- a column and a string compares them, and `unknown` says how any other expression turns out, an
-- equation with a number among them.
unfoldable pub satisfies : RowOf → (Expr → Bool) → Expr → Bool
satisfies row unknown (binary and_op l r) = satisfies row unknown l && satisfies row unknown r
satisfies row unknown (binary eq_op l r) = elim (equality l r) [
  | some (q, c, string v) ↦ text_eq (row q c) v
  | some (q, c, other_datum v) ↦ unknown (binary eq_op l r)
  | none ↦ unknown (binary eq_op l r)
]
satisfies row unknown (binary other_op l r) = unknown (binary other_op l r)
satisfies row unknown (column q c) = unknown (column q c)
satisfies row unknown (value v) = unknown (value v)
satisfies row unknown (call f) = unknown (call f)
satisfies row unknown other_expr = unknown other_expr
