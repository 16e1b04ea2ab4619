-- ===== src/Server/Statement.antt =====
-- The syntax trees of the SQL parser, as far as server/handler.go and server/infoschema.go take them
-- apart: a type switch becomes a match.
use sqliteproxy.Base.{[], List, Text, Option}
use sqliteproxy.Effect.{Result}

-- `*ast.Join` with and without a right side, `*ast.TableSource`, `*ast.TableName`, and the rest.
pub data TableRef : Type 0 where
  joined : TableRef → TableRef → TableRef
  joined_left : TableRef → TableRef
  source : TableRef → TableRef
  table : Text → Text → TableRef
  other_ref : TableRef

pub data Operator : Type 0 where
  eq_op and_op other_op : Operator

-- The value of a literal: the bytes of a string, or a value of another kind, such as a number, by its text.
pub data Datum : Type 0 where
  string : Text → Datum
  other_datum : Text → Datum

-- `GetString`, which reads the bytes of a string; a value of another kind has none.
abbrev pub get_string : Datum → Text
get_string (string t) = t
get_string (other_datum t) = []

-- `*ast.BinaryOperationExpr`, `*ast.ColumnNameExpr` with its qualifier, `*test_driver.ValueExpr`, `*ast.FuncCallExpr`.
pub data Expr : Type 0 where
  binary : Operator → Expr → Expr → Expr
  column : Text → Text → Expr
  value : Datum → Expr
  call : Text → Expr
  other_expr : Expr

-- The parts of a `*ast.SelectStmt` that the program reads; each may be nil.
pub record Select : Type 0 where
  pub fields : Option (List Expr)
  pub from : Option TableRef
  pub condition : Option Expr

pub data Kind : Type 0 where
  use_stmt : Text → Kind
  show_databases show_other : Kind
  select_stmt : Select → Kind
  begin_stmt commit_stmt rollback_stmt : Kind
  insert_stmt update_stmt delete_stmt : Kind
  other_stmt : Kind

-- A statement with its `Text()` and with what `Restore` writes.
pub record Stmt : Type 0 where
  pub kind : Kind
  pub text : Text
  pub restored : Result Text

-- What `safeParseSQL` returns; a panic of the parser is an error.
abbrev pub Parser : Type 0
Parser = Text → Result (List Stmt)
