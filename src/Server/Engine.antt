-- ===== src/Server/Engine.antt =====
-- The SQL engine behind one tenant's pool, as server/handler.go calls it through `database/sql`. A
-- statement runs on a connection, in a transaction, or on the pool itself.
use sqliteproxy.Base.{ℕ, List, Text, Option}
use sqliteproxy.Errors.{Error}
use sqliteproxy.Effect.{Result}
use sqliteproxy.Server.Session.{Conn, Tx}

pub data Target : Type 0 where
  on_conn : Conn → Target
  in_tx : Tx → Target
  on_pool : ℕ → Target

-- The handle of the pool that a statement reaches.
abbrev pub reaches : Target → ℕ
reaches (on_conn c) = c.pool_handle
reaches (in_tx t) = t.conn.pool_handle
reaches (on_pool h) = h

-- A row of `PRAGMA table_info`; `default` is the `sql.NullString` of its default value.
pub record ColumnInfo : Type 0 where
  pub name : Text
  pub type : Text
  pub not_null : ℕ
  pub default : Option Text
  pub primary_key : ℕ

-- A value in a row that the program builds itself.
pub data Cell : Type 0 where
  null : Cell
  text : Text → Cell
  num : ℕ → Cell

-- `ResultSet` is what the MySQL library makes of the rows; `counts` stands for the two numbers of a
-- `sql.Result` as unsigned 64-bit integers.
pub record Engine : Type 1 where
  pub State : Type 0
  pub ResultSet : Type 0
  pub Args : Type 0
  pub acquire : ℕ → State → Result ℕ × State
  pub begin_tx : Conn → State → Result ℕ × State
  pub commit_tx : Tx → State → Option Error × State
  pub rollback_tx : Tx → State → Option Error × State
  pub close_conn : Conn → State → Option Error × State
  -- `QueryContext` followed by the reading of all rows, which is in Server.Resultset
  pub query : Target → Text → State → Result ResultSet × State
  -- `ExecContext`: the affected rows and the inserted id
  pub exec : Target → Text → State → Result (ℕ × ℕ) × State
  -- `PrepareContext`, and the calls of a `*sql.Stmt`
  pub prepare : Target → Text → State → Result ℕ × State
  pub column_count : ℕ → State → Result ℕ × State
  pub stmt_query : ℕ → Args → State → Result ResultSet × State
  pub stmt_exec : ℕ → Args → State → Result (ℕ × ℕ) × State
  pub stmt_close : ℕ → State → Option Error × State
  -- reading all rows of `PRAGMA table_info`, of a query for names, and of a query for a count
  pub table_info : Target → Text → State → Result (List ColumnInfo) × State
  pub names : Target → Text → State → Result (List Text) × State
  pub count_rows : Target → Text → Text → State → Result ℕ × State
  -- `mysql.BuildSimpleResultset`, of the column names and the rows
  pub build : List Text → List (List Cell) → Result ResultSet
