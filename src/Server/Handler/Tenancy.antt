-- ===== src/Server/Handler/Tenancy.antt =====
-- server/handler.go: the rules for the actions that run one statement.
use sqliteproxy.Base.{◌≡◌, ap, inl, inr, Bool, true, false, List, Text, arith, if◌then◌else◌}
use sqliteproxy.Base.Dict.{Dict}
use sqliteproxy.Errors.{Error}
use sqliteproxy.Effect.{Action, Result-cases}
use sqliteproxy.Server.Engine.{Engine, on_pool, Cell}
use sqliteproxy.Server.Handler.InfoQueries.{
  query_tables, query_columns, list_tables, count_table, describe_table, answer, swallow,
}
use sqliteproxy.Server.Handler.Isolation.{
  Ensures, Any, Own, pure-Ensures, fail-Ensures, bind-Ensures, issue-Ensures, engine_call-Ensures,
  of_result-Ensures, tenant-Ensures, session_target-Ensures, ensure_connection-Ensures,
}
use sqliteproxy.Server.Handler.{
  Client, Reply, done, rows, counts, query, exec, handle_begin, handle_commit, handle_rollback,
  select_database, show_tenant, reply_rows, reads, refuse_if, session_conn, start_transaction,
}
use sqliteproxy.Server.Session.{Conn, Tx}
use sqliteproxy.Server.Statement.{Select}
use sqliteproxy.Storage.{Database}

module _ (E : Engine) (d : Database) where
  pub query-Ensures : (sql : Text) → Ensures E d Any (query E sql)
  unfolding query
  query-Ensures sql = bind-Ensures E d Any Any _ _ (ensure_connection-Ensures E d) λ _ _.
      bind-Ensures E d (Own d) Any _ _ (session_target-Ensures E d) λ t own.
        bind-Ensures E d Any Any _ _ (issue-Ensures E d t sql (E.query t sql) own)
          λ s _. pure-Ensures E d Any (rows s) tt

  pub exec-Ensures : (sql : Text) → Ensures E d Any (exec E sql)
  unfolding exec
  exec-Ensures sql = bind-Ensures E d Any Any _ _ (ensure_connection-Ensures E d) λ _ _.
      bind-Ensures E d (Own d) Any _ _ (session_target-Ensures E d) λ t own.
        bind-Ensures E d Any Any _ _ (issue-Ensures E d t sql (E.exec t sql) own)
          λ r _. pure-Ensures E d Any (counts r.0 r.1) tt

  reads-Ensures : {A : Type 0} (f : Client E → A) → Ensures E d Any (reads E f)
  unfolding reads
  reads-Ensures f = record { holds = λ c v. (v, λ a e. tt) }

  refuse_if-Ensures : (test : Bool) (e : Error) → Ensures E d Any (refuse_if E test e)
  unfolding refuse_if
  refuse_if-Ensures true e = fail-Ensures E d Any e
  refuse_if-Ensures false e = pure-Ensures E d Any tt tt

  abbrev OwnsConn : Conn → Type 0
  OwnsConn k = k.pool_handle ≡ d.pool.handle

  session_conn-Ensures : Ensures E d OwnsConn (session_conn E)
  unfolding session_conn
  session_conn-Ensures = record { holds = λ c v. (ground arith, λ a e. ground arith) }

  start_transaction-Ensures : (t : Tx) → OwnsConn t.conn → Ensures E d Any (start_transaction E t)
  unfolding start_transaction
  start_transaction-Ensures t own = record { holds = λ c v. (ground arith, λ a e. tt) }

  pub handle_begin-Ensures : Ensures E d Any (handle_begin E)
  unfolding handle_begin
  handle_begin-Ensures = bind-Ensures E d Any Any _ _ (reads-Ensures _) λ busy _.
      bind-Ensures E d Any Any _ _ (refuse_if-Ensures busy _) λ _ _.
        bind-Ensures E d Any Any _ _ (ensure_connection-Ensures E d) λ _ _.
          bind-Ensures E d OwnsConn Any _ _ session_conn-Ensures λ k own.
            bind-Ensures E d Any Any _ _ (engine_call-Ensures E d _) λ n _.
              bind-Ensures E d Any Any _ _ (start_transaction-Ensures _ own)
                λ _ _. pure-Ensures E d Any done tt

  pub handle_commit-Ensures : Ensures E d Any (handle_commit E)
  unfolding handle_commit
  handle_commit-Ensures = record { holds = λ c v. (ground arith, λ a e. tt) }

  pub handle_rollback-Ensures : Ensures E d Any (handle_rollback E)
  unfolding handle_rollback
  handle_rollback-Ensures = record { holds = λ c v. (ground arith, λ a e. tt) }

  pub select_database-Ensures : (name : Text) → Ensures E d Any (select_database E name)
  unfolding select_database
  select_database-Ensures name = record { holds = λ c v. (ground arith, λ a e. tt) }

  reply_rows-Ensures :
      (columns : List Text) (cells : List (List Cell))
      → Ensures E d Any (reply_rows E columns cells)
  unfolding reply_rows
  reply_rows-Ensures columns cells =
      bind-Ensures E d Any Any _ _ (of_result-Ensures E d (E.build columns cells))
        λ set _. pure-Ensures E d Any (rows set) tt

  pub show_tenant-Ensures : (column : Text) → Ensures E d Any (show_tenant E column)
  unfolding show_tenant
  show_tenant-Ensures column =
      bind-Ensures E d (λ x. x ≡ d) Any _ _ (tenant-Ensures E d) λ x _. reply_rows-Ensures _ _

  -- A statement on the pool of the client's database.
  abbrev pub pool_own : (x : Database) → x ≡ d → Own d (on_pool x.pool.handle)
  pool_own x e = ap (λ y. y.pool.handle) e

  pub if-Ensures :
      {A : Type 0} (test : Bool) (m n : Action (Client E) A)
      → Ensures E d Any m
      → Ensures E d Any n
      → Ensures E d Any (if test then m else n)
  if-Ensures true m n p q = p
  if-Ensures false m n p q = q

  list_tables-Ensures : (x : Database) → x ≡ d → Ensures E d Any (list_tables E x.pool.handle)
  unfolding list_tables
  list_tables-Ensures x e =
      bind-Ensures E d Any Any _ _ (issue-Ensures E d _ _ _ (pool_own x e))
        λ ns _. reply_rows-Ensures _ _

  count_table-Ensures :
      (x : Database) (name : Text) → x ≡ d → Ensures E d Any (count_table E x.pool.handle name)
  unfolding count_table
  count_table-Ensures x name e =
      bind-Ensures E d Any Any _ _ (issue-Ensures E d _ _ _ (pool_own x e))
        λ n _. reply_rows-Ensures _ _

  describe_table-Ensures :
      (x : Database) (name : Text) → x ≡ d → Ensures E d Any (describe_table E x.pool.handle name)
  unfolding describe_table
  describe_table-Ensures x name e =
      bind-Ensures E d Any Any _ _ (issue-Ensures E d _ _ _ (pool_own x e))
        λ infos _. reply_rows-Ensures _ _

  query_tables-Ensures : (conditions : Dict Text) → Ensures E d Any (query_tables E conditions)
  unfolding query_tables
  query_tables-Ensures conditions =
      bind-Ensures E d (λ x. x ≡ d) Any _ _ (tenant-Ensures E d)
        λ x e.
          if-Ensures _ _ _ (pure-Ensures E d Any done tt)
            (if-Ensures _ _ _ (list_tables-Ensures x e) (count_table-Ensures x _ e))

  query_columns-Ensures : (conditions : Dict Text) → Ensures E d Any (query_columns E conditions)
  unfolding query_columns
  query_columns-Ensures conditions =
      bind-Ensures E d (λ x. x ≡ d) Any _ _ (tenant-Ensures E d)
        λ x e.
          if-Ensures _ _ _ (pure-Ensures E d Any done tt)
            (if-Ensures _ _ _ (pure-Ensures E d Any done tt) (describe_table-Ensures x _ e))

  swallow-Ensures :
      (m : Action (Client E) (Reply E)) → Ensures E d Any m → Ensures E d Any (swallow E m)
  unfolding swallow
  swallow-Ensures m p = record {
    holds = λ c v. elim (Result-cases (m c).0) [
      | inl (r, e) ↦ rw (e, swallow) ((p.holds c v).0, λ a x. tt)
      | inr (r, e) ↦ rw (e, swallow) ((p.holds c v).0, λ a x. tt)
    ];
  }

  pub answer-Ensures : (s : Select) → Ensures E d Any (answer E s)
  unfolding answer
  answer-Ensures s = if-Ensures _ _ _ (swallow-Ensures _ (query_tables-Ensures _)) (
      if-Ensures _ _ _ (swallow-Ensures _ (query_columns-Ensures _)) (
        if-Ensures _ _ _ (swallow-Ensures _ (show_tenant-Ensures _))
          (pure-Ensures E d Any done tt)))
