-- ===== src/Server/Handler/Statements.antt =====
-- server/handler.go: the rules for a query, from the reconstruction of a table to `HandleQuery`.
use sqliteproxy.Base.{
  ℕ, ◌≡◌, inl, inr, [], ◌∷◌, List, Text, Option, none, some, arith, if◌then◌else◌,
}
use sqliteproxy.Effect.{Result, ok, err, Result-cases}
use sqliteproxy.Server.Engine.{Engine, ColumnInfo}
use sqliteproxy.Server.Handler.Dispatch.{
  execute_kind, execute_translated, execute_all, handle_translated, handle_first, handle_query,
  handle_parsed, translated,
}
use sqliteproxy.Server.Handler.Isolation.{
  Ensures, Any, pure-Ensures, fail-Ensures, bind-Ensures, tenant-Ensures,
}
use sqliteproxy.Server.Handler.Marker.{Parts, parse_marker}
use sqliteproxy.Server.Handler.Reconstruct.{
  reconstruct, run_sql, copy_rows, need_columns, read_columns, rebuild, reconstruct_parts,
}
use sqliteproxy.Server.Handler.{Reply, done, Translator, query, exec, issue}
use sqliteproxy.Server.Handler.Tenancy.{
  query-Ensures, exec-Ensures, handle_begin-Ensures, handle_commit-Ensures, handle_rollback-Ensures,
  select_database-Ensures, show_tenant-Ensures, if-Ensures, answer-Ensures, pool_own,
}
use sqliteproxy.Server.Queries.{is_query_type}
use sqliteproxy.Server.Statement.{
  Parser, Stmt, Kind, use_stmt, show_databases, show_other, select_stmt, begin_stmt, commit_stmt,
  rollback_stmt, insert_stmt, update_stmt, delete_stmt, other_stmt,
}
use sqliteproxy.Storage.{Database}

module _ (E : Engine) (d : Database) (tr : Translator) (parse : Parser) where
  run_sql-Ensures :
      (h : ℕ) (sql failure : Text)
      → h ≡ d.pool.handle
      → Ensures E d Any (run_sql E tr h sql failure)
  unfolding run_sql issue
  run_sql-Ensures h sql failure own = record { holds = λ c v. (ground arith, λ a e. tt) }

  copy_rows-Ensures :
      (h : ℕ) (tmp sql : Text) → h ≡ d.pool.handle → Ensures E d Any (copy_rows E tr h tmp sql)
  unfolding copy_rows run_sql issue
  copy_rows-Ensures h tmp sql own = record { holds = λ c v. (ground arith, λ a e. tt) }

  need_columns-Ensures :
      (t : Text) (infos : List ColumnInfo) → Ensures E d Any (need_columns E tr t infos)
  unfolding need_columns
  need_columns-Ensures t [] = fail-Ensures E d Any _
  need_columns-Ensures t (x ∷ xs) = pure-Ensures E d Any tt tt

  read_columns-Ensures :
      (h : ℕ) (t : Text) → h ≡ d.pool.handle → Ensures E d Any (read_columns E tr h t)
  unfolding read_columns issue
  read_columns-Ensures h t own = record { holds = λ c v. (ground arith, λ a e. tt) }

  rebuild-Ensures :
      (h : ℕ) (p : Parts) (infos : List ColumnInfo)
      → h ≡ d.pool.handle
      → Ensures E d Any (rebuild E tr h p infos)
  unfolding rebuild
  rebuild-Ensures h p infos own = bind-Ensures E d Any Any _ _ (run_sql-Ensures h _ _ own) λ _ _.
      bind-Ensures E d Any Any _ _ (copy_rows-Ensures h _ _ own) λ _ _.
        bind-Ensures E d Any Any _ _ (run_sql-Ensures h _ _ own) λ _ _. run_sql-Ensures h _ _ own

  reconstruct_parts-Ensures :
      (o : Option Parts) (marker : Text) → Ensures E d Any (reconstruct_parts E tr o marker)
  unfolding reconstruct_parts
  reconstruct_parts-Ensures none marker = fail-Ensures E d Any _
  reconstruct_parts-Ensures (some p) marker =
      bind-Ensures E d (λ x. x ≡ d) Any _ _ (tenant-Ensures E d)
        λ x e. bind-Ensures E d Any Any _ _ (read_columns-Ensures _ _ (pool_own E d x e)) λ infos _.
          bind-Ensures E d Any Any _ _ (need_columns-Ensures _ infos) λ _ _.
            bind-Ensures E d Any Any _ _ (rebuild-Ensures _ p infos (pool_own E d x e))
              λ _ _. pure-Ensures E d Any done tt

  reconstruct-Ensures : (marker : Text) → Ensures E d Any (reconstruct E tr marker)
  unfolding reconstruct
  reconstruct-Ensures marker = reconstruct_parts-Ensures (parse_marker marker) marker

  plain-Ensures :
      (sql : Text) → Ensures E d Any (if is_query_type sql then query E sql else exec E sql)
  plain-Ensures sql = if-Ensures E d _ _ _ (query-Ensures E d sql) (exec-Ensures E d sql)

  execute_kind-Ensures :
      (kind : Option Kind) (sql : Text) → Ensures E d Any (execute_kind E tr parse kind sql)
  unfolding execute_kind
  execute_kind-Ensures none sql = plain-Ensures sql
  execute_kind-Ensures (some begin_stmt) sql = handle_begin-Ensures E d
  execute_kind-Ensures (some commit_stmt) sql = handle_commit-Ensures E d
  execute_kind-Ensures (some rollback_stmt) sql = handle_rollback-Ensures E d
  execute_kind-Ensures (some (select_stmt _)) sql = query-Ensures E d sql
  execute_kind-Ensures (some show_databases) sql = query-Ensures E d sql
  execute_kind-Ensures (some show_other) sql = query-Ensures E d sql
  execute_kind-Ensures (some insert_stmt) sql = exec-Ensures E d sql
  execute_kind-Ensures (some update_stmt) sql = exec-Ensures E d sql
  execute_kind-Ensures (some delete_stmt) sql = exec-Ensures E d sql
  execute_kind-Ensures (some (use_stmt _)) sql = plain-Ensures sql
  execute_kind-Ensures (some other_stmt) sql = plain-Ensures sql

  execute_translated-Ensures :
      (kind : Option Kind) (sql : Text) → Ensures E d Any (execute_translated E tr parse kind sql)
  unfolding execute_translated
  execute_translated-Ensures kind sql =
      if-Ensures E d _ _ _ (reconstruct-Ensures sql) (execute_kind-Ensures kind sql)

  execute_all-Ensures :
      (ss : List Stmt) (last : Reply E) → Ensures E d Any (execute_all E tr parse ss last)
  unfolding execute_all
  execute_all-Ensures [] last = record { holds = λ c v. (v, λ a e. tt) }
  execute_all-Ensures (s ∷ ss) last = record {
    holds = λ c v.
        let first = execute_translated-Ensures (some s.kind) (translated E tr parse s) in
        elim (Result-cases
          (execute_translated E tr parse (some s.kind) (translated E tr parse s) c).0) [
            | inl (r, e) ↦
                rw (e, execute_all) ((execute_all-Ensures ss r).holds _ (first.holds c v).0)
            | inr (x, e) ↦ rw (e, execute_all) ((first.holds c v).0, λ a h. tt)
          ];
  }

  handle_translated-Ensures :
      (text : Text) (stmts : List Stmt) → Ensures E d Any (handle_translated E tr parse text stmts)
  unfolding handle_translated
  handle_translated-Ensures text [] = execute_translated-Ensures none (tr.translate text)
  handle_translated-Ensures text (s ∷ ss) = execute_all-Ensures (s ∷ ss) done

  handle_first-Ensures :
      (k : Kind) (text : Text) (stmts : List Stmt)
      → Ensures E d Any (handle_first E tr parse k text stmts)
  unfolding handle_first
  handle_first-Ensures (use_stmt name) text stmts =
      bind-Ensures E d Any Any _ _ (select_database-Ensures E d _)
        λ _ _. pure-Ensures E d Any done tt
  handle_first-Ensures show_databases text stmts = show_tenant-Ensures E d _
  handle_first-Ensures (select_stmt s) text stmts =
      if-Ensures E d _ _ _ (show_tenant-Ensures E d _)
        (if-Ensures E d _ _ _ (handle_translated-Ensures text stmts) (answer-Ensures E d s))
  handle_first-Ensures _ text stmts = handle_translated-Ensures text stmts

  handle_parsed-Ensures :
      (text : Text) (r : Result (List Stmt)) → Ensures E d Any (handle_parsed E tr parse text r)
  handle_parsed-Ensures text (err _) = handle_translated-Ensures text []
  handle_parsed-Ensures text (ok []) = handle_translated-Ensures text []
  handle_parsed-Ensures text (ok (s ∷ ss)) = handle_first-Ensures s.kind text (s ∷ ss)

  pub handle_query-Ensures : (text : Text) → Ensures E d Any (handle_query E tr parse text)
  unfolding handle_query
  handle_query-Ensures text = record {
    holds = λ c v. rw (v.bound, handle_query) ((handle_parsed-Ensures text (parse text)).holds c v);
  }
