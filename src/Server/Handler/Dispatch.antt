-- ===== src/Server/Handler/Dispatch.antt =====
-- server/handler.go: from a query to the statements that run, `HandleQuery` and below.
use sqliteproxy.Base.{
  ℕ, ◌||◌, Bool, [], ◌∷◌, List, Text, codes, Option, none, some, is_empty, if◌then◌else◌, ◌==◌,
  has_prefix, trim_of,
}
use sqliteproxy.Errors.{not_bound}
use sqliteproxy.Effect.{Result, ok, err, Action}
use sqliteproxy.Server.Action.{pure, ◌>>◌}
use sqliteproxy.Server.Engine.{Engine}
use sqliteproxy.Server.Handler.InfoQueries.{answer}
use sqliteproxy.Server.Handler.Reconstruct.{reconstruct}
use sqliteproxy.Server.Handler.{
  Client, Reply, done, Translator, query, exec, handle_begin, handle_commit, handle_rollback,
  select_database, show_tenant,
}
use sqliteproxy.Server.InfoSchema.{extract_info_schema_table}
use sqliteproxy.Server.Queries.{is_query_type, is_select_database}
use sqliteproxy.Server.Statement.{
  Parser, Stmt, Kind, use_stmt, show_databases, show_other, select_stmt, begin_stmt, commit_stmt,
  rollback_stmt, insert_stmt, update_stmt, delete_stmt, other_stmt,
}

abbrev pub is_quote : ℕ → Bool
is_quote c = c == b'`' || c == b'"' || c == b'\''

module _ (E : Engine) (tr : Translator) (parse : Parser) where
  abbrev run_plain : Text → Action (Client E) (Reply E)
  run_plain sql = if is_query_type sql then query E sql else exec E sql

  -- The type switch of `executeTranslated`; no statement is a nil one.
  unfoldable pub execute_kind : Option Kind → Text → Action (Client E) (Reply E)
  execute_kind none sql = run_plain sql
  execute_kind (some begin_stmt) sql = handle_begin E
  execute_kind (some commit_stmt) sql = handle_commit E
  execute_kind (some rollback_stmt) sql = handle_rollback E
  execute_kind (some (select_stmt _)) sql = query E sql
  execute_kind (some show_databases) sql = query E sql
  execute_kind (some show_other) sql = query E sql
  execute_kind (some insert_stmt) sql = exec E sql
  execute_kind (some update_stmt) sql = exec E sql
  execute_kind (some delete_stmt) sql = exec E sql
  execute_kind (some (use_stmt _)) sql = run_plain sql
  execute_kind (some other_stmt) sql = run_plain sql

  -- `executeTranslated`
  unfoldable pub execute_translated : Option Kind → Text → Action (Client E) (Reply E)
  execute_translated kind sql =
      if has_prefix (codes "-- RECONSTRUCT_TABLE:") sql
      then reconstruct E tr sql
      else execute_kind kind sql

  -- The translation of a statement: of what `Restore` writes, else of its text.
  abbrev pub translated : Stmt → Text
  translated s = elim s.restored [ ok t ↦ tr.translate_restored t | err _ ↦ tr.translate s.text ]

  -- The loop of `handleTranslated`, with the last result.
  unfoldable pub execute_all : List Stmt → Reply E → Action (Client E) (Reply E)
  execute_all [] last c = (ok last, c)
  execute_all (s ∷ ss) last c =
      let run = execute_translated (some s.kind) (translated s) c in
      elim run.0 [ ok r ↦ execute_all ss r run.1 | err e ↦ (err e, run.1) ]

  -- `handleTranslated`
  unfoldable pub handle_translated : Text → List Stmt → Action (Client E) (Reply E)
  handle_translated text [] = execute_translated none (tr.translate text)
  handle_translated text (s ∷ ss) = execute_all (s ∷ ss) done

  -- The type switch of `HandleQuery` on the first statement.
  unfoldable pub handle_first : Kind → Text → List Stmt → Action (Client E) (Reply E)
  handle_first (use_stmt name) text stmts = do select_database E (trim_of is_quote name); pure done
  handle_first show_databases text stmts = show_tenant E (codes "Database")
  handle_first (select_stmt s) text stmts =
      if is_select_database s
      then show_tenant E (codes "DATABASE()")
      else if is_empty (extract_info_schema_table s)
      then handle_translated text stmts
      else answer E s
  handle_first show_other text stmts = handle_translated text stmts
  handle_first begin_stmt text stmts = handle_translated text stmts
  handle_first commit_stmt text stmts = handle_translated text stmts
  handle_first rollback_stmt text stmts = handle_translated text stmts
  handle_first insert_stmt text stmts = handle_translated text stmts
  handle_first update_stmt text stmts = handle_translated text stmts
  handle_first delete_stmt text stmts = handle_translated text stmts
  handle_first other_stmt text stmts = handle_translated text stmts

  abbrev pub handle_parsed : Text → Result (List Stmt) → Action (Client E) (Reply E)
  handle_parsed text (err _) = handle_translated text []
  handle_parsed text (ok []) = handle_translated text []
  handle_parsed text (ok (s ∷ ss)) = handle_first s.kind text (s ∷ ss)

  -- `HandleQuery`
  unfoldable pub handle_query : Text → Action (Client E) (Reply E)
  handle_query text c = elim c.db [
    | none ↦ (err not_bound, c)
    | some d ↦ handle_parsed text (parse text) c
  ]
