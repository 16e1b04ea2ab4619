-- ===== src/Server/Handler/Prepared.antt =====
-- server/handler.go: prepared statements and the other commands of the protocol.
use sqliteproxy.Base.{
  ℕ, ◌+◌, Bool, true, false, [], ◌∷◌, List, Text, codes, concat, Option, none, some, if◌then◌else◌,
  ◌==◌, map,
}
use sqliteproxy.Errors.{not_bound, message}
use sqliteproxy.Effect.{Result, ok, err, Action}
use sqliteproxy.Server.Action.{pure, fail, ◌>>=◌, ◌>>◌}
use sqliteproxy.Server.Engine.{Engine}
use sqliteproxy.Server.Handler.{
  Client, Reply, rows, counts, Translator, ensure_connection, session_target, issue, engine_call,
}
use sqliteproxy.Server.Queries.{double_quotes, is_query_stmt}
use sqliteproxy.Server.Statement.{Parser, Stmt}

-- `strings.Count(translated, "?")`
unfoldable pub count_params : Text → ℕ
count_params [] = 0
count_params (c ∷ s) = (if c == b'?' then 1 else 0) + count_params s

abbrev pub first_is_query : Result (List Stmt) → Bool
first_is_query (ok (s ∷ ss)) = is_query_stmt s
first_is_query (ok []) = false
first_is_query (err e) = false

module _ (E : Engine) (tr : Translator) (parse : Parser) where
  unfoldable pub bound_only : {A : Type 0} → Action (Client E) A → Action (Client E) A
  bound_only m c = elim c.db [ none ↦ (err not_bound, c) | some d ↦ m c ]

  -- The column count of a query; any error counts as no columns.
  unfoldable pub count_columns : Bool → ℕ → Action (Client E) ℕ
  count_columns false stmt c = (ok 0, c)
  count_columns true stmt c =
      let run = engine_call E (E.column_count stmt) c in
      elim run.0 [ ok n ↦ (ok n, run.1) | err e ↦ (ok 0, run.1) ]

  -- `HandleStmtPrepare`: the parameters, the columns and the statement.
  unfoldable pub stmt_prepare : Text → Action (Client E) (ℕ × ℕ × ℕ)
  stmt_prepare text = bound_only (do
    let translated = tr.translate text
    ensure_connection E
    ensure_connection E
    target ← session_target E
    stmt ← issue E target translated (E.prepare target translated)
    columns ← count_columns (first_is_query (parse text)) stmt
    pure (count_params translated, columns, stmt))

  unfoldable pub run_query : ℕ → E.Args → Action (Client E) (Reply E)
  run_query stmt args = do set ← engine_call E (E.stmt_query stmt args); pure (rows set)

  unfoldable pub run_exec : ℕ → E.Args → Action (Client E) (Reply E)
  run_exec stmt args = do r ← engine_call E (E.stmt_exec stmt args); pure (counts r.0 r.1)

  -- `HandleStmtExecute`; the context is a statement, or something else.
  unfoldable pub stmt_execute : Option ℕ → Text → E.Args → Action (Client E) (Reply E)
  stmt_execute none text args = fail (message (codes "invalid prepared statement context"))
  stmt_execute (some stmt) text args =
      if first_is_query (parse text) then run_query stmt args else run_exec stmt args

  -- `HandleStmtClose`; a context that is no statement is left alone.
  unfoldable pub stmt_close : Option ℕ → Action (Client E) (Unit {0})
  stmt_close none c = (ok tt, c)
  stmt_close (some stmt) c =
      let closed = E.stmt_close stmt c.engine in
      (elim closed.0 [ none ↦ ok tt | some e ↦ err e ], record c { engine = closed.1 })

  -- `HandleOtherCommand`; the text names the command.
  abbrev pub other_command : Text → Action (Client E) (Unit {0})
  other_command text = fail (message text)

  -- `HandleFieldList`: the names of the fields.
  unfoldable pub field_list : Text → Action (Client E) (List Text)
  field_list table = bound_only (do
    let sql = concat (codes "PRAGMA table_info('" ∷ double_quotes table ∷ codes "')" ∷ [])
    ensure_connection E
    target ← session_target E
    infos ← issue E target sql (E.table_info target sql)
    pure (map (λ i. i.name) infos))
