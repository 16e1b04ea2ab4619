-- ===== src/Server/Handler.antt =====
-- server/handler.go and the queries of server/infoschema.go: the handler of one client's commands.
-- The world of a client holds its session, its login, the engine, the time of the current call, and
-- the calls made to the engine so far, the latest first.
pub mod Marker
pub mod InfoQueries
pub mod Reconstruct
pub mod Dispatch
pub mod Verbatim
pub mod Prepared
pub mod Protocol
pub mod Isolation
pub mod Tenancy
pub mod Statements
pub mod Commands
use sqliteproxy.Base.{
  ℕ, ◌++◌, ◌+◌, Bool, true, false, not, ◌||◌, ◌&&◌, [], ◌∷◌, List, Text, codes, concat, Option,
  none, some, is_empty, text_eq, if◌then◌else◌, ◌==◌, map, has_prefix, to_upper, trim_space,
  trim_of,
}
use sqliteproxy.Base.Dict.{Dict, lookup}
use sqliteproxy.Errors.{
  Error, message, nil_dereference, wrapped, db_access_denied, not_bound, external,
}
use sqliteproxy.Effect.{Result, ok, err, Action}
use sqliteproxy.Server.Action.{pure, fail, ◌>>=◌, ◌>>◌}
use sqliteproxy.Server.Binding
use sqliteproxy.Server.Binding.{Binding}
use sqliteproxy.Server.Engine.{
  Engine, Target, on_conn, in_tx, on_pool, ColumnInfo, Cell, null, text, num,
}
use sqliteproxy.Server.InfoSchema.{extract_info_schema_table, extract_where_equalities}
use sqliteproxy.Server.Session
use sqliteproxy.Server.Session.{Session, Conn, Tx}
use sqliteproxy.Server.Statement.{
  Parser, Stmt, Kind, use_stmt, show_databases, show_other, select_stmt, begin_stmt, commit_stmt,
  rollback_stmt, insert_stmt, update_stmt, delete_stmt, other_stmt, Select, Expr, call,
}
use sqliteproxy.Storage.{Database}

-- The translator as the handler uses it: of a text, and of what `Restore` wrote.
pub record Translator : Type 0 where
  pub translate : Text → Text
  pub translate_restored : Text → Text

module _ (E : Engine) where
  pub record Client : Type 0 where
    pub session : Session
    pub binding : Binding
    pub db : Option Database
    pub engine : E.State
    pub clock : ℕ
    pub calls : List (Target × Text)

  -- `mysql.Result`: nothing, a result set, or the two counts.
  pub data Reply : Type 0 where
    done : Reply
    rows : E.ResultSet → Reply
    counts : ℕ → ℕ → Reply

  unfoldable pub reads : {A : Type 0} → (Client → A) → Action Client A
  reads f c = (ok (f c), c)

  unfoldable pub of_result : {A : Type 0} → Result A → Action Client A
  of_result r c = (r, c)

  -- A call of the engine that runs no statement.
  unfoldable pub engine_call : {A : Type 0} → (E.State → Result A × E.State) → Action Client A
  engine_call m c = ((m c.engine).0, record c { engine = (m c.engine).1 })

  -- A statement that runs at `target`.
  unfoldable pub issue :
      {A : Type 0} → Target → Text → (E.State → Result A × E.State) → Action Client A
  issue target sql m c =
      ((m c.engine).0, record c { engine = (m c.engine).1; calls = (target, sql) ∷ c.calls })

  -- `h.db`, which the program dereferences.
  unfoldable pub tenant : Action Client Database
  tenant c = elim c.db [ some d ↦ (ok d, c) | none ↦ (err nil_dereference, c) ]

  unfoldable pub require_db : Action Client (Unit {0})
  require_db c = elim c.db [ some d ↦ (ok tt, c) | none ↦ (err not_bound, c) ]

  unfoldable pub session_conn : Action Client Conn
  session_conn c = elim c.session.db [ some k ↦ (ok k, c) | none ↦ (err nil_dereference, c) ]

  unfoldable pub set_session_conn : Conn → Action Client (Unit {0})
  unfolding Session.set_connection
  set_session_conn k c = (ok tt, record c { session = Session.set_connection k c.session })

  -- `ensureConnection` behind its first test
  unfoldable pub acquire_conn : Action Client (Unit {0})
  acquire_conn = do
    require_db
    d ← tenant
    n ← (λ c. elim (engine_call (E.acquire d.pool.handle) c).0 [
      | ok n ↦ (ok n, (engine_call (E.acquire d.pool.handle) c).1)
      | err e ↦ (
        err (wrapped (codes "failed to acquire session connection") e),
        (engine_call (E.acquire d.pool.handle) c).1,
      )
    ])
    set_session_conn (record { number = n; pool_handle = d.pool.handle })

  -- `ensureConnection`
  unfoldable pub ensure_connection : Action Client (Unit {0})
  ensure_connection c = elim c.session.db [ some k ↦ (ok tt, c) | none ↦ acquire_conn c ]

  -- Where a statement runs: in the transaction if there is one, else on the connection.
  unfoldable pub session_target : Action Client Target
  session_target c = elim c.session.tx [
    | some t ↦ (ok (in_tx t), c)
    | none ↦ elim c.session.db [ some k ↦ (ok (on_conn k), c) | none ↦ (err nil_dereference, c) ]
  ]

  -- `query` over `queryRows`, and `exec` over `execResult`
  unfoldable pub query : Text → Action Client Reply
  query sql = do
    ensure_connection
    target ← session_target
    set ← issue target sql (E.query target sql)
    pure (rows set)

  unfoldable pub exec : Text → Action Client Reply
  exec sql = do
    ensure_connection
    target ← session_target
    r ← issue target sql (E.exec target sql)
    pure (counts r.0 r.1)

  unfoldable pub start_transaction : Tx → Action Client (Unit {0})
  unfolding Session.begin_transaction
  start_transaction t c =
      (ok tt, record c { session = Session.begin_transaction t c.clock c.session })

  unfoldable pub refuse_if : Bool → Error → Action Client (Unit {0})
  refuse_if true e = fail e
  refuse_if false e = pure tt

  -- `handleBegin`
  unfoldable pub handle_begin : Action Client Reply
  handle_begin = do
    busy ← reads (λ c. c.session.in_transaction)
    refuse_if busy (message (codes "transaction already in progress"))
    ensure_connection
    k ← session_conn
    n ← engine_call (E.begin_tx k)
    start_transaction (record { number = n; conn = k })
    pure done

  -- The error of a call that ends the session's transaction, with the session that it leaves.
  abbrev ended :
      (Option Error → ℕ → Session → Option Error × Session)
      → (Tx → E.State → Option Error × E.State)
      → Action Client Reply
  ended close_with engine_end c = elim c.session.tx [
    | none ↦
        let (e, s) = close_with none c.clock c.session in
        (elim e [ none ↦ ok done | some x ↦ err x ], record c { session = s })
    | some t ↦
        let (result, g) = engine_end t c.engine in
        let (e, s) = close_with result c.clock c.session in
        (elim e [ none ↦ ok done | some x ↦ err x ], record c { session = s; engine = g })
  ]

  -- `handleCommit`
  unfoldable pub handle_commit : Action Client Reply
  unfolding Session.commit_transaction
  handle_commit = ended Session.commit_transaction E.commit_tx

  -- `handleRollback`
  unfoldable pub handle_rollback : Action Client Reply
  unfolding Session.rollback_transaction
  handle_rollback c =
      let ending = ended Session.rollback_transaction E.rollback_tx c in
      if not c.session.in_transaction then (ok done, c) else ending

  -- `selectDatabase`
  unfoldable pub select_database : Text → Action Client (Unit {0})
  unfolding Session.set_database Binding.set_requested_db
  select_database name c = elim c.db [
    | none ↦
        let (e, b) = Binding.set_requested_db name c.binding in
        (elim e [ none ↦ ok tt | some x ↦ err x ], record c { binding = b })
    | some d ↦
        if not (text_eq name d.name)
        then (err (db_access_denied name), c)
        else (ok tt, record c { session = Session.set_database name c.clock c.session })
  ]

  unfoldable pub reply_rows : List Text → List (List Cell) → Action Client Reply
  reply_rows columns cells = do set ← of_result (E.build columns cells); pure (rows set)

  -- `showDatabases` and `selectDatabaseName`
  unfoldable pub show_tenant : Text → Action Client Reply
  show_tenant column = do d ← tenant; reply_rows (column ∷ []) ((text d.name ∷ []) ∷ [])

  -- `Finalize`
  unfoldable pub finalize : Text → Action Client (Unit {0})
  unfolding Binding.finalize Session.bind
  finalize username c =
      let (r, b) = Binding.finalize username c.binding in
      elim r [
        | err e ↦ (err e, record c { binding = b })
        | ok d ↦
            let (e, s) = Session.bind d c.clock c.session in
            elim e [
              | some x ↦ (err x, record c { binding = b; session = s })
              | none ↦ (ok tt, record c { binding = b; session = s; db = d })
            ]
      ]

  -- `UseDB`
  abbrev pub use_db : Text → Action Client (Unit {0})
  use_db = select_database
