-- ===== src/Storage/Query.antt =====
-- storage/store.go, `Query`: a query of the management API on a database of the registry.
pub mod Handles
use sqliteproxy.Base.{ℕ, [], ◌∷◌, List, Text, codes, concat, Bool, true, false, if◌then◌else◌}
use sqliteproxy.Base.Dict.{lookup}
use sqliteproxy.Errors.{Error, wrapped}
use sqliteproxy.Effect.{Result, ok, err, Action}
use sqliteproxy.Sqlite.Interface.{Host}
use sqliteproxy.Sqlite.{driver_name, milliseconds}
use sqliteproxy.Storage.Registry.{find_in}
use sqliteproxy.Storage.{Database, Store, StoreConfig}

-- The rows that a driver returns, each value as the driver gives it.
pub record Table (V : Type 0) : Type 0 where
  pub columns : List Text
  pub rows : List (List V)

-- Where reading a query's rows fails.
pub data Stage : Type 0 where
  executing naming scanning iterating : Stage

abbrev pub stage_text : Stage → Text
stage_text executing = codes "execute query"
stage_text naming = codes "get columns"
stage_text scanning = codes "scan row"
stage_text iterating = codes "iterate rows"

-- What running a query on a handle and reading all its rows comes to.
pub data Reading (V : Type 0) : Type 0 where
  failed : Stage → Error → Reading V
  read : Table V → Reading V

abbrev pub result_of : {V : Type 0} → Reading V → Result (Table V)
result_of (failed stage e) = err (wrapped (stage_text stage) e)
result_of (read t) = ok t

-- The DSN of `Query`, which asks for WAL whatever the configuration.
unfoldable pub query_dsn : StoreConfig → Text → Text
unfolding milliseconds
query_dsn config path = concat (
    codes "file:"
    ∷ path
    ∷ codes "?_journal_mode=WAL&_busy_timeout="
    ∷ milliseconds config.busy_timeout
    ∷ codes "&_foreign_keys=on"
    ∷ [])

module _ (H : Host) (V : Type 0) (run : ℕ → Text → H.State → Reading V × H.State) where
  -- The query on an open handle, and `defer conn.Close()`.
  unfoldable pub query_on : Text → Result ℕ → Action H.State (Table V)
  query_on sql (err e) h = (err (wrapped (codes "open query connection") e), h)
  query_on sql (ok n) h = let after = run n sql h in (result_of after.0, (H.close_db n after.1).1)

  -- The connection is opened with the driver that has no authorizer.
  unfoldable pub query : Store → Text → Text → Action H.State (Table V)
  unfolding query_on lookup
  query s name sql h = elim (find_in s.closed name s.by_name) [
    | err e ↦ (err e, h)
    | ok db ↦
        let after = H.open_db driver_name (query_dsn s.config db.path) h in
        query_on sql after.0 after.1
  ]
