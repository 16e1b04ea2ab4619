-- ===== src/Server/Handler/InfoQueries.antt =====
-- server/infoschema.go: the answers to queries of `information_schema`. They run on the pool itself,
-- outside the session's connection and transaction.
use sqliteproxy.Base.{
  ℕ, Bool, not, ◌&&◌, [], ◌∷◌, List, Text, codes, concat, none, some, is_empty, text_eq,
  if◌then◌else◌, ◌==◌, map, to_upper,
}
use sqliteproxy.Base.Dict.{Dict}
use sqliteproxy.Effect.{ok, err, Action}
use sqliteproxy.Server.Action.{pure, ◌>>=◌}
use sqliteproxy.Server.Engine.{Engine, on_pool, ColumnInfo, Cell, null, text, num}
use sqliteproxy.Server.Handler.{Client, Reply, done, tenant, issue, reply_rows, show_tenant}
use sqliteproxy.Server.InfoSchema.{extract_info_schema_table, extract_where_equalities}
use sqliteproxy.Server.Queries.{lookup_text}
use sqliteproxy.Server.Statement.{Select}

-- One row of the answer about columns.
unfoldable pub column_row : ColumnInfo → List Cell
column_row info =
    text info.name
    ∷ (elim info.default [ none ↦ null | some d ↦ text d ])
    ∷ num (if info.not_null == 1 then 0 else 1)
    ∷ text (to_upper info.type)
    ∷ null
    ∷ text (to_upper info.type)
    ∷ text (if info.primary_key == 1 then codes "PRI" else [])
    ∷ text []
    ∷ text []
    ∷ null
    ∷ null
    ∷ null
    ∷ []

abbrev column_headings : List Text
column_headings =
    codes "column_name"
    ∷ codes "column_default"
    ∷ codes "is_nullable"
    ∷ codes "data_type"
    ∷ codes "character_maximum_length"
    ∷ codes "column_type"
    ∷ codes "column_key"
    ∷ codes "extra"
    ∷ codes "column_comment"
    ∷ codes "numeric_precision"
    ∷ codes "numeric_scale"
    ∷ codes "datetime_precision"
    ∷ []

module _ (E : Engine) where
  abbrev count_sql : Text
  count_sql = codes "SELECT count(*) FROM sqlite_master WHERE type='table' AND name=?"

  abbrev names_sql : Text
  names_sql =
      codes
        "SELECT name FROM sqlite_master WHERE type='table' AND name NOT LIKE 'sqlite_%' ORDER BY name"

  unfoldable pub count_table : ℕ → Text → Action (Client E) (Reply E)
  count_table h name = do
    n ← issue E (on_pool h) count_sql (E.count_rows (on_pool h) count_sql name)
    reply_rows E (codes "count(*)" ∷ []) ((num n ∷ []) ∷ [])

  unfoldable pub list_tables : ℕ → Action (Client E) (Reply E)
  list_tables h = do
    ns ← issue E (on_pool h) names_sql (E.names (on_pool h) names_sql)
    reply_rows E (codes "table_name" ∷ []) (map (λ n. text n ∷ []) ns)

  -- `tableSchema != "" && tableSchema != h.db.Name`
  abbrev foreign_schema : Text → Text → Bool
  foreign_schema schema name = not (is_empty schema) && not (text_eq schema name)

  -- `queryInfoSchemaTables`
  unfoldable pub query_tables : Dict Text → Action (Client E) (Reply E)
  query_tables conditions = do
    d ← tenant E
    (let name = lookup_text (codes "table_name") conditions in
        if foreign_schema (lookup_text (codes "table_schema") conditions) d.name
        then pure done
        else if is_empty name
        then list_tables d.pool.handle
        else count_table d.pool.handle name)

  unfoldable pub describe_table : ℕ → Text → Action (Client E) (Reply E)
  describe_table h name = do
    let sql = concat (codes "PRAGMA table_info('" ∷ name ∷ codes "')" ∷ [])
    infos ← issue E (on_pool h) sql (E.table_info (on_pool h) sql)
    reply_rows E column_headings (map column_row infos)

  -- `queryInfoSchemaColumns`
  unfoldable pub query_columns : Dict Text → Action (Client E) (Reply E)
  query_columns conditions = do
    d ← tenant E
    (let name = lookup_text (codes "table_name") conditions in
        if foreign_schema (lookup_text (codes "table_schema") conditions) d.name
        then pure done
        else if is_empty name
        then pure done
        else describe_table d.pool.handle name)

  -- An error of the query is logged and answered by an empty result.
  unfoldable pub swallow : Action (Client E) (Reply E) → Action (Client E) (Reply E)
  swallow m c = elim (m c).0 [ ok r ↦ (ok r, (m c).1) | err e ↦ (ok done, (m c).1) ]

  -- `handleInfoSchemaQuery` on the select statement that it finds again in the query.
  unfoldable pub answer : Select → Action (Client E) (Reply E)
  answer s =
      let table = extract_info_schema_table s in
      if text_eq table (codes "tables")
      then swallow (query_tables (extract_where_equalities s.condition))
      else if text_eq table (codes "columns")
      then swallow (query_columns (extract_where_equalities s.condition))
      else if text_eq table (codes "schemata")
      then swallow (show_tenant E (codes "schema_name"))
      else pure done
