-- ===== src/Server/Handler/Reconstruct.antt =====
-- server/handler.go, `handleReconstructTable`.
pub mod Order
pub mod Ignored
use sqliteproxy.Base.{ℕ, ◌++◌, [], ◌∷◌, List, Text, codes, concat, Option, none, some, map}
use sqliteproxy.Errors.{message, wrapped}
use sqliteproxy.Effect.{ok, err, Action}
use sqliteproxy.Server.Action.{pure, fail, ◌>>=◌, ◌>>◌}
use sqliteproxy.Server.Engine.{Engine, on_pool, ColumnInfo}
use sqliteproxy.Server.Handler.Marker.{Parts, parse_marker, find_definition, column_def, join}
use sqliteproxy.Server.Handler.{Client, Reply, done, tenant, issue, Translator}
use sqliteproxy.Server.Queries.{double_quotes}

-- The new column definition: translated inside a CREATE TABLE, and cut out again.
unfoldable pub new_definition : Translator → Parts → Text
new_definition tr p =
    let translated = tr.translate (
      concat (
        codes "CREATE TABLE _dummy ("
        ∷ p.column_name
        ∷ codes " "
        ∷ p.column_def
        ∷ codes ")"
        ∷ [])) in
    elim (find_definition p.column_name translated) [
      | none ↦ translated
      | some d ↦ concat (p.column_name ∷ codes " " ∷ d ∷ [])
    ]

abbrev pub temporary : Parts → Text
temporary p = codes "_tmp_" ++ p.table_name

-- The four statements of a reconstruction.
abbrev pub create_sql : Translator → Parts → List ColumnInfo → Text
create_sql tr p infos =
    let columns = join (codes ", ") (map (column_def p.column_name (new_definition tr p)) infos) in
    concat (codes "CREATE TABLE `" ∷ temporary p ∷ codes "` (" ∷ columns ∷ codes ")" ∷ [])

abbrev pub copy_sql : Parts → List ColumnInfo → Text
copy_sql p infos =
    let names = join (codes ",") (map (λ i. concat (codes "`" ∷ i.name ∷ codes "`" ∷ [])) infos) in
    concat (
      codes "INSERT INTO `"
      ∷ temporary p
      ∷ codes "` SELECT "
      ∷ names
      ∷ codes " FROM `"
      ∷ p.table_name
      ∷ codes "`"
      ∷ [])

abbrev pub drop_sql : Parts → Text
drop_sql p = concat (codes "DROP TABLE `" ∷ p.table_name ∷ codes "`" ∷ [])

abbrev pub rename_sql : Parts → Text
rename_sql p =
    concat
      (codes "ALTER TABLE `" ∷ temporary p ∷ codes "` RENAME TO `" ∷ p.table_name ∷ codes "`" ∷ [])

module _ (E : Engine) (tr : Translator) where
  -- `if err != nil { return nil, fmt.Errorf("…: %w", err) }` after a statement on the pool
  unfoldable pub run_sql : ℕ → Text → Text → Action (Client E) (Unit {0})
  run_sql h sql failure c =
      let run = issue E (on_pool h) sql (E.exec (on_pool h) sql) c in
      elim run.0 [ ok _ ↦ (ok tt, run.1) | err e ↦ (err (wrapped failure e), run.1) ]

  -- A statement whose result is dropped.
  abbrev pub run_quietly : ℕ → Text → Client E → Client E
  run_quietly h sql c = (issue E (on_pool h) sql (E.exec (on_pool h) sql) c).1

  unfoldable pub copy_rows : ℕ → Text → Text → Action (Client E) (Unit {0})
  copy_rows h tmp sql c =
      let copied = run_sql h sql (codes "failed to copy data") c in
      elim copied.0 [
        | ok _ ↦ (ok tt, copied.1)
        | err e ↦ (
          err e,
          run_quietly h (concat (codes "DROP TABLE IF EXISTS `" ∷ tmp ∷ codes "`" ∷ [])) copied.1,
        )
      ]

  unfoldable pub need_columns : Text → List ColumnInfo → Action (Client E) (Unit {0})
  need_columns table [] = fail (message (concat (codes "table " ∷ table ∷ codes " not found" ∷ [])))
  need_columns table (_ ∷ _) = pure tt

  unfoldable pub rebuild : ℕ → Parts → List ColumnInfo → Action (Client E) (Unit {0})
  rebuild h p infos = do
    run_sql h (create_sql tr p infos) (codes "failed to create temp table")
    copy_rows h (temporary p) (copy_sql p infos)
    run_sql h (drop_sql p) (codes "failed to drop old table")
    run_sql h (rename_sql p) (codes "failed to rename table")

  unfoldable pub read_columns : ℕ → Text → Action (Client E) (List ColumnInfo)
  read_columns h table c =
      let sql = concat (codes "PRAGMA table_info('" ∷ double_quotes table ∷ codes "')" ∷ []) in
      let run = issue E (on_pool h) sql (E.table_info (on_pool h) sql) c in
      elim run.0 [
        | ok infos ↦ (ok infos, run.1)
        | err e ↦ (err (wrapped (codes "failed to get table info") e), run.1)
      ]

  unfoldable pub reconstruct_parts : Option Parts → Text → Action (Client E) (Reply E)
  reconstruct_parts none marker = fail (message (codes "invalid reconstruct marker: " ++ marker))
  reconstruct_parts (some p) marker = do
    d ← tenant E
    infos ← read_columns d.pool.handle p.table_name
    need_columns p.table_name infos
    rebuild d.pool.handle p infos
    pure done

  unfoldable pub reconstruct : Text → Action (Client E) (Reply E)
  reconstruct marker = reconstruct_parts (parse_marker marker) marker
