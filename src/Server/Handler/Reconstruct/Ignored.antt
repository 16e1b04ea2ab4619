-- ===== src/Server/Handler/Reconstruct/Ignored.antt =====
-- server/handler.go and translator/translator.go: what ALTER TABLE … MODIFY COLUMN makes of a table.
use sqliteproxy.Base.{
  ℕ, ◌≡◌, ◌≢◌, refl, ap, [], ◌∷◌, List, Text, codes, concat, some, text_eq_ne, All, map, arith,
  ◌++◌,
}
use sqliteproxy.Effect.{Action}
use sqliteproxy.Server.Action.{◌>>◌}
use sqliteproxy.Server.Engine.{Engine, ColumnInfo}
use sqliteproxy.Server.Handler.{Client, Translator}
use sqliteproxy.Server.Handler.Marker.{Parts, reconstruct_marker, parse_marker, column_def, join}
use sqliteproxy.Server.Handler.Marker.Modify.{HasNoBlank, parse_marker-reconstruct_marker}
use sqliteproxy.Server.Handler.Reconstruct.{
  rebuild, temporary, copy_sql, drop_sql, rename_sql, run_sql, copy_rows,
}

column_def_other :
    (name def def' : Text) (info : ColumnInfo)
    → info.name ≢ name
    → column_def name def info ≡ column_def name def' info
unfolding column_def
column_def_other name def def' info other = ground (arith, text_eq_ne info.name name other)

columns_other :
    (name def def' : Text) (infos : List ColumnInfo)
    → All (λ i. i.name ≢ name) infos
    → map (column_def name def) infos ≡ map (column_def name def') infos
columns_other name def def' [] h = refl
columns_other name def def' (i ∷ is) h =
    rw (column_def_other name def def' i h.0, columns_other name def def' is h.1) refl

module _ (E : Engine) (tr : Translator) where
  -- The statements of a reconstruction, with the first one given.
  abbrev rebuild_by : ℕ → Parts → List ColumnInfo → Text → Action (Client E) (Unit {0})
  unfolding rebuild
  rebuild_by h p infos create = do
    run_sql E tr h create (codes "failed to create temp table")
    copy_rows E tr h (temporary p) (copy_sql p infos)
    run_sql E tr h (drop_sql p) (codes "failed to drop old table")
    run_sql E tr h (rename_sql p) (codes "failed to rename table")

  -- Two MODIFY statements for one table, whose name has no blank and which has no column called MODIFY,
  -- have the handler run the same statements with the same outcome, whatever columns are to be modified and
  -- whatever definitions they are to get: the rebuilt table depends on neither.
  pub modify_ignored :
      (h : ℕ) (table_name c d c' d' : Text) (infos : List ColumnInfo)
      → HasNoBlank table_name
      → All (λ i. i.name ≢ codes "MODIFY") infos
      → (p q : Parts) × (parse_marker (reconstruct_marker table_name c d) ≡ some p)
        × (parse_marker (reconstruct_marker table_name c' d') ≡ some q)
        × (rebuild E tr h p infos ≡ rebuild E tr h q infos)
  unfolding rebuild
  modify_ignored h t c d c' d' infos b others = (
    _,
    _,
    parse_marker-reconstruct_marker t c d b,
    parse_marker-reconstruct_marker t c' d' b,
    ap
        (λ columns.
          rebuild_by h (record { table_name = t; column_name = codes "MODIFY"; column_def = [] })
            infos
            (concat (
              codes "CREATE TABLE `"
              ∷ (codes "_tmp_" ++ t)
              ∷ codes "` ("
              ∷ join (codes ", ") columns
              ∷ codes ")"
              ∷ [])))
        (columns_other (codes "MODIFY") _ _ infos others),
  )
