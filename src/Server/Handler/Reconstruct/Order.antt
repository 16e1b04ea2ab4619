-- ===== src/Server/Handler/Reconstruct/Order.antt =====
-- server/handler.go, `handleReconstructTable`: what happens to the old table when a statement fails.
use sqliteproxy.Base.{ℕ, ◌≢◌, [], ◌∷◌, List, Text, codes, All, concat}
use sqliteproxy.Effect.{Result}
use sqliteproxy.Server.Engine.{Engine, on_pool, ColumnInfo}
use sqliteproxy.Server.Handler.Marker.{Parts}
use sqliteproxy.Server.Handler.Reconstruct.{create_sql, copy_sql, drop_sql, temporary}
use sqliteproxy.Server.Handler.{Client, Translator}

module _ (E : Engine) (tr : Translator) (h : ℕ) (p : Parts) (infos : List ColumnInfo) where
  -- No statement of the client has dropped the table.
  abbrev pub Undropped : Client E → Type 0
  Undropped c = All (λ k. k.1 ≢ drop_sql p) c.calls

  -- What the engine answers to the first statement, and to the second after it.
  abbrev pub created : Client E → Result (ℕ × ℕ) × E.State
  created c = E.exec (on_pool h) (create_sql tr p infos) c.engine

  abbrev pub copied : Client E → Result (ℕ × ℕ) × E.State
  copied c = E.exec (on_pool h) (copy_sql p infos) (created c).1

  abbrev after_create : Client E → Client E
  after_create c = record c {
    engine = (created c).1;
    calls = (on_pool h, create_sql tr p infos) ∷ c.calls;
  }

  abbrev cleanup_sql : Text
  cleanup_sql = concat (codes "DROP TABLE IF EXISTS `" ∷ temporary p ∷ codes "`" ∷ [])
