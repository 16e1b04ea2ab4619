-- ===== src/Proxy/Creation.antt =====
-- proxy.go, `New`: the configuration and the storage of a proxy.
use sqliteproxy.Base.{codes, List, is_empty, if◌then◌else◌}
use sqliteproxy.Config.{Config, with_limits, store_config}
use sqliteproxy.Effect.{Result, ok, err}
use sqliteproxy.Errors.{message, wrapped}
use sqliteproxy.Sqlite.Interface.{Host}
use sqliteproxy.Storage.{Database}
use sqliteproxy.Storage.Boot.{Startup, open_store}
use sqliteproxy.Storage.Catalog.{Catalog}
use sqliteproxy.Storage.Provision.{World}

module _ (C : Catalog) (H : Host) (env : Startup) where
  -- The result is the configuration that the proxy keeps; the store is that of the world.
  unfoldable pub new_proxy :
      (List Database → List Database) → Config → World C H → Result Config × World C H
  unfolding with_limits open_store
  new_proxy order config w =
      if is_empty config.storage_root
      then (err (message (codes "storage root is required")), w)
      else let config = with_limits config in
        let opened = open_store C H env order (store_config config) w in
        elim opened.0 [
          | ok _ ↦ (ok config, opened.1)
          | err e ↦ (err (wrapped (codes "failed to open storage") e), opened.1)
        ]
