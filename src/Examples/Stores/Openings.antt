-- ===== src/Examples/Stores/Openings.antt =====
-- storage/store.go and sqlite/pool.go, Open: the theorems at concrete inputs.
use sqliteproxy.Base.{◌≡◌, refl, true, [], ◌∷◌, Text, codes, text_eq, none, some}
use sqliteproxy.Effect.{ok}
use sqliteproxy.Examples.Machine.{machine}
use sqliteproxy.Examples.Table.{slot_catalog}
use sqliteproxy.Sqlite.{new_pool}
use sqliteproxy.Storage.Provision.{
  provision, publish_new, reserve, World, Draft, create, import_database,
}
use sqliteproxy.Storage.{Status, creating, ready, Metadata, Database, Store, StoreConfig}
use sqliteproxy.Storage.Boot.Loading.{Loads}
use sqliteproxy.Storage.Boot.Opening.{open_store-Loads}
use sqliteproxy.Storage.Boot.{Startup, open_store, reconcile, empty_store}
use sqliteproxy.Storage.Registry.{publish, get, get_by_username}
use sqliteproxy.Examples.Stores.{config, empty, reserved, same_order, tenant, tenant_pool}

-- The answers of the system when a store is opened.
abbrev startup : Startup
startup = record {
  absolute = λ t. ok t;
  make_dir = λ t. none;
  is_directory = λ t. ok true;
  open_mgmt = none;
  ping_mgmt = none;
  migrate = none;
  parse_nano = λ t. ok 7;
  parse_seconds = λ t. ok 7;
}

-- A process that has died left a database behind: its file, and its row with a status.
abbrev left : Status → World slot_catalog machine
left st = record {
  store = empty;
  db = some (record reserved { status = st });
  host = record { handles = []; files = codes "/d/db_1a.sqlite" ∷ []; limit = 9 };
}

abbrev reopened_store : World slot_catalog machine
reopened_store = (open_store slot_catalog machine startup same_order config (left ready)).1

abbrev reopened_tenant : Database
reopened_tenant = record tenant { pool = record { handle = 0; config = tenant_pool 0 } }

open_store-Loads_example :
    (root : Text) × (db : Database) × Loads slot_catalog machine startup
      (empty_store slot_catalog machine startup config root)
      (record reserved { status = ready })
      db
    × (get (codes "db_1a") reopened_store.store ≡ ok db)
    × (get_by_username (codes "u_1b") reopened_store.store ≡ ok db)
unfolding open_store sqliteproxy.Storage.Boot.check_root reconcile
    sqliteproxy.Storage.Boot.clean_all sqliteproxy.Storage.Boot.load_ready
    sqliteproxy.Storage.Boot.load_all sqliteproxy.Storage.Boot.load_row
    sqliteproxy.Storage.Boot.check_file text_eq sqliteproxy.Storage.db_path
    sqliteproxy.Storage.Boot.open_loaded sqliteproxy.Storage.Provision.open_tenant_pool new_pool
    sqliteproxy.Storage.Boot.publish_loaded publish
open_store-Loads_example =
    open_store-Loads slot_catalog machine startup same_order config (left ready)
      (record reserved { status = ready }) refl refl refl
