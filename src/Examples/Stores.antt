-- ===== src/Examples/Stores.antt =====
-- storage/store.go: a store at `/d`, before and after a database.
pub mod Creations
pub mod Openings
pub mod Registries
use sqliteproxy.Base.{
  ℕ, ◌≡◌, ◌≢◌, refl, inl, inr, ◌⊎◌, Bool, true, false, [], ◌∷◌, List, Text, codes, text_eq, Option,
  none, some, if◌then◌else◌, arith, ◌==◌,
}
use sqliteproxy.Base.Int.{pos}
use sqliteproxy.Errors.{Error, external, closed, wrapped, nil_dereference}
use sqliteproxy.Effect.{ok, err}
use sqliteproxy.Examples.Machine.{Machine, machine}
use sqliteproxy.Examples.Table.{slot_catalog}
use sqliteproxy.Sqlite.{PoolConfig, new_pool, close_pool}
use sqliteproxy.Storage.Catalog.{Row, drop_creating}
use sqliteproxy.Storage.Label.{normalize_label}
use sqliteproxy.Storage.Provision.Calls.{create-Success, import_database-Success}
use sqliteproxy.Storage.Provision.Failures.{create_handles, import_database_handles}
use sqliteproxy.Storage.Provision.Outcome.{opened_database}
use sqliteproxy.Storage.Provision.Success.{Success, IsGentle}
use sqliteproxy.Storage.Provision.{
  provision, publish_new, reserve, World, Draft, create, import_database,
}
use sqliteproxy.Storage.{Status, creating, ready, Metadata, Database, Store, StoreConfig}
use sqliteproxy.Base.Dict.{lookup}
use sqliteproxy.Errors.{not_found}
use sqliteproxy.Sqlite.Handles.{new_pool_handles, opened_pool}
use sqliteproxy.Storage.Boot.Cleanup.{reconcile_rows}
use sqliteproxy.Storage.Boot.Loading.{Loads}
use sqliteproxy.Storage.Boot.Opening.{open_store-Loads}
use sqliteproxy.Storage.Boot.{Startup, open_store, reconcile, empty_store}
use sqliteproxy.Storage.Consistency.{
  IsConsistent, publish-IsConsistent, get-publish, get-agrees, close_closed,
}
use sqliteproxy.Storage.Label.Normal.{IsNormalized, normalize_label-IsNormalized}
use sqliteproxy.Storage.Provision.Hazards.{
  Recorded, Unrecorded, create_error, create_orphan, create-close_race,
}
use sqliteproxy.Storage.Query.Handles.{query_handles}
use sqliteproxy.Storage.Query.{Reading, read, query}
use sqliteproxy.Storage.Registry.{publish, get, get_by_username, export, list, close}

abbrev pub config : StoreConfig
config = record {
  root = codes "/d";
  wal_mode = true;
  busy_timeout = pos 5_000_000_000;
  max_conns = pos 10;
}

abbrev pub empty : Store
empty = record {
  root = codes "/d";
  config = config;
  mgmt_open = true;
  by_name = [];
  by_user = [];
  closed = false;
}

abbrev pub idle : ℕ → Machine
idle limit = record { handles = []; files = []; limit = limit }

abbrev pub start : World slot_catalog machine
start = record { store = empty; db = none; host = idle 9 }

abbrev pub draft : Draft
draft = record {
  name_ulid = codes "1A";
  user_ulid = codes "1B";
  password = ok (codes "pw");
  created_at = 7;
  created_text = codes "t7";
}

abbrev pub stay : World slot_catalog machine → World slot_catalog machine
stay w = w

abbrev pub tenant_pool : ℕ → PoolConfig
tenant_pool h = record {
  max_open_conns = pos 10;
  max_idle_conns = pos 5;
  max_lifetime = pos 3_600_000_000_000;
  busy_timeout = pos 5_000_000_000;
  wal_mode = true;
  restricted = true;
}

abbrev pub tenant : Database
tenant = record {
  metadata = record {
    name = codes "db_1a";
    label = codes "app";
    username = codes "u_1b";
    password = codes "pw";
    status = ready;
    created_at = 7;
  };
  path = codes "/d/db_1a.sqlite";
  pool = record { handle = 1; config = tenant_pool 1 };
}

abbrev pub reserved : Row
reserved = record {
  name = codes "db_1a";
  label = codes "app";
  username = codes "u_1b";
  password = codes "pw";
  status = creating;
  created_at = codes "t7";
}

abbrev pub same_order : List Database → List Database
same_order dbs = dbs

pub empty-IsConsistent : IsConsistent empty
unfolding lookup
empty-IsConsistent = record { names = λ n db h. ground arith; users = λ u db h. ground arith }

abbrev pub one : Store
one = record empty { by_name = (codes "db_1a", tenant) ∷ []; by_user = (codes "u_1b", tenant) ∷ [] }

pub one-IsConsistent : IsConsistent one
unfolding publish
one-IsConsistent = publish-IsConsistent tenant empty one refl empty-IsConsistent

abbrev pub read_nothing : ℕ → Text → Machine → Reading Text × Machine
read_nothing n sql m = (read (record { columns = []; rows = [] }), m)
