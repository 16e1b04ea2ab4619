-- ===== src/Examples/Stores/Creations.antt =====
-- storage/store.go and sqlite/pool.go, Create and Import: the theorems at concrete inputs.
use sqliteproxy.Storage.Provision.Statuses.{create_creating}
use sqliteproxy.Storage.{creating}
use sqliteproxy.Base.{
  ℕ, ◌≡◌, ◌≢◌, refl, inl, inr, ◌⊎◌, Bool, true, false, [], ◌∷◌, List, Text, codes, text_eq, Option,
  none, some, if◌then◌else◌, arith, ◌==◌,
}
use sqliteproxy.Errors.{Error, external, wrapped, nil_dereference}
use sqliteproxy.Effect.{err}
use sqliteproxy.Examples.Machine.{machine}
use sqliteproxy.Examples.Table.{slot_catalog}
use sqliteproxy.Sqlite.{new_pool, close_pool}
use sqliteproxy.Storage.Label.{normalize_label}
use sqliteproxy.Storage.Provision.Calls.{create-Success, import_database-Success}
use sqliteproxy.Storage.Provision.Failures.{create_handles, import_database_handles}
use sqliteproxy.Storage.Provision.Outcome.{opened_database}
use sqliteproxy.Storage.Provision.Success.{Success, IsGentle}
use sqliteproxy.Storage.Provision.{
  provision, publish_new, reserve, World, Draft, create, import_database,
}
use sqliteproxy.Storage.{Status, creating, ready, Metadata, Database, Store, StoreConfig}
use sqliteproxy.Storage.Provision.Hazards.{
  Recorded, Unrecorded, create_error, create_orphan, create-close_race,
}
use sqliteproxy.Storage.Registry.{publish, close}
use sqliteproxy.Examples.Stores.{draft, empty, idle, reserved, same_order, start, stay, tenant}

stay-IsGentle : IsGentle slot_catalog machine stay
stay-IsGentle = record { keeps_rows = λ v n. refl; keeps_files = λ v p h. h }

create-Success_example :
    (false ≡ false)
    × Success slot_catalog machine draft
        (codes " app ")
        start
        (create slot_catalog machine stay stay draft (codes " app ") start).1
        tenant
unfolding create normalize_label provision publish_new new_pool close_pool reserve
    sqliteproxy.Storage.Provision.make_empty_file sqliteproxy.Storage.Provision.validate_file
    sqliteproxy.Storage.Provision.open_tenant_pool sqliteproxy.Storage.Provision.commit_ready
    publish sqliteproxy.Base.to_lower sqliteproxy.Storage.db_path
create-Success_example =
    create-Success slot_catalog machine stay stay draft (codes " app ") [] start tenant
      stay-IsGentle refl

import_database-Success_example :
    (false ≡ false)
    × Success slot_catalog machine draft
        (codes "app")
        start
        (import_database slot_catalog machine stay stay draft
          (codes "app")
          (codes "SQLite")
          start).1
        tenant
unfolding import_database normalize_label provision reserve
    sqliteproxy.Storage.Provision.write_import_file sqliteproxy.Storage.Provision.validate_file
    sqliteproxy.Storage.Provision.open_tenant_pool new_pool
    sqliteproxy.Storage.Provision.commit_ready publish_new publish sqliteproxy.Base.to_lower
    sqliteproxy.Storage.db_path
import_database-Success_example =
    import_database-Success slot_catalog machine stay stay draft (codes "app") (codes "SQLite")
      start tenant stay-IsGentle refl

create_handles_example :
    machine.is_open 1 (create slot_catalog machine stay stay draft (codes "app") start).1.host
    ≡ opened_database (create slot_catalog machine stay stay draft (codes "app") start).0 1 false
create_handles_example =
    create_handles slot_catalog machine stay stay draft (codes "app") [] start 1 (λ u. refl)
      (λ u. refl)

import_database_handles_example :
    machine.is_open 0
      (import_database slot_catalog machine stay stay draft (codes "app") (codes "x") start).1.host
    ≡ opened_database
        (import_database slot_catalog machine stay stay draft (codes "app") (codes "x") start).0
        0
        false
import_database_handles_example =
    import_database_handles slot_catalog machine stay stay draft (codes "app") (codes "x") start 0
      (λ u. refl) (λ u. refl)

-- A machine that can open one handle, so that the pool that is to be published is refused.
abbrev pub crowded : World slot_catalog machine
crowded = record { store = empty; db = none; host = idle 1 }

abbrev refusal : Error
refusal =
    wrapped (codes "failed to open database /d/db_1a.sqlite")
      (external (codes "too many open files"))

create_error_example :
    ((create slot_catalog machine stay stay draft (codes "app") crowded).1.store ≡ empty)
    × (Unrecorded slot_catalog machine crowded
          (create slot_catalog machine stay stay draft (codes "app") crowded).1
        ⊎ Recorded slot_catalog machine draft
            (create slot_catalog machine stay stay draft (codes "app") crowded).1)
unfolding create normalize_label provision reserve sqliteproxy.Storage.Provision.make_empty_file
    sqliteproxy.Storage.Provision.validate_file sqliteproxy.Storage.Provision.open_tenant_pool
    new_pool sqliteproxy.Storage.Provision.commit_ready sqliteproxy.Storage.db_path
    sqliteproxy.Base.to_lower
create_error_example =
    create_error slot_catalog machine draft (codes "app") [] crowded
      (wrapped (codes "open ready database pool") refusal) refl

create_orphan_example :
    ((create slot_catalog machine stay stay draft (codes "app") crowded).0
      ≡ err (wrapped (codes "open ready database pool") refusal))
    × ((create slot_catalog machine stay stay draft (codes "app") crowded).1.store ≡ empty)
    × Recorded slot_catalog machine draft
        (create slot_catalog machine stay stay draft (codes "app") crowded).1
unfolding reserve normalize_label sqliteproxy.Base.to_lower
    sqliteproxy.Storage.Provision.make_empty_file sqliteproxy.Storage.Provision.validate_file
    sqliteproxy.Storage.Provision.open_tenant_pool new_pool
    sqliteproxy.Storage.Provision.commit_ready text_eq sqliteproxy.Storage.db_path
create_orphan_example =
    create_orphan slot_catalog machine draft (codes "app") [] crowded (codes "app") (codes "pw")
      (some reserved) (some (record reserved { status = ready })) refusal refl refl refl refl refl
      refl refl refl

create-close_race_example :
    (create slot_catalog machine
      (λ u.
        let (_, s, h) = close machine same_order none u.store u.host in
        record u { store = s; host = h })
      stay
      draft
      (codes "app")
      start).0
    ≡ err nil_dereference
unfolding normalize_label
create-close_race_example =
    create-close_race slot_catalog machine same_order none stay draft (codes "app") (codes "app")
      (codes "pw") start refl refl refl

-- The one row of the catalog is taken by a database that is being created.
abbrev taken : World slot_catalog machine
taken = record { store = empty; db = some reserved; host = idle 9 }

create_creating_example : slot_catalog.row (codes "db_1a") taken.db ≡ some reserved
unfolding create normalize_label provision reserve text_eq
create_creating_example =
    create_creating slot_catalog machine draft (codes "app") [] taken (codes "db_1a") reserved refl
      refl
