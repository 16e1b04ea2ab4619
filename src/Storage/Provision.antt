-- ===== src/Storage/Provision.antt =====
-- storage/store.go, `Create` and `Import`. Between the test of `closed` and the first use of the
-- management database, and again before the store's lock is taken to publish, other goroutines may
-- run: what they do to the world is an argument, `meanwhile` and `later`.
pub mod Stages
pub mod Outcome
pub mod Success
pub mod Calls
pub mod Failures
pub mod Hazards
pub mod Statuses
use sqliteproxy.Base.{
  ℕ, ◌≡◌, refl, ◌++◌, Bool, true, false, [], ◌∷◌, Text, codes, Option, none, some, to_lower,
  if◌then◌else◌,
}
use sqliteproxy.Base.Int.{ℤ, quot, pos, at_least_one}
use sqliteproxy.Errors.{Error, closed, nil_dereference, wrapped}
use sqliteproxy.Effect.{
  Result, ok, err, Action, pure, fail, ◌>>=◌, ◌>>◌, attempt, or_cleanup, run_unit,
}
use sqliteproxy.Sqlite.Interface.{Host}
use sqliteproxy.Sqlite.{Pool, PoolConfig, new_pool, close_pool}
use sqliteproxy.Storage.Catalog.{Catalog, Row}
use sqliteproxy.Storage.Label.{normalize_label}
use sqliteproxy.Storage.Registry.{publish}
use sqliteproxy.Storage.{Status, creating, ready, Metadata, Database, StoreConfig, Store, db_path}

-- What `ulid.Make`, `generatePassword` and the clock return during one call.
pub record Draft : Type 0 where
  pub name_ulid : Text
  pub user_ulid : Text
  pub password : Result Text
  pub created_at : ℕ
  pub created_text : Text

abbrev pub name_of : Draft → Text
name_of d = codes "db_" ++ to_lower d.name_ulid

abbrev pub username_of : Draft → Text
username_of d = codes "u_" ++ to_lower d.user_ulid

abbrev pub tenant_config : StoreConfig → PoolConfig
tenant_config c = record {
  max_open_conns = c.max_conns;
  max_idle_conns = at_least_one (quot c.max_conns 2);
  max_lifetime = pos 3_600_000_000_000;
  busy_timeout = c.busy_timeout;
  wal_mode = c.wal_mode;
  restricted = true;
}

abbrev pub new_row : Draft → Text → Text → Row
new_row d label password = record {
  name = name_of d;
  label = label;
  username = username_of d;
  password = password;
  status = creating;
  created_at = d.created_text;
}

abbrev pub new_metadata : Draft → Text → Text → Metadata
new_metadata d label password = record {
  name = name_of d;
  label = label;
  username = username_of d;
  password = password;
  status = ready;
  created_at = d.created_at;
}

module _ (C : Catalog) (H : Host) where
  pub record World : Type 0 where
    pub store : Store
    pub db : C.Db
    pub host : H.State

  -- `openTenantPool`
  unfoldable pub open_tenant_pool : StoreConfig → Text → Action H.State Pool
  open_tenant_pool config path = new_pool H path (tenant_config config)

  -- `os.OpenFile` with `O_EXCL`, then `f.Close`
  unfoldable pub make_empty_file : Text → Action H.State (Unit {0})
  make_empty_file path = do
    or_cleanup (attempt (H.create_file path)) (λ h. h) (wrapped (codes "create database file"))
    or_cleanup (attempt (H.close_file path)) (H.remove_file path) (λ e. e)

  -- `os.WriteFile`
  unfoldable pub write_import_file : Text → Text → Action H.State (Unit {0})
  write_import_file content path =
      or_cleanup (attempt (H.write_file path content)) (λ h. h)
        (wrapped (codes "write database file"))

  -- `cleanupImportFiles`, and the three calls of `os.Remove` in `Create` and `reconcile`
  unfoldable pub remove_files : Text → H.State → H.State
  remove_files path h =
      H.remove_file (path ++ codes "-shm")
        (H.remove_file (path ++ codes "-wal") (H.remove_file path h))

  -- Open a pool on the new file, and close it again.
  unfoldable pub validate_file : StoreConfig → Text → Text → Action H.State (Unit {0})
  unfolding close_pool
  validate_file config text path = do
    p ← or_cleanup (open_tenant_pool config path) (remove_files path) (wrapped text)
    attempt (close_pool H p)

  -- `s.mgmt.Begin()` on a pointer that `Close` has set to nil is a nil dereference.
  unfoldable pub reserve : Row → Bool → C.Db → Result C.Tx
  reserve r false d = err nil_dereference
  reserve r true d = elim (C.begin d) [
    | err e ↦ err e
    | ok t ↦ elim (C.insert_row r t) [
      | err e ↦ err (wrapped (codes "reserve database metadata") e)
      | ok t' ↦ ok t'
    ]
  ]

  -- `UPDATE … SET status`, then `tx.Commit()`
  unfoldable pub commit_ready : Text → C.Tx → C.Db → Result C.Db
  commit_ready name t d = elim (C.mark_ready name t) [
    | err e ↦ err (wrapped (codes "mark database ready") e)
    | ok t' ↦ C.commit t' d
  ]

  abbrev pub of_result : {A : Type 0} → Result A → Action World A
  of_result r w = (r, w)

  abbrev pub on_host : {A : Type 0} → Action H.State A → Action World A
  on_host m w = ((m w.host).0, record w { host = (m w.host).1 })

  abbrev pub reserve_row : Row → Action World C.Tx
  reserve_row r w = (reserve r w.store.mgmt_open w.db, w)

  -- The new committed content, or the cleanup of the files.
  abbrev pub commit_row : Text → C.Tx → (H.State → H.State) → Action World (Unit {0})
  commit_row name t cleanup w = elim (commit_ready name t w.db) [
    | ok d ↦ (ok tt, record w { db = d })
    | err e ↦ (err e, record w { host = cleanup w.host })
  ]

  -- Everything behind the test of `closed`, up to the pool that will be published. `fill` makes the
  -- file, `text` and `cleanup` are what differs between `Create` and `Import`.
  unfoldable pub provision :
      Draft
      → Text
      → (Text → Action H.State (Unit {0}))
      → (Text → H.State → H.State)
      → Text
      → Text
      → Action World Database
  provision draft label fill cleanup invalid failed w =
      (do
        password ← of_result draft.password
        t ← reserve_row (new_row draft label password)
        let path = db_path w.store (name_of draft)
        on_host (fill path)
        on_host (validate_file w.store.config invalid path)
        commit_row (name_of draft) t (cleanup path)
        pool ← on_host (or_cleanup (open_tenant_pool w.store.config path) (λ h. h) (wrapped failed))
        pure (record { metadata = new_metadata draft label password; path = path; pool = pool }))
        w

  -- The end of both: under the lock, publish the database or close its pool.
  unfoldable pub publish_new : Database → Action World Database
  publish_new database w =
      let closed_host = record w { host = (close_pool H database.pool w.host).1 } in
      if w.store.closed then (err closed, closed_host) else elim (publish database w.store) [
        | ok s ↦ (ok database, record w { store = s })
        | err e ↦ (err e, closed_host)
      ]

  abbrev check_closed : Action World (Unit {0})
  check_closed w = if w.store.closed then (err closed, w) else (ok tt, w)

  unfoldable pub create : (World → World) → (World → World) → Draft → Text → Action World Database
  create meanwhile later draft label = do
    label' ← of_result (normalize_label label)
    check_closed
    run_unit meanwhile
    database ←
        provision draft label' make_empty_file H.remove_file (codes "initialize database file")
          (codes "open ready database pool")
    run_unit later
    publish_new database

  unfoldable pub import_database :
      (World → World) → (World → World) → Draft → Text → Text → Action World Database
  import_database meanwhile later draft label content = do
    label' ← of_result (normalize_label label)
    check_closed
    run_unit meanwhile
    database ←
        provision draft label' (write_import_file content) remove_files
          (codes "validate database file (not a valid SQLite)")
          (codes "open imported database pool")
    run_unit later
    publish_new database
