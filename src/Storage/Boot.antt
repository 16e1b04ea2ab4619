-- ===== src/Storage/Boot.antt =====
-- storage/store.go, `Open`: the configuration's defaults, the cleanup of databases that were being
-- created when the process died, and the loading of the ready ones.
pub mod Cleanup
pub mod Loading
pub mod Opening
use sqliteproxy.Base.{
  ℕ, ◌≡◌, refl, ◌++◌, Bool, true, false, List, [], ◌∷◌, Text, codes, Option, none, some, is_empty,
  if◌then◌else◌,
}
use sqliteproxy.Base.Int.{ℤ, pos, is_nonpositive}
use sqliteproxy.Errors.{Error, message, wrapped}
use sqliteproxy.Effect.{Result, ok, err, Action, pure, fail, ◌>>=◌, ◌>>◌}
use sqliteproxy.Sqlite.Interface.{Host}
use sqliteproxy.Sqlite.{Pool, close_pool}
use sqliteproxy.Storage.Catalog.{Catalog, Row}
use sqliteproxy.Storage.Provision.{World, of_result, open_tenant_pool, remove_files}
use sqliteproxy.Storage.Registry.{publish, close}
use sqliteproxy.Storage.{Status, Metadata, Database, StoreConfig, Store, db_path}

-- What the operating system and the management database answer while the store is opened, and
-- `time.Parse` with the two layouts that the program tries.
pub record Startup : Type 0 where
  pub absolute : Text → Result Text
  pub make_dir : Text → Option Error
  -- `os.Lstat`: whether the root is a directory and no symbolic link
  pub is_directory : Text → Result Bool
  pub open_mgmt : Option Error
  pub ping_mgmt : Option Error
  pub migrate : Option Error
  pub parse_nano : Text → Result ℕ
  pub parse_seconds : Text → Result ℕ

abbrev pub with_defaults : StoreConfig → StoreConfig
with_defaults c = record c {
  max_conns = if is_nonpositive c.max_conns then pos 10 else c.max_conns;
  busy_timeout = if is_nonpositive c.busy_timeout then pos 5_000_000_000 else c.busy_timeout;
}

abbrev pub parse_created : Startup → Row → Result ℕ
parse_created env r = elim (env.parse_nano r.created_at) [
  | ok t ↦ ok t
  | err _ ↦ elim (env.parse_seconds r.created_at) [
    | ok t ↦ ok t
    | err e ↦ err (wrapped (codes "parse created_at for " ++ r.name) e)
  ]
]

abbrev pub loaded_metadata : Row → ℕ → Metadata
loaded_metadata r t = record {
  name = r.name;
  label = r.label;
  username = r.username;
  password = r.password;
  status = r.status;
  created_at = t;
}

module _ (C : Catalog) (H : Host) (env : Startup) where
  -- The body of the second loop of `reconcile`.
  unfoldable pub clean_all : List Text → World C H → Result (Unit {0}) × World C H
  clean_all [] w = (ok tt, w)
  clean_all (n ∷ ns) w =
      let cleaned = record w { host = remove_files C H (db_path w.store n) w.host } in
      elim (C.delete_creating n w.db) [
        | err e ↦ (err (wrapped (codes "cleanup creating database " ++ n) e), cleaned)
        | ok d ↦ clean_all ns (record cleaned { db = d })
      ]

  unfoldable pub reconcile : World C H → Result (Unit {0}) × World C H
  reconcile w = elim (C.select_creating w.db) [
    | err e ↦ (err (wrapped (codes "list creating databases") e), w)
    | ok ns ↦ clean_all ns w
  ]

  -- `publishLocked` under the lock; the pool is closed where it fails.
  unfoldable pub publish_loaded : Database → World C H → Result (Unit {0}) × World C H
  publish_loaded db w = elim (publish db w.store) [
    | ok s ↦ (ok tt, record w { store = s })
    | err e ↦ (err e, record w { host = (close_pool H db.pool w.host).1 })
  ]

  unfoldable pub check_file : Row → World C H → Result (Unit {0}) × World C H
  check_file r w = elim (H.stat_file (db_path w.store r.name) w.host) [
    | none ↦ (ok tt, w)
    | some e ↦ (err (wrapped (codes "ready database file missing for " ++ r.name) e), w)
  ]

  unfoldable pub open_loaded : Row → World C H → Result Pool × World C H
  open_loaded r w =
      let opened = open_tenant_pool C H w.store.config (db_path w.store r.name) w.host in
      elim opened.0 [
        | ok p ↦ (ok p, record w { host = opened.1 })
        | err e ↦
            (err (wrapped (codes "open ready database " ++ r.name) e), record w { host = opened.1 })
      ]

  -- The body of the loop of `loadReady`.
  unfoldable pub load_row : Row → World C H → Result (Unit {0}) × World C H
  load_row r w =
      (do
        t ← of_result C H (parse_created env r)
        check_file r
        p ← open_loaded r
        publish_loaded
            (record { metadata = loaded_metadata r t; path = db_path w.store r.name; pool = p }))
        w

  unfoldable pub load_all : List Row → World C H → Result (Unit {0}) × World C H
  load_all [] w = (ok tt, w)
  load_all (r ∷ rs) w = elim (load_row r w).0 [
    | err e ↦ (err e, (load_row r w).1)
    | ok _ ↦ load_all rs (load_row r w).1
  ]

  unfoldable pub load_ready : World C H → Result (Unit {0}) × World C H
  load_ready w = elim (C.select_ready w.db) [
    | err e ↦ (err (wrapped (codes "list ready databases") e), w)
    | ok rs ↦ load_all rs w
  ]

  -- `s.Close()` on the error paths of `Open`.
  abbrev abandon :
      (List Database → List Database)
      → Result (Unit {0}) × World C H
      → Action (World C H) (Unit {0})
  abandon order (ok _, w) _ = (ok tt, w)
  abandon order (err e, w) _ =
      let (_, s, h) = close H order none w.store w.host in (err e, record w { store = s; host = h })

  abbrev nil_or : Option Error → (Error → Error) → Result (Unit {0})
  nil_or none wrap = ok tt
  nil_or (some e) wrap = err (wrap e)

  abbrev is_root : Bool → Text → Result (Unit {0})
  is_root true root = ok tt
  is_root false root = err (message (codes "storage root must be a directory: " ++ root))

  -- The checks before the store exists: the absolute root.
  unfoldable pub check_root : StoreConfig → World C H → Result Text × World C H
  check_root config = do
    of_result C H
        (if is_empty config.root then err (message (codes "storage root is required")) else ok tt)
    root ← of_result C H (elim (env.absolute config.root) [
      | ok r ↦ ok r
      | err e ↦ err (wrapped (codes "resolve storage root") e)
    ])
    of_result C H (nil_or (env.make_dir root) (wrapped (codes "create storage root")))
    directory ← of_result C H (env.is_directory root)
    of_result C H (is_root directory root)
    of_result C H (nil_or env.open_mgmt (wrapped (codes "open management db")))
    of_result C H (nil_or env.ping_mgmt (wrapped (codes "ping management db")))
    of_result C H (nil_or env.migrate (wrapped (codes "migrate management schema")))
    pure root

  abbrev pub empty_store : StoreConfig → Text → Store
  empty_store config root = record {
    root = root;
    config = with_defaults config;
    mgmt_open = true;
    by_name = [];
    by_user = [];
    closed = false;
  }

  -- `Open`: the store of the world is set where the program makes it.
  unfoldable pub open_store :
      (List Database → List Database) → StoreConfig → World C H → Result (Unit {0}) × World C H
  open_store order config = do
    root ← check_root config
    (λ w. abandon order (reconcile (record w { store = empty_store config root })) w)
    (λ w. abandon order (load_ready w) w)
