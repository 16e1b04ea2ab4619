-- ===== src/Sqlite.antt =====
-- sqlite/pool.go: opening and closing a pool of connections to one SQLite file, over an interface
-- to the operating system and the SQL driver.
pub mod Interface
pub mod Handles
pub mod Authorizer
use sqliteproxy.Base.{
  ℕ, ◌≡◌, refl, [], ◌∷◌, ◌++◌, Bool, true, false, Text, codes, concat, Option, none, some,
  if◌then◌else◌, ◌==◌,
}
use sqliteproxy.Base.Int.{ℤ, pos, quot, format_int}
use sqliteproxy.Errors.{Error, wrapped}
use sqliteproxy.Effect.{Result, ok, err, Action, pure, ◌>>=◌, ◌>>◌, attempt, or_cleanup, run_unit}
use Interface.{Host}

-- `DriverName` and `RestrictedDriverName`
abbrev pub driver_name : Text
driver_name = codes "sqlite3"

abbrev pub restricted_driver_name : Text
restricted_driver_name = codes "sqlite3_restricted"

-- Durations count nanoseconds.
pub record PoolConfig : Type 0 where
  pub max_open_conns : ℤ
  pub max_idle_conns : ℤ
  pub max_lifetime : ℤ
  pub busy_timeout : ℤ
  pub wal_mode : Bool
  pub restricted : Bool

abbrev pub default_pool_config : PoolConfig
default_pool_config = record {
  max_open_conns = pos 10;
  max_idle_conns = pos 5;
  max_lifetime = pos 3_600_000_000_000;
  busy_timeout = pos 5_000_000_000;
  wal_mode = true;
  restricted = false;
}

-- `handle` names the open `*sql.DB`.
pub record Pool : Type 0 where
  pub handle : ℕ
  pub config : PoolConfig

unfoldable pub journal_mode : Bool → Text
journal_mode true = codes "WAL"
journal_mode false = codes "DELETE"

-- `d.Milliseconds()`, rounded towards zero, as text.
unfoldable pub milliseconds : ℤ → Text
unfolding format_int
milliseconds d = format_int (quot d 1_000_000)

unfoldable pub pool_dsn : Text → PoolConfig → Text
unfolding journal_mode milliseconds
pool_dsn path config = concat (
    codes "file:"
    ∷ path
    ∷ codes "?_journal_mode="
    ∷ journal_mode config.wal_mode
    ∷ codes "&_busy_timeout="
    ∷ milliseconds config.busy_timeout
    ∷ codes "&_foreign_keys=on"
    ∷ [])

module _ (host : Host) where
  open host use {State, open_db, configure, ping, exec, close_db}

  -- `if err := …; err != nil { db.Close(); return nil, fmt.Errorf("…: %w", err) }`
  abbrev or_close : ℕ → Text → (State → Option Error × State) → Action State (Unit {0})
  or_close h text call = or_cleanup (attempt call) (λ s. (close_db h s).1) (wrapped text)

  abbrev enable_wal : ℕ → Bool → Action State (Unit {0})
  enable_wal h true =
      or_close h (codes "failed to enable WAL mode") (exec h (codes "PRAGMA journal_mode=WAL"))
  enable_wal h false = pure tt

  unfoldable pub new_pool : Text → PoolConfig → Action State Pool
  new_pool path config = do
    h ←
        or_cleanup
          (open_db (if config.restricted then restricted_driver_name else driver_name)
            (pool_dsn path config))
          (λ s. s) (wrapped (codes "failed to open database " ++ path))
    run_unit (configure h config.max_open_conns config.max_idle_conns config.max_lifetime)
    or_close h (codes "failed to ping database " ++ path) (ping h)
    enable_wal h config.wal_mode
    or_close h (codes "failed to enable foreign keys") (exec h (codes "PRAGMA foreign_keys=ON"))
    pure (record { handle = h; config = config })

  -- `p.Close()` of a pool that is not nil.
  unfoldable pub close_pool : Pool → State → Option Error × State
  close_pool p = close_db p.handle
