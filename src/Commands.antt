-- ===== src/Commands.antt =====
-- cmd/sqlite-proxy/main.go and cmd/service/main.go: the configuration that each command starts the proxy
-- with, from the flags that `flag.Parse` has read, in order, and from the environment.
pub mod Numbers
pub mod Precedence
pub mod Terminal
use sqliteproxy.Base.{
  Bool, true, false, ◌||◌, Text, codes, Option, none, some, List, [], ◌∷◌, text_eq, is_empty,
  if◌then◌else◌,
}
use sqliteproxy.Base.Int.{ℤ, pos}
use sqliteproxy.Commands.Numbers.{atoi, parse_bool}
use sqliteproxy.Config.{Config, FileConfig, default_config, to_config, milliseconds}
use sqliteproxy.Effect.{Result, ok, err}
use sqliteproxy.Errors.{Error}

-- A flag with the value that stands on the command line.
pub data Setting : Type 0 where
  address_flag : Text → Setting
  port_flag : ℤ → Setting
  storage_flag : Text → Setting
  management_address_flag : Text → Setting
  management_port_flag : ℤ → Setting
  wal_flag : Bool → Setting
  max_conns_flag : ℤ → Setting
  debug_flag : Bool → Setting

-- The variables that `main` declares, and the names that `flag.Visit` visits.
pub record Flags : Type 0 where
  pub address : Text
  pub port : ℤ
  pub storage_root : Text
  pub mgmt_address : Text
  pub mgmt_port : ℤ
  pub wal_mode : Bool
  pub max_conns : ℤ
  pub debug : Bool
  pub visited : List Text

unfoldable pub default_flags : Flags
default_flags = record {
  address = codes "0.0.0.0";
  port = pos 3306;
  storage_root = codes "./data";
  mgmt_address = codes "127.0.0.1";
  mgmt_port = pos 8080;
  wal_mode = true;
  max_conns = pos 10;
  debug = false;
  visited = [];
}

abbrev pub parse_flag : Setting → Flags → Flags
parse_flag (address_flag v) f = record f { address = v; visited = codes "address" ∷ f.visited }
parse_flag (port_flag v) f = record f { port = v; visited = codes "port" ∷ f.visited }
parse_flag (storage_flag v) f = record f { storage_root = v; visited = codes "storage" ∷ f.visited }
parse_flag (management_address_flag v) f = record f {
  mgmt_address = v;
  visited = codes "management-address" ∷ f.visited;
}
parse_flag (management_port_flag v) f = record f {
  mgmt_port = v;
  visited = codes "management-port" ∷ f.visited;
}
parse_flag (wal_flag v) f = record f { wal_mode = v; visited = codes "wal" ∷ f.visited }
parse_flag (max_conns_flag v) f = record f {
  max_conns = v;
  visited = codes "max-conns" ∷ f.visited;
}
parse_flag (debug_flag v) f = record f { debug = v; visited = codes "debug" ∷ f.visited }

-- `flag.Parse`
abbrev pub parse_flags : List Setting → Flags → Flags
parse_flags [] f = f
parse_flags (s ∷ ss) f = parse_flags ss (parse_flag s f)

abbrev visits : Text → List Text → Bool
unfolding text_eq
visits name [] = false
visits name (v ∷ vs) = text_eq v name || visits name vs

-- `isFlagPassed`
unfoldable pub is_flag_passed : Text → Flags → Bool
unfolding text_eq
is_flag_passed name f = visits name f.visited

-- The configuration of a file, with the flags that are passed in place of its values.
unfoldable pub overridden : Config → Flags → Config
unfolding is_flag_passed
overridden c f = record c {
  address = if is_flag_passed (codes "address") f then f.address else c.address;
  port = if is_flag_passed (codes "port") f then f.port else c.port;
  storage_root = if is_flag_passed (codes "storage") f then f.storage_root else c.storage_root;
  management_address =
      if is_flag_passed (codes "management-address") f
      then f.mgmt_address
      else c.management_address;
  management_port =
      if is_flag_passed (codes "management-port") f then f.mgmt_port else c.management_port;
  wal_mode = if is_flag_passed (codes "wal") f then f.wal_mode else c.wal_mode;
  max_conns = if is_flag_passed (codes "max-conns") f then f.max_conns else c.max_conns;
  debug = if is_flag_passed (codes "debug") f then f.debug else c.debug;
}

-- The configuration with no file.
unfoldable pub from_flags : Flags → Config
unfolding default_config
from_flags f = record default_config {
  address = f.address;
  port = f.port;
  storage_root = f.storage_root;
  management_address = f.mgmt_address;
  management_port = f.mgmt_port;
  wal_mode = f.wal_mode;
  max_conns = f.max_conns;
  debug = f.debug;
}

abbrev pub loaded : FileConfig × Option Error → Flags → Result Config
unfolding overridden to_config
loaded (fc, some e) f = err e
loaded (fc, none) f = ok (overridden (to_config fc) f)

-- The configuration that `main` of sqlite-proxy hands to `New`; `load` is `LoadConfig`.
unfoldable pub proxy_config :
    (Text → FileConfig × Option Error) → Text → List Setting → Result Config
unfolding default_flags from_flags overridden to_config
proxy_config load config_file ss =
    let f = parse_flags ss default_flags in
    if is_empty config_file then ok (from_flags f) else loaded (load config_file) f

-- `envOr`, `envIntOr` and `envBoolOr`, on what `os.Getenv` returns.
unfoldable pub env_or : Text → Text → Text
env_or v fallback = if is_empty v then fallback else v

unfoldable pub env_int_or : Text → ℤ → ℤ
unfolding atoi
env_int_or v fallback =
    if is_empty v then fallback else elim (atoi v) [ some n ↦ n | none ↦ fallback ]

unfoldable pub env_bool_or : Text → Bool → Bool
unfolding parse_bool
env_bool_or v fallback =
    if is_empty v then fallback else elim (parse_bool v) [ some b ↦ b | none ↦ fallback ]

-- The configuration that `main` of service hands to `New`.
unfoldable pub service_config : (Text → Text) → Config
unfolding default_config env_or env_int_or env_bool_or milliseconds
service_config getenv = record default_config {
  address = env_or (getenv (codes "SQLITE_MYSQL_ADDR")) (codes "0.0.0.0");
  port = env_int_or (getenv (codes "SQLITE_MYSQL_PORT")) (pos 3306);
  storage_root = env_or (getenv (codes "SQLITE_STORAGE_ROOT")) (codes "/data");
  management_address = env_or (getenv (codes "SQLITE_MGMT_ADDR")) (codes "0.0.0.0");
  management_port = env_int_or (getenv (codes "SQLITE_MGMT_PORT")) (pos 8080);
  wal_mode = env_bool_or (getenv (codes "SQLITE_WAL")) true;
  max_conns = env_int_or (getenv (codes "SQLITE_MAX_CONNS")) (pos 10);
  busy_timeout = milliseconds (env_int_or (getenv (codes "SQLITE_BUSY_TIMEOUT_MS")) (pos 5000));
  debug = env_bool_or (getenv (codes "SQLITE_DEBUG")) false;
}
