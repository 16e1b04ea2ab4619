-- ===== src/Config.antt =====
-- config.go: the configuration file, and proxy.go: the configuration of a proxy, with the defaults
-- that `New` puts in. `json.Unmarshal` is an argument: it writes over the fields of the value that it is
-- given, also where it fails.
pub mod Defaults
use sqliteproxy.Base.{
  ℕ, suc, ◌+◌, ◌-◌, ◌*◌, ◌%◌, ◌^◌, Bool, true, false, Text, codes, Option, none, some, text_eq, ltb,
  if◌then◌else◌,
}
use sqliteproxy.Base.Int.{ℤ, pos, negsuc, is_nonpositive}
use sqliteproxy.Errors.{Error, wrapped}
use sqliteproxy.Effect.{Result, ok, err}
use sqliteproxy.Storage.{StoreConfig}

pub record ServerConfig : Type 0 where
  pub address : Text
  pub port : ℤ

pub record StorageConfig : Type 0 where
  pub root : Text
  pub wal_mode : Bool
  pub busy_timeout : ℤ
  pub max_connections : ℤ

pub record ManagementConfig : Type 0 where
  pub address : Text
  pub port : ℤ

pub record LoggingConfig : Type 0 where
  pub level : Text
  pub format : Text

pub record FileConfig : Type 0 where
  pub server : ServerConfig
  pub storage : StorageConfig
  pub management : ManagementConfig
  pub logging : LoggingConfig

-- `DefaultFileConfig`
unfoldable pub default_file_config : FileConfig
default_file_config = record {
  server = record { address = codes "0.0.0.0"; port = pos 3306 };
  storage = record {
    root = codes "./data";
    wal_mode = true;
    busy_timeout = pos 5000;
    max_connections = pos 10;
  };
  management = record { address = codes "127.0.0.1"; port = pos 8080 };
  logging = record { level = codes "info"; format = codes "text" };
}

abbrev decoded : FileConfig × Option Error → FileConfig × Option Error
decoded (config, none) = (config, none)
decoded (config, some e) = (config, some (wrapped (codes "failed to parse config file") e))

-- `LoadConfig`, which returns a configuration with its error too; `content` is what reading the file
-- returns.
unfoldable pub load_config :
    (Text → FileConfig → FileConfig × Option Error) → Result Text → FileConfig × Option Error
unfolding default_file_config
load_config unmarshal (err e) =
    (default_file_config, some (wrapped (codes "failed to read config file") e))
load_config unmarshal (ok content) = decoded (unmarshal content default_file_config)

pub record Config : Type 0 where
  pub address : Text
  pub port : ℤ
  pub storage_root : Text
  pub wal_mode : Bool
  pub busy_timeout : ℤ
  pub max_conns : ℤ
  pub management_address : Text
  pub management_port : ℤ
  pub debug : Bool

-- `DefaultConfig`
unfoldable pub default_config : Config
default_config = record {
  address = codes "0.0.0.0";
  port = pos 3306;
  storage_root = codes "./data";
  wal_mode = true;
  busy_timeout = pos 5_000_000_000;
  max_conns = pos 10;
  management_address = codes "127.0.0.1";
  management_port = pos 8080;
  debug = false;
}

-- The 64 bits of a product, read as a signed number.
abbrev pub of_bits : ℕ → ℤ
of_bits r = if ltb r (2 ^ 63) then pos r else negsuc (2 ^ 64 - 1 - r)

-- `time.Duration(n) * time.Millisecond`, which wraps around.
unfoldable pub milliseconds : ℤ → ℤ
milliseconds (pos n) = of_bits (n * 1_000_000 % 2 ^ 64)
milliseconds (negsuc n) = of_bits ((2 ^ 64 - suc n * 1_000_000 % 2 ^ 64) % 2 ^ 64)

-- `ToConfig`
unfoldable pub to_config : FileConfig → Config
unfolding milliseconds text_eq
to_config fc = record {
  address = fc.server.address;
  port = fc.server.port;
  storage_root = fc.storage.root;
  wal_mode = fc.storage.wal_mode;
  busy_timeout = milliseconds fc.storage.busy_timeout;
  max_conns = fc.storage.max_connections;
  management_address = fc.management.address;
  management_port = fc.management.port;
  debug = text_eq fc.logging.level (codes "debug");
}

-- The defaults of `New`.
unfoldable pub with_limits : Config → Config
with_limits c = record c {
  max_conns = if is_nonpositive c.max_conns then pos 10 else c.max_conns;
  busy_timeout = if is_nonpositive c.busy_timeout then pos 5_000_000_000 else c.busy_timeout;
}

-- What `New` opens the storage with.
abbrev pub store_config : Config → StoreConfig
store_config c = record {
  root = c.storage_root;
  wal_mode = c.wal_mode;
  busy_timeout = c.busy_timeout;
  max_conns = c.max_conns;
}
