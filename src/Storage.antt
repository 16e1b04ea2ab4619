-- ===== src/Storage.antt =====
-- storage/database.go, and the types of storage/store.go. Times are nanoseconds; a pool is named by
-- its handle.
pub mod Label
pub mod Catalog
pub mod Registry
pub mod Provision
pub mod Consistency
pub mod Boot
pub mod Query
use sqliteproxy.Base.{ℕ, Bool, Text, codes, ◌++◌}
use sqliteproxy.Base.Dict.{Dict}
use sqliteproxy.Base.Int.{ℤ}
use sqliteproxy.Sqlite.{Pool}

-- `StatusCreating` and `StatusReady`: the two values that the schema admits.
pub data Status : Type 0 where
  creating ready : Status

-- `Record`
pub record Metadata : Type 0 where
  pub name : Text
  pub label : Text
  pub username : Text
  pub password : Text
  pub status : Status
  pub created_at : ℕ

-- `Database` embeds its `Record`.
pub record Database : Type 0 where
  pub metadata : Metadata
  pub open metadata use *
  pub path : Text
  pub pool : Pool

-- `Summary`: a list view with no password.
pub record Summary : Type 0 where
  pub name : Text
  pub label : Text
  pub username : Text
  pub status : Status
  pub created_at : ℕ

-- `Details` has the fields of `Record`, and is the same type here.
abbrev pub Details : Type 0
Details = Metadata

abbrev pub summary : Database → Summary
summary d = record {
  name = d.name;
  label = d.label;
  username = d.username;
  status = d.status;
  created_at = d.created_at;
}

abbrev pub details : Database → Details
details d = record {
  name = d.name;
  label = d.label;
  username = d.username;
  password = d.password;
  status = d.status;
  created_at = d.created_at;
}

pub record StoreConfig : Type 0 where
  pub root : Text
  pub wal_mode : Bool
  pub busy_timeout : ℤ
  pub max_conns : ℤ

-- `mgmt_open` is `s.mgmt != nil`.
pub record Store : Type 0 where
  pub root : Text
  pub config : StoreConfig
  pub mgmt_open : Bool
  pub by_name : Dict Database
  pub by_user : Dict Database
  pub closed : Bool

-- `dbPath`: the root is an absolute path with no slash at its end, and a name has no separator.
unfoldable pub db_path : Store → Text → Text
db_path s name = s.root ++ codes "/" ++ name ++ codes ".sqlite"
