-- ===== src/Storage/Registry.antt =====
-- storage/store.go: the registry of ready databases, as the methods under the store's lock read and
-- change it.
use sqliteproxy.Base.{
  ◌++◌, Bool, true, false, List, [], ◌∷◌, Text, codes, Option, none, some, map, if◌then◌else◌,
}
use sqliteproxy.Base.Dict.{Dict, lookup, insert, values}
use sqliteproxy.Errors.{Error, not_found, closed, message, first_error}
use sqliteproxy.Effect.{Result, ok, err}
use sqliteproxy.Sqlite.Interface.{Host}
use sqliteproxy.Sqlite.{close_pool}
use sqliteproxy.Storage.{Database, Store, Summary, summary}

-- `publishLocked`
unfoldable pub publish : Database → Store → Result Store
unfolding lookup insert
publish db s = elim (lookup db.name s.by_name) [
  | some _ ↦ err (message (codes "duplicate database name in catalog: " ++ db.name))
  | none ↦ elim (lookup db.username s.by_user) [
    | some _ ↦ err (message (codes "duplicate username in catalog: " ++ db.username))
    | none ↦ ok (record s {
      by_name = insert db.name db s.by_name;
      by_user = insert db.username db s.by_user;
    })
  ]
]

abbrev pub find_in : Bool → Text → Dict Database → Result Database
find_in true key m = err closed
find_in false key m = elim (lookup key m) [ none ↦ err not_found | some db ↦ ok db ]

-- `Get`
unfoldable pub get : Text → Store → Result Database
unfolding lookup
get name s = find_in s.closed name s.by_name

-- `GetByUsername`
unfoldable pub get_by_username : Text → Store → Result Database
unfolding lookup
get_by_username username s = find_in s.closed username s.by_user

-- `Export`
unfoldable pub export : Text → Store → Result Text
unfolding lookup
export name s = elim (find_in s.closed name s.by_name) [ ok db ↦ ok db.path | err e ↦ err e ]

-- `List`; `order` is the order in which Go happens to walk the map.
unfoldable pub list : (List Database → List Database) → Store → Result (List Summary)
list order s = if s.closed then err closed else ok (map summary (order (values s.by_name)))

module _ (host : Host) where
  open host use {State}

  abbrev close_pools : List Database → State → Option Error × State
  close_pools [] h = (none, h)
  close_pools (db ∷ dbs) h =
      let (first, h') = close_pool host db.pool h in
      let (later, h'') = close_pools dbs h' in (first_error first later, h'')

  abbrev close_mgmt : Bool → Option Error → Option Error
  close_mgmt true result = result
  close_mgmt false result = none

  -- `Close`. `mgmt_result` is what closing the management database returns; a walk over the maps
  -- after `s.byName = nil` finds nothing.
  unfoldable pub close :
      (List Database → List Database) → Option Error → Store → State → Option Error × Store × State
  unfolding close_pool
  close order mgmt_result s h =
      if s.closed
      then (none, s, h)
      else let (pools, h') = close_pools (order (values s.by_name)) h in
        (
          first_error pools (close_mgmt s.mgmt_open mgmt_result),
          record s { closed = true; by_name = []; by_user = []; mgmt_open = false },
          h',
        )
