-- ===== src/Storage/Query/Handles.antt =====
-- storage/store.go, `Query`: the handles after a query.
use sqliteproxy.Base.{ℕ, ◌≡◌, Text, arith}
use sqliteproxy.Sqlite.Interface.{Host}
use sqliteproxy.Storage.Query.{Reading, query, query_on}
use sqliteproxy.Storage.{Store}

module _ (H : Host) (V : Type 0) (run : ℕ → Text → H.State → Reading V × H.State) where
  -- Whatever a query comes to, the handles that are open after it are those that were open before,
  -- provided that running a statement opens and closes no handle.
  pub query_handles :
      ((n : ℕ) (sql : Text) (h : H.State) (j : ℕ) → H.is_open j (run n sql h).1 ≡ H.is_open j h)
      → (s : Store) (name sql : Text) (h : H.State) (j : ℕ)
      → H.is_open j (query H V run s name sql h).1 ≡ H.is_open j h
  unfolding query query_on
  query_handles keeps s name sql h j =
      grind (arith, keeps, H.open_db_handles, H.open_db_fresh, H.close_db_handles)
