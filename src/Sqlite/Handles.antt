-- ===== src/Sqlite/Handles.antt =====
-- sqlite/pool.go: which handles are open after `NewPool` and `Close`, and which files remain.
use sqliteproxy.Base.{ℕ, ◌≡◌, Bool, true, false, Text, arith, if◌then◌else◌, ◌==◌}
use sqliteproxy.Effect.{Result, ok, err}
use sqliteproxy.Sqlite.Interface.{Host}
use sqliteproxy.Sqlite.{Pool, PoolConfig, new_pool}

-- Whether handle `j` is open after a call that may have returned a pool.
abbrev pub opened_pool : Result Pool → ℕ → Bool → Bool
opened_pool (ok p) j before = if p.handle == j then true else before
opened_pool (err e) j before = before

module _ (host : Host) where
  open host use {State, is_open, has_file}

  -- The handles that are open after `NewPool` are those that were open before, and on success the
  -- handle of the new pool: on every error path the database that was opened is closed again.
  pub new_pool_handles :
      (path : Text) (config : PoolConfig) (s : State) (j : ℕ)
      → is_open j (new_pool host path config s).1
        ≡ opened_pool (new_pool host path config s).0 j (is_open j s)
  unfolding new_pool
  new_pool_handles path config s j = grind (
    arith, host.open_db_handles, host.open_db_fresh, host.configure_handles, host.ping_handles,
    host.exec_handles, host.close_db_handles,
  )

  pub new_pool_fresh :
      (path : Text) (config : PoolConfig) (s : State) (p : Pool)
      → (new_pool host path config s).0 ≡ ok p
      → is_open p.handle s ≡ false
  unfolding new_pool
  new_pool_fresh path config s p = grind (arith, host.open_db_fresh)

  pub new_pool_files :
      (path : Text) (config : PoolConfig) (s : State) (p : Text)
      → has_file p s ≡ true
      → has_file p (new_pool host path config s).1 ≡ true
  unfolding new_pool
  new_pool_files path config s p h = grind (
    arith, host.open_db_files, host.configure_files, host.ping_files, host.exec_files,
    host.close_db_files,
  )
