-- ===== src/Storage/Provision/Outcome.antt =====
-- storage/store.go: what `Create` and `Import` have done when they return, on success and on error.
use sqliteproxy.Base.{ℕ, ◌≡◌, inl, inr, Bool, true, Text, if◌then◌else◌, ◌==◌, arith}
use sqliteproxy.Effect.{Result, ok, err, Action, Result-cases}
use sqliteproxy.Sqlite.Interface.{Host}
use sqliteproxy.Sqlite.{Pool}
use sqliteproxy.Storage.Catalog.{Catalog}
use sqliteproxy.Storage.Provision.Stages.{open_tenant_pool_handles, validate_file_handles}
use sqliteproxy.Storage.Provision.{
  World, Draft, new_row, new_metadata, open_tenant_pool, validate_file, reserve, commit_ready,
  provision, name_of,
}
use sqliteproxy.Storage.{Database, db_path}

-- Whether handle `j` is open after a call that may have returned a database.
abbrev pub opened_database : Result Database → ℕ → Bool → Bool
opened_database (ok db) j before = if db.pool.handle == j then true else before
opened_database (err e) j before = before

module _ (C : Catalog) (H : Host) where
  module _ (draft : Draft) (label : Text) (fill : Text → Action H.State (Unit {0}))
      (cleanup : Text → H.State → H.State) (invalid failed : Text) (w : World C H) where
    pub provision_store :
        (provision C H draft label fill cleanup invalid failed w).1.store ≡ w.store
    unfolding provision
    provision_store = grind arith

    pub provision_handles :
        ((p : Text) (s : H.State) (j : ℕ) → H.is_open j (fill p s).1 ≡ H.is_open j s)
        → ((p : Text) (s : H.State) (j : ℕ) → H.is_open j (cleanup p s) ≡ H.is_open j s)
        → (j : ℕ)
        → H.is_open j (provision C H draft label fill cleanup invalid failed w).1.host
          ≡ opened_database
              (provision C H draft label fill cleanup invalid failed w).0
              j
              (H.is_open j w.host)
    unfolding provision
    provision_handles fill_keeps cleanup_keeps j =
        grind (arith, fill_keeps, cleanup_keeps, open_tenant_pool_handles, validate_file_handles)

    abbrev pub new_path : Text
    new_path = db_path w.store (name_of draft)

    abbrev pub filled : Result (Unit {0}) × H.State
    filled = fill new_path w.host

    abbrev pub validated : Result (Unit {0}) × H.State
    validated = validate_file C H w.store.config invalid new_path filled.1

    abbrev pub reopened : Result Pool × H.State
    reopened = open_tenant_pool C H w.store.config new_path validated.1

    -- Each stage of a successful call has succeeded.
    pub record Stages (db : Database) : Type 0 where
      pub password : Text
      pub tx : C.Tx
      pub committed : C.Db
      pub generated : draft.password ≡ ok password
      pub reserved : reserve C H (new_row draft label password) w.store.mgmt_open w.db ≡ ok tx
      pub file_made : filled.0 ≡ ok tt
      pub file_valid : validated.0 ≡ ok tt
      pub marked : commit_ready C H (name_of draft) tx w.db ≡ ok committed
      pub opened : reopened.0 ≡ ok db.pool
      pub metadata_is : db.metadata ≡ new_metadata draft label password
      pub path_is : db.path ≡ new_path
      pub world_is :
          (provision C H draft label fill cleanup invalid failed w).1
          ≡ record { store = w.store; db = committed; host = reopened.1 }

    pub provision-Stages :
        (db : Database)
        → (provision C H draft label fill cleanup invalid failed w).0 ≡ ok db
        → Stages db
    unfolding provision
    provision-Stages db h = elim (Result-cases draft.password) [
      | inr (_, e) ↦ absurd (ground arith)
      | inl (password, e₁) ↦
          elim (Result-cases (reserve C H (new_row draft label password) w.store.mgmt_open w.db)) [
            | inr (_, e) ↦ absurd (ground arith)
            | inl (tx, e₂) ↦ elim (Result-cases (commit_ready C H (name_of draft) tx w.db)) [
              | inr (_, e) ↦ absurd (ground arith)
              | inl (committed, e₃) ↦ record {
                password = password;
                tx = tx;
                committed = committed;
                generated = e₁;
                reserved = e₂;
                file_made = ground arith;
                file_valid = ground arith;
                marked = e₃;
                opened = ground arith;
                metadata_is = ground arith;
                path_is = ground arith;
                world_is = ground arith;
              }
            ]
          ]
    ]
