-- ===== src/Storage/Provision/Failures.antt =====
-- storage/store.go: which handles `Create` and `Import` leave open.
use sqliteproxy.Base.{ℕ, ◌≡◌, refl, inl, inr, sym, ◌∙◌, false, Text, arith}
use sqliteproxy.Effect.{Result, ok, err, Action}
use sqliteproxy.Sqlite.Interface.{Host}
use sqliteproxy.Sqlite.{close_pool}
use sqliteproxy.Storage.Catalog.{Catalog}
use sqliteproxy.Storage.Provision.Calls.{finish, create-cases, import-cases}
use sqliteproxy.Storage.Provision.Outcome.{provision-Stages, provision_handles, opened_database}
use sqliteproxy.Storage.Provision.Stages.{
  make_empty_file_handles, write_import_file_handles, remove_files_handles, validate_file_handles,
  open_tenant_pool_fresh,
}
use sqliteproxy.Storage.Provision.{
  World, Draft, make_empty_file, write_import_file, remove_files, provision, publish_new, create,
  import_database, name_of,
}
use sqliteproxy.Storage.{Database, db_path}

module _ (C : Catalog) (H : Host) where
  finish_handles :
      (later : World C H → World C H) (r : Result Database × World C H) (v : World C H) (j : ℕ)
      → ((db : Database) → r.0 ≡ ok db → H.is_open db.pool.handle v.host ≡ false)
      → H.is_open j r.1.host ≡ opened_database r.0 j (H.is_open j v.host)
      → ((u : World C H) → H.is_open j (later u).host ≡ H.is_open j u.host)
      → H.is_open j (finish C H later r).1.host
        ≡ opened_database (finish C H later r).0 j (H.is_open j v.host)
  unfolding publish_new close_pool
  finish_handles later (err e, u) v j fresh opens keeps = opens
  finish_handles later (ok d, u) v j fresh opens keeps =
      ground
        (arith, opens, keeps u, fresh d refl, H.close_db_handles d.pool.handle (later u).host j)

  module _ (later : World C H → World C H) (draft : Draft) (label : Text)
      (fill : Text → Action H.State (Unit {0})) (cleanup : Text → H.State → H.State)
      (invalid failed : Text) (v : World C H)
      (fill_keeps : (p : Text) (s : H.State) (j : ℕ) → H.is_open j (fill p s).1 ≡ H.is_open j s)
      (cleanup_keeps : (p : Text) (s : H.State) (j : ℕ)
        → H.is_open j (cleanup p s) ≡ H.is_open j s) where
    abbrev provisioned : Result Database × World C H
    provisioned = provision C H draft label fill cleanup invalid failed v

    provision_fresh :
        (db : Database) → provisioned.0 ≡ ok db → H.is_open db.pool.handle v.host ≡ false
    provision_fresh db made =
        let st = provision-Stages C H draft label fill cleanup invalid failed v db made in
        let path = db_path v.store (name_of draft) in
        let h = db.pool.handle in
        sym (fill_keeps path v.host h)
        ∙ sym (validate_file_handles C H v.store.config invalid path (fill path v.host).1 h)
        ∙ open_tenant_pool_fresh C H v.store.config path _ db.pool st.opened

    finish-provision_handles :
        (j : ℕ)
        → ((u : World C H) → H.is_open j (later u).host ≡ H.is_open j u.host)
        → H.is_open j (finish C H later provisioned).1.host
          ≡ opened_database (finish C H later provisioned).0 j (H.is_open j v.host)
    finish-provision_handles j keeps =
        finish_handles later provisioned v j provision_fresh
          (provision_handles C H draft label fill cleanup invalid failed v fill_keeps cleanup_keeps
            j)
          keeps

  module _ (meanwhile later : World C H → World C H) (draft : Draft) (label content : Text)
      (w : World C H) (j : ℕ) where
    -- Of the handles that other goroutines leave alone, `Create` leaves open exactly those that were
    -- open before, and on success the handle of the pool that it returns; on every error path the
    -- pools that it opened are closed again.
    pub create_handles :
        ((u : World C H) → H.is_open j (meanwhile u).host ≡ H.is_open j u.host)
        → ((u : World C H) → H.is_open j (later u).host ≡ H.is_open j u.host)
        → H.is_open j (create C H meanwhile later draft label w).1.host
          ≡ opened_database (create C H meanwhile later draft label w).0 j (H.is_open j w.host)
    create_handles first second = elim (create-cases C H meanwhile later draft label content w) [
      | inr (e, run) ↦ rw run
      | inl (label', e, c, run) ↦
          rw (run, ← first w)
            (finish-provision_handles later draft label' (make_empty_file C H) H.remove_file _ _
              (meanwhile w) (make_empty_file_handles C H) H.remove_file_handles j second)
    ]

    -- Of the handles that other goroutines leave alone, `Import` leaves open exactly those that were
    -- open before, and on success the handle of the pool that it returns.
    pub import_database_handles :
        ((u : World C H) → H.is_open j (meanwhile u).host ≡ H.is_open j u.host)
        → ((u : World C H) → H.is_open j (later u).host ≡ H.is_open j u.host)
        → H.is_open j (import_database C H meanwhile later draft label content w).1.host
          ≡ opened_database
              (import_database C H meanwhile later draft label content w).0
              j
              (H.is_open j w.host)
    import_database_handles first second =
        elim (import-cases C H meanwhile later draft label content w) [
          | inr (e, run) ↦ rw run
          | inl (label', e, c, run) ↦
              rw (run, ← first w)
                (finish-provision_handles later draft label' (write_import_file C H content)
                  (remove_files C H) _ _ (meanwhile w) (write_import_file_handles C H content)
                  (remove_files_handles C H) j second)
        ]
