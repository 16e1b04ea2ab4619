-- ===== src/Storage/Provision/Calls.antt =====
-- storage/store.go: `Create` and `Import` as a whole, on every outcome.
use sqliteproxy.Base.{◌≡◌, inl, inr, ap, ◌⊎◌, false, Text, arith, codes, Bool-cases}
use sqliteproxy.Errors.{closed, Error}
use sqliteproxy.Effect.{Result, ok, err, Result-cases}
use sqliteproxy.Sqlite.Interface.{Host}
use sqliteproxy.Storage.Catalog.{Catalog}
use sqliteproxy.Storage.Label.{normalize_label}
use sqliteproxy.Storage.Provision.Stages.{make_empty_file_made, write_import_file_made}
use sqliteproxy.Storage.Provision.Success.{Success, IsGentle, provision-Success, publish_new-eq-ok}
use sqliteproxy.Storage.Provision.{
  World, Draft, make_empty_file, write_import_file, remove_files, provision, publish_new, create,
  import_database,
}
use sqliteproxy.Storage.{Database}

module _ (C : Catalog) (H : Host) where
  abbrev pub finish :
      (World C H → World C H) → Result Database × World C H → Result Database × World C H
  finish later (ok d, v) = publish_new C H d (later v)
  finish later (err e, v) = (err e, v)

  finish-eq-ok :
      (later : World C H → World C H) (r : Result Database × World C H) (db : Database)
      → (finish later r).0 ≡ ok db
      → (r.0 ≡ ok db)
        × ((publish_new C H db (later r.1)).0 ≡ ok db)
        × (finish later r ≡ publish_new C H db (later r.1))
  finish-eq-ok later (err e, v) db h = absurd (ground arith)
  finish-eq-ok later (ok d, v) db h =
      let (_, e, _, _, _) = publish_new-eq-ok C H d db (later v) h in
      (ap ok e, rw e at h, ap (λ x. publish_new C H x (later v)) e)

  module _ (meanwhile later : World C H → World C H) (draft : Draft) (label content : Text)
      (w : World C H) where
    abbrev pub creating_run : Text → Result Database × World C H
    creating_run label' =
        provision C H draft label' (make_empty_file C H) H.remove_file
          (codes "initialize database file") (codes "open ready database pool") (meanwhile w)

    abbrev pub importing_run : Text → Result Database × World C H
    importing_run label' =
        provision C H draft label' (write_import_file C H content) (remove_files C H)
          (codes "validate database file (not a valid SQLite)")
          (codes "open imported database pool") (meanwhile w)

    pub create_live :
        (label' : Text)
        → normalize_label label ≡ ok label'
        → w.store.closed ≡ false
        → create C H meanwhile later draft label w ≡ finish later (creating_run label')
    unfolding create
    create_live label' e c = ground arith

    import_live :
        (label' : Text)
        → normalize_label label ≡ ok label'
        → w.store.closed ≡ false
        → import_database C H meanwhile later draft label content w
          ≡ finish later (importing_run label')
    unfolding import_database
    import_live label' e c = ground arith

    pub create-cases :
        ((label' : Text) × (normalize_label label ≡ ok label')
          × (w.store.closed ≡ false)
          × (create C H meanwhile later draft label w ≡ finish later (creating_run label')))
        ⊎ ((e : Error) × (create C H meanwhile later draft label w ≡ (err e, w)))
    create-cases = elim (Result-cases (normalize_label label)) [
      | inr (x, e) ↦ inr (x, unfold create in ground arith)
      | inl (label', e) ↦ elim (Bool-cases w.store.closed) [
        | inl c ↦ inr (closed, unfold create in ground arith)
        | inr c ↦ inl (label', e, c, create_live label' e c)
      ]
    ]

    pub import-cases :
        ((label' : Text) × (normalize_label label ≡ ok label')
          × (w.store.closed ≡ false)
          × (import_database C H meanwhile later draft label content w
              ≡ finish later (importing_run label')))
        ⊎ ((e : Error) × (import_database C H meanwhile later draft label content w ≡ (err e, w)))
    import-cases = elim (Result-cases (normalize_label label)) [
      | inr (x, e) ↦ inr (x, unfold import_database in ground arith)
      | inl (label', e) ↦ elim (Bool-cases w.store.closed) [
        | inl c ↦ inr (closed, unfold import_database in ground arith)
        | inr c ↦ inl (label', e, c, import_live label' e c)
      ]
    ]

    -- When `Create` returns a database, the store was open, the label was well formed, no row had
    -- the new name, and now: `Get` and `GetByUsername` return that database, the catalog holds its
    -- row as ready with the password that was returned, every other row is as it was, and its file
    -- is at the path of its name. Other goroutines may run before the provisioning, and before the
    -- publication as long as they neither write the catalog nor remove files.
    pub create-Success :
        (db : Database)
        → IsGentle C H later
        → (create C H meanwhile later draft label w).0 ≡ ok db
        → (w.store.closed ≡ false)
          × Success C H draft label (meanwhile w) (create C H meanwhile later draft label w).1 db
    create-Success db gentle h = elim create-cases [
      | inr (_, e) ↦ absurd (ground arith)
      | inl (label', e, c, run) ↦
          let (made, shown, same) = finish-eq-ok later (creating_run label') db (rw run at h) in
          (
            c,
            rw (run, same)
                (provision-Success C H draft label' (make_empty_file C H) H.remove_file _ _
                  (meanwhile w) later label db (make_empty_file_made C H) gentle e made shown),
          )
    ]

    -- When `Import` returns a database, the store was open, the label was well formed, no row had the
    -- new name, and now: `Get` and `GetByUsername` return that database, the catalog holds its row as
    -- ready with the password that was returned, every other row is as it was, and its file is at the
    -- path of its name. Other goroutines may run before the provisioning, and before the publication
    -- as long as they neither write the catalog nor remove files.
    pub import_database-Success :
        (db : Database)
        → IsGentle C H later
        → (import_database C H meanwhile later draft label content w).0 ≡ ok db
        → (w.store.closed ≡ false)
          × Success C H draft label
              (meanwhile w)
              (import_database C H meanwhile later draft label content w).1
              db
    import_database-Success db gentle h = elim import-cases [
      | inr (_, e) ↦ absurd (ground arith)
      | inl (label', e, c, run) ↦
          let (made, shown, same) = finish-eq-ok later (importing_run label') db (rw run at h) in
          (
            c,
            rw (run, same)
                (provision-Success C H draft label' (write_import_file C H content)
                  (remove_files C H) _ _ (meanwhile w) later label db
                  (write_import_file_made C H content) gentle e made shown),
          )
    ]
