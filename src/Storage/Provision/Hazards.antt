-- ===== src/Storage/Provision/Hazards.antt =====
-- storage/store.go: the registry and the catalog after an unsuccessful `Create`, and what the
-- order of its steps allows.
use sqliteproxy.Base.{
  List, ◌≡◌, refl, inl, inr, ap, ◌∙◌, ◌⊎◌, false, Text, Option, some, text_eq_refl, arith, codes,
}
use sqliteproxy.Errors.{nil_dereference, wrapped, Error}
use sqliteproxy.Effect.{Result, ok, err, Action, Result-cases}
use sqliteproxy.Sqlite.Interface.{Host}
use sqliteproxy.Storage.Catalog.{Catalog, Row}
use sqliteproxy.Storage.Label.{normalize_label}
use sqliteproxy.Storage.Provision.Calls.{finish, creating_run, create-cases, create_live}
use sqliteproxy.Storage.Provision.Outcome.{provision-Stages, provision_store, reopened, validated}
use sqliteproxy.Storage.Provision.Stages.{commit_ready_rows}
use sqliteproxy.Storage.Provision.{
  World, Draft, new_row, validate_file, open_tenant_pool, make_empty_file, provision, publish_new,
  create, name_of, reserve, commit_ready,
}
use sqliteproxy.Storage.Registry.{close}
use sqliteproxy.Storage.{Database, ready, db_path}

module _ (C : Catalog) (H : Host) where
  abbrev quiet : World C H → World C H
  quiet w = w

  -- The catalog has the new name as a ready row.
  abbrev pub Recorded : Draft → World C H → Type 0
  Recorded draft w = (r : Row) × (C.row (name_of draft) w.db ≡ some r) × (r.status ≡ ready)

  abbrev pub Unrecorded : World C H → World C H → Type 0
  Unrecorded before after = (n : Text) → C.row n after.db ≡ C.row n before.db

  module _ (draft : Draft) (label : Text) (fill : Text → Action H.State (Unit {0}))
      (cleanup : Text → H.State → H.State) (invalid failed : Text) (v : World C H) where
    abbrev provisioned : Result Database × World C H
    provisioned = provision C H draft label fill cleanup invalid failed v

    abbrev validation : Result (Unit {0})
    validation = (validated C H draft label fill cleanup invalid failed v).0

    provision_committed :
        (password : Text) (t : C.Tx) (d : C.Db)
        → draft.password ≡ ok password
        → reserve C H (new_row draft label password) v.store.mgmt_open v.db ≡ ok t
        → (fill (db_path v.store (name_of draft)) v.host).0 ≡ ok tt
        → validation ≡ ok tt
        → commit_ready C H (name_of draft) t v.db ≡ ok d
        → Recorded draft provisioned.1
    unfolding provision
    provision_committed password t d e₁ e₂ e₃ e₄ e₅ =
        let rows =
          commit_ready_rows C H (new_row draft label password) v.store.mgmt_open t v.db d
            (name_of draft) e₂ e₅ in
        (
          record (new_row draft label password) { status = ready },
          ground (arith, rows, text_eq_refl (name_of draft)),
          refl,
        )

    provision_error :
        (e : Error)
        → provisioned.0 ≡ err e
        → Unrecorded v provisioned.1 ⊎ Recorded draft provisioned.1
    provision_error e h = elim (Result-cases draft.password) [
      | inr (_, e₁) ↦ inl (λ n. unfold provision in ground arith)
      | inl (password, e₁) ↦
          elim (Result-cases (reserve C H (new_row draft label password) v.store.mgmt_open v.db)) [
            | inr (_, e₂) ↦ inl (λ n. unfold provision in ground arith)
            | inl (t, e₂) ↦ elim (Result-cases (fill (db_path v.store (name_of draft)) v.host).0) [
              | inr (_, e₃) ↦ inl (λ n. unfold provision in ground arith)
              | inl (tt, e₃) ↦ elim (Result-cases validation) [
                | inr (_, e₄) ↦ inl (λ n. unfold provision in ground arith)
                | inl (tt, e₄) ↦ elim (Result-cases (commit_ready C H (name_of draft) t v.db)) [
                  | inr (_, e₅) ↦ inl (λ n. unfold provision in ground arith)
                  | inl (d, e₅) ↦ inr (provision_committed password t d e₁ e₂ e₃ e₄ e₅)
                ]
              ]
            ]
          ]
    ]

    orphan_provision :
        (password : Text) (t : C.Tx) (d : C.Db) (e : Error)
        → draft.password ≡ ok password
        → reserve C H (new_row draft label password) v.store.mgmt_open v.db ≡ ok t
        → (fill (db_path v.store (name_of draft)) v.host).0 ≡ ok tt
        → validation ≡ ok tt
        → commit_ready C H (name_of draft) t v.db ≡ ok d
        → (reopened C H draft label fill cleanup invalid failed v).0 ≡ err e
        → provisioned.0 ≡ err (wrapped failed e)
    unfolding provision
    orphan_provision password t d e e₁ e₂ e₃ e₄ e₅ e₆ = ground arith

  publish_new_err :
      (x : Database) (v : World C H) (e : Error)
      → (publish_new C H x v).0 ≡ err e
      → ((publish_new C H x v).1.store ≡ v.store) × ((publish_new C H x v).1.db ≡ v.db)
  unfolding publish_new
  publish_new_err x v e h = (ground arith, ground arith)

  finish-eq-err :
      (r : Result Database × World C H) (x : Error)
      → r.0 ≡ err x
      → finish C H quiet r ≡ (err x, r.1)
  finish-eq-err (ok db, v) x h = absurd (ground arith)
  finish-eq-err (err e, v) x h = ground arith

  finish_error :
      (r : Result Database × World C H) (before : World C H) (draft : Draft) (e : Error)
      → (finish C H quiet r).0 ≡ err e
      → r.1.store ≡ before.store
      → ((x : Error) → r.0 ≡ err x → Unrecorded before r.1 ⊎ Recorded draft r.1)
      → ((db : Database) → r.0 ≡ ok db → Recorded draft r.1)
      → ((finish C H quiet r).1.store ≡ before.store)
        × (Unrecorded before (finish C H quiet r).1 ⊎ Recorded draft (finish C H quiet r).1)
  finish_error (err x, u) before draft e h same failing done = (same, failing x refl)
  finish_error (ok db, u) before draft e h same failing done =
      let (store_kept, db_kept) = publish_new_err db u e h in
      let (r, found, is_ready) = done db refl in
      (store_kept ∙ same, inr (r, ap (C.row (name_of draft)) db_kept ∙ found, is_ready))

  provision-Recorded :
      (draft : Draft) (label : Text) (fill : Text → Action H.State (Unit {0}))
      (cleanup : Text → H.State → H.State) (invalid failed : Text) (v : World C H) (db : Database)
      → (provision C H draft label fill cleanup invalid failed v).0 ≡ ok db
      → Recorded draft (provision C H draft label fill cleanup invalid failed v).1
  provision-Recorded draft label fill cleanup invalid failed v db made =
      let st = provision-Stages C H draft label fill cleanup invalid failed v db made in
      provision_committed draft label fill cleanup invalid failed v st.password st.tx st.committed
        st.generated st.reserved st.file_made st.file_valid st.marked

  module _ (draft : Draft) (label content : Text) (w : World C H) where
    -- When `Create` fails and nothing else runs meanwhile, the registry is as it was, and the
    -- catalog either has the rows that it had or has the new name as a ready row.
    pub create_error :
        (e : Error)
        → (create C H quiet quiet draft label w).0 ≡ err e
        → ((create C H quiet quiet draft label w).1.store ≡ w.store)
          × (Unrecorded w (create C H quiet quiet draft label w).1
              ⊎ Recorded draft (create C H quiet quiet draft label w).1)
    create_error e h = elim (create-cases C H quiet quiet draft label content w) [
      | inr (x, run) ↦ rw run (refl, inl (λ n. refl))
      | inl (label', _, _, run) ↦ rw run (
          finish_error (creating_run C H quiet quiet draft label content w label') w draft e
            (rw run at h) (provision_store C H draft label' _ _ _ _ w)
            (provision_error draft label' _ _ _ _ w) (provision-Recorded draft label' _ _ _ _ w))
    ]

    abbrev emptied : Result (Unit {0}) × H.State
    emptied = make_empty_file C H (db_path w.store (name_of draft)) w.host

    -- When every step up to the commit succeeds and the pool that is to
    -- be published cannot be opened, `Create` returns an error and the database is not registered,
    -- but its row is in the catalog as ready.
    pub create_orphan :
        (label' password : Text) (t : C.Tx) (d : C.Db) (e : Error)
        → normalize_label label ≡ ok label'
        → w.store.closed ≡ false
        → draft.password ≡ ok password
        → reserve C H (new_row draft label' password) w.store.mgmt_open w.db ≡ ok t
        → emptied.0 ≡ ok tt
        → (validate_file C H w.store.config
            (codes "initialize database file")
            (db_path w.store (name_of draft))
            emptied.1).0
          ≡ ok tt
        → commit_ready C H (name_of draft) t w.db ≡ ok d
        → (open_tenant_pool C H w.store.config
            (db_path w.store (name_of draft))
            (validate_file C H w.store.config
              (codes "initialize database file")
              (db_path w.store (name_of draft))
              emptied.1).1).0
          ≡ err e
        → ((create C H quiet quiet draft label w).0
            ≡ err (wrapped (codes "open ready database pool") e))
          × ((create C H quiet quiet draft label w).1.store ≡ w.store)
          × Recorded draft (create C H quiet quiet draft label w).1
    create_orphan label' password t d e e₀ c e₁ e₂ e₃ e₄ e₅ e₆ =
        let run = create_live C H quiet quiet draft label content w label' e₀ c in
        let failing =
          orphan_provision draft label' (make_empty_file C H) H.remove_file _ _ w password t d e e₁
            e₂ e₃ e₄ e₅ e₆ in
        let stopped =
          finish-eq-err (creating_run C H quiet quiet draft label content w label') _ failing in
        rw (run, stopped)
          (
            refl,
            provision_store C H draft label' _ _ _ _ w,
            provision_committed draft label' _ _ _ _ w password t d e₁ e₂ e₃ e₄ e₅,
          )

  -- When the label is well formed, a password is generated, the store is open at the test of `Create`,
  -- and a `Close` runs between that test and the use of the management database, then `Create` calls
  -- through a nil pointer.
  pub create-close_race :
      (order : List Database → List Database) (result : Option Error)
      (later : World C H → World C H) (draft : Draft) (label label' password : Text) (w : World C H)
      → normalize_label label ≡ ok label'
      → w.store.closed ≡ false
      → draft.password ≡ ok password
      → (create C H
          (λ u.
            let (_, s, h) = close H order result u.store u.host in record u { store = s; host = h })
          later
          draft
          label
          w).0
        ≡ err nil_dereference
  unfolding create provision reserve close
  create-close_race order result later draft label label' password w e c p = ground arith
