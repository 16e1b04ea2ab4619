-- ===== src/Storage/Provision/Statuses.antt =====
-- storage/store.go: the statuses of the rows that `Create` commits.
use sqliteproxy.Base.{◌≡◌, refl, sym, inl, inr, ap, ◌∙◌, ◌⊎◌, Text, some, arith}
use sqliteproxy.Effect.{Result, ok, err, Action, Result-cases}
use sqliteproxy.Sqlite.Interface.{Host}
use sqliteproxy.Storage.Catalog.{Catalog, Row}
use sqliteproxy.Storage.Provision.Calls.{finish, creating_run, create-cases}
use sqliteproxy.Storage.Provision.Outcome.{validated}
use sqliteproxy.Storage.Provision.Stages.{commit_ready_rows}
use sqliteproxy.Storage.Provision.{
  World, Draft, new_row, provision, publish_new, create, name_of, reserve, commit_ready,
}
use sqliteproxy.Storage.{creating, Database, db_path}

module _ (C : Catalog) (H : Host) where
  abbrev pub undisturbed : World C H → World C H
  undisturbed w = w

  -- Every row of `after` that is being created was so before.
  abbrev pub NoneCreating : World C H → World C H → Type 0
  NoneCreating before after =
      (n : Text) (r : Row)
      → C.row n after.db ≡ some r
      → r.status ≡ creating
      → C.row n before.db ≡ some r

  module _ (draft : Draft) (label : Text) (fill : Text → Action H.State (Unit {0}))
      (cleanup : Text → H.State → H.State) (invalid failed : Text) (v : World C H) where
    abbrev provisioned : Result Database × World C H
    provisioned = provision C H draft label fill cleanup invalid failed v

    abbrev validation : Result (Unit {0})
    validation = (validated C H draft label fill cleanup invalid failed v).0

    -- The committed content is the old one, or the one that the transaction commits.
    abbrev Committed : Type 0
    Committed =
        (password : Text) × (t : C.Tx) × (d : C.Db) × (reserve C H (new_row draft label password)
            v.store.mgmt_open v.db
          ≡ ok t)
        × (commit_ready C H (name_of draft) t v.db ≡ ok d)
        × (provisioned.1.db ≡ d)

    provision_commits : (provisioned.1.db ≡ v.db) ⊎ Committed
    provision_commits = elim (Result-cases draft.password) [
      | inr (_, e₁) ↦ inl (unfold provision in ground arith)
      | inl (password, e₁) ↦
          elim (Result-cases (reserve C H (new_row draft label password) v.store.mgmt_open v.db)) [
            | inr (_, e₂) ↦ inl (unfold provision in ground arith)
            | inl (t, e₂) ↦ elim (Result-cases (fill (db_path v.store (name_of draft)) v.host).0) [
              | inr (_, e₃) ↦ inl (unfold provision in ground arith)
              | inl (_, e₃) ↦ elim (Result-cases validation) [
                | inr (_, e₄) ↦ inl (unfold provision in ground arith)
                | inl (_, e₄) ↦ elim (Result-cases (commit_ready C H (name_of draft) t v.db)) [
                  | inr (_, e₅) ↦ inl (unfold provision in ground arith)
                  | inl (d, e₅) ↦ inr (password, t, d, e₂, e₅, unfold provision in ground arith)
                ]
              ]
            ]
          ]
    ]

    row_ready :
        (password : Text) (t : C.Tx) (d : C.Db) (n : Text) (r : Row)
        → reserve C H (new_row draft label password) v.store.mgmt_open v.db ≡ ok t
        → commit_ready C H (name_of draft) t v.db ≡ ok d
        → C.row n d ≡ some r
        → r.status ≡ creating
        → C.row n v.db ≡ some r
    row_ready password t d n r booked marked there status =
        let rows =
          commit_ready_rows C H (new_row draft label password) v.store.mgmt_open t v.db d n booked
            marked in
        ground (arith, rows)

    provision-NoneCreating : NoneCreating v provisioned.1
    provision-NoneCreating n r there status = elim provision_commits [
      | inl e ↦ ap (C.row n) (sym e) ∙ there
      | inr (password, t, d, booked, marked, e) ↦
          row_ready password t d n r booked marked (ap (C.row n) (sym e) ∙ there) status
    ]

  finish_db : (r : Result Database × World C H) → (finish C H undisturbed r).1.db ≡ r.1.db
  unfolding publish_new
  finish_db (err e, u) = refl
  finish_db (ok d, u) = ground arith

  module _ (draft : Draft) (label content : Text) (w : World C H) (n : Text) (r : Row) where
    -- While nothing else runs, and however `Create` ends, a row that is in the catalog after it with
    -- the status `creating` was there before: `Create` commits none.
    pub create_creating :
        C.row n (create C H undisturbed undisturbed draft label w).1.db ≡ some r
        → r.status ≡ creating
        → C.row n w.db ≡ some r
    create_creating there status =
        elim (create-cases C H undisturbed undisturbed draft label content w) [
          | inr (x, run) ↦ rw run at there
          | inl (label', _, _, run) ↦
              provision-NoneCreating draft label' _ _ _ _ w n r
                (ap (C.row n) (
                    sym (
                      finish_db
                        (creating_run C H undisturbed undisturbed draft label content w label')))
                  ∙ (rw run at there))
                status
        ]
