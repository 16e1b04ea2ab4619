-- ===== src/Storage/Provision/Success.antt =====
-- storage/store.go: what a successful `Create` or `Import` has done.
use sqliteproxy.Base.{
  ◌≡◌, ◌≢◌, inl, inr, ◌∙◌, true, false, Text, none, some, text_eq, text_eq_refl, if◌then◌else◌,
  arith, text_eq_ne,
}
use sqliteproxy.Effect.{Result, ok, Action, Result-cases}
use sqliteproxy.Sqlite.Interface.{Host}
use sqliteproxy.Storage.Catalog.{Catalog, Row}
use sqliteproxy.Storage.Consistency.{get-publish}
use sqliteproxy.Storage.Label.{normalize_label}
use sqliteproxy.Storage.Provision.Outcome.{Stages, provision-Stages}
use sqliteproxy.Storage.Provision.Stages.{
  open_tenant_pool_files, validate_file_files, commit_ready_rows,
}
use sqliteproxy.Storage.Provision.{
  World, Draft, new_row, provision, publish_new, name_of, username_of,
}
use sqliteproxy.Storage.Registry.{publish, get, get_by_username}
use sqliteproxy.Storage.{Database, Store, ready, db_path}

abbrev pub ready_row : Draft → Database → Row
ready_row draft db = record {
  name = db.name;
  label = db.label;
  username = db.username;
  password = db.password;
  status = ready;
  created_at = draft.created_text;
}

module _ (C : Catalog) (H : Host) where
  -- What a call that returned `db` has done, from the world `v` in which it began to provision.
  pub record Success (draft : Draft) (label : Text) (v after : World C H) (db : Database)
      : Type 0 where
    pub labelled : normalize_label label ≡ ok db.label
    pub named : db.name ≡ name_of draft
    pub user_named : db.username ≡ username_of draft
    pub located : db.path ≡ db_path v.store db.name
    pub found : get db.name after.store ≡ ok db
    pub found_by_user : get_by_username db.username after.store ≡ ok db
    pub was_new : C.row db.name v.db ≡ none
    pub durable : C.row db.name after.db ≡ some (ready_row draft db)
    pub others_kept : (n : Text) → db.name ≢ n → C.row n after.db ≡ C.row n v.db
    pub on_disk : H.has_file db.path after.host ≡ true

  -- What the other goroutines may do before the lock is taken: not write the catalog, nor remove
  -- files.
  pub record IsGentle (later : World C H → World C H) : Type 0 where
    pub keeps_rows : (v : World C H) (n : Text) → C.row n (later v).db ≡ C.row n v.db
    pub keeps_files :
        (v : World C H) (p : Text) → H.has_file p v.host ≡ true → H.has_file p (later v).host ≡ true

  pub publish_new-eq-ok :
      (x db : Database) (v : World C H)
      → (publish_new C H x v).0 ≡ ok db
      → (s : Store) × (x ≡ db)
        × (v.store.closed ≡ false)
        × (publish db v.store ≡ ok s)
        × ((publish_new C H x v).1 ≡ record v { store = s })
  unfolding publish_new
  publish_new-eq-ok x db v h = elim (Result-cases (publish x v.store)) [
    | inl (s, e) ↦ (s, ground arith, ground arith, ground arith, ground arith)
    | inr (_, e) ↦ absurd (ground arith)
  ]

  module _ (draft : Draft) (label : Text) (fill : Text → Action H.State (Unit {0}))
      (cleanup : Text → H.State → H.State) (invalid failed : Text) (v : World C H)
      (later : World C H → World C H) where
    abbrev pub provisioned : Result Database × World C H
    provisioned = provision C H draft label fill cleanup invalid failed v

    abbrev Facts : Database → Type 0
    Facts = Stages C H draft label fill cleanup invalid failed v

    provision_rows :
        (db : Database)
        → Facts db
        → (n : Text)
        → (C.row db.name v.db ≡ none)
          × (C.row n provisioned.1.db
              ≡ (if text_eq db.name n then some (ready_row draft db) else C.row n v.db))
    provision_rows db st n = ground (
      arith,
      st.metadata_is,
      st.world_is,
      commit_ready_rows C H (new_row draft label st.password) v.store.mgmt_open st.tx v.db
          st.committed n st.reserved st.marked,
    )

    provision_files :
        (db : Database)
        → Facts db
        → ((p : Text) (s : H.State) → (fill p s).0 ≡ ok tt → H.has_file p (fill p s).1 ≡ true)
        → H.has_file db.path provisioned.1.host ≡ true
    provision_files db st fill_makes =
        let path = db_path v.store (name_of draft) in
        let there = fill_makes path v.host st.file_made in
        let valid =
          validate_file_files C H v.store.config invalid path (fill path v.host).1 path
            st.file_valid there in
        let open_there = open_tenant_pool_files C H v.store.config path _ path valid in
        rw (st.path_is, st.world_is) open_there

    pub provision-Success :
        (original : Text) (db : Database)
        → ((p : Text) (s : H.State) → (fill p s).0 ≡ ok tt → H.has_file p (fill p s).1 ≡ true)
        → IsGentle later
        → normalize_label original ≡ ok label
        → provisioned.0 ≡ ok db
        → (publish_new C H db (later provisioned.1)).0 ≡ ok db
        → Success draft original v (publish_new C H db (later provisioned.1)).1 db
    provision-Success original db fill_makes gentle labelled made shown =
        let st = provision-Stages C H draft label fill cleanup invalid failed v db made in
        let (s, _, live, published, after) = publish_new-eq-ok db db (later provisioned.1) shown in
        let self = provision_rows db st db.name in
        rw after (record {
          labelled = labelled ∙ ground (arith, st.metadata_is);
          named = ground (arith, st.metadata_is);
          user_named = ground (arith, st.metadata_is);
          located = ground (arith, st.metadata_is, st.path_is);
          found =
              (get-publish db (later provisioned.1).store s db.name published live).0
              ∙ rw (text_eq_refl db.name);
          found_by_user =
              (get-publish db (later provisioned.1).store s db.username published live).1
              ∙ rw (text_eq_refl db.username);
          was_new = self.0;
          durable = gentle.keeps_rows provisioned.1 db.name ∙ self.1 ∙ rw (text_eq_refl db.name);
          others_kept = λ n ne.
              gentle.keeps_rows provisioned.1 n
              ∙ (provision_rows db st n).1
              ∙ rw (text_eq_ne db.name n ne);
          on_disk = gentle.keeps_files provisioned.1 db.path (provision_files db st fill_makes);
        })
