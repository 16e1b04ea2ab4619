-- ===== src/Storage/Boot/Opening.antt =====
-- storage/store.go, `Open` as a whole.
use sqliteproxy.Base.{
  ◌≡◌, refl, inl, inr, sym, ap, subst, ◌∙◌, Text, List, [], ◌∷◌, Option, none, some, arith,
}
use sqliteproxy.Base.Dict.{lookup}
use sqliteproxy.Effect.{ok, Result-cases}
use sqliteproxy.Sqlite.Interface.{Host}
use sqliteproxy.Storage.Boot.Cleanup.{reconcile_rows}
use sqliteproxy.Storage.Boot.Loading.{Loads, load_ready_lem}
use sqliteproxy.Storage.Boot.{
  Startup, check_root, reconcile, load_ready, open_store, empty_store, clean_all,
}
use sqliteproxy.Storage.Catalog.{Catalog, Row, drop_creating}
use sqliteproxy.Storage.Consistency.{IsConsistent}
use sqliteproxy.Storage.Provision.{World, remove_files}
use sqliteproxy.Storage.Registry.{get, get_by_username}
use sqliteproxy.Storage.{ready, db_path, Database, Store, StoreConfig}

module _ (C : Catalog) (H : Host) (env : Startup) where
  clean_all_store : (ns : List Text) (w : World C H) → (clean_all C H env ns w).1.store ≡ w.store
  unfolding clean_all
  clean_all_store [] w = refl
  clean_all_store (n ∷ ns) w = elim (Result-cases (C.delete_creating n w.db)) [
    | inr (_, e) ↦ ground arith
    | inl (d, e) ↦ ground (
      arith,
      clean_all_store ns (record w { db = d; host = remove_files C H (db_path w.store n) w.host }),
    )
  ]

  reconcile_store : (w : World C H) → (reconcile C H env w).1.store ≡ w.store
  unfolding reconcile
  reconcile_store w = elim (Result-cases (C.select_creating w.db)) [
    | inr (_, e) ↦ ground arith
    | inl (ns, e) ↦ ground (arith, clean_all_store ns w)
  ]

  check_root_world : (config : StoreConfig) (w : World C H) → (check_root C H env config w).1 ≡ w
  unfolding check_root
  check_root_world config w = ground arith

  opened :
      (order : List Database → List Database) (config : StoreConfig) (w : World C H) (root : Text)
      → (check_root C H env config w).0 ≡ ok root
      → (open_store C H env order config w).0 ≡ ok tt
      → (root : Text) × let start : World C H = record w {
        store = empty_store C H env config root;
      } in
          ((reconcile C H env start).0 ≡ ok tt)
          × ((load_ready C H env (reconcile C H env start).1).0 ≡ ok tt)
          × ((open_store C H env order config w).1
              ≡ (load_ready C H env (reconcile C H env start).1).1)
  unfolding open_store
  opened order config w root e h =
      let start : World C H = record w { store = empty_store C H env config root } in
      elim (Result-cases (reconcile C H env start).0) [
        | inr (_, r) ↦ absurd (ground (arith, check_root_world config w))
        | inl (_, r) ↦ elim (Result-cases (load_ready C H env (reconcile C H env start).1).0) [
          | inr (_, l) ↦ absurd (ground (arith, check_root_world config w))
          | inl (_, l) ↦ (root, (r, l, ground (arith, check_root_world config w)))
        ]
      ]

  -- The stages of a successful `Open`.
  open_store-ok :
      (order : List Database → List Database) (config : StoreConfig) (w : World C H)
      → (open_store C H env order config w).0 ≡ ok tt
      → (root : Text) × let start : World C H = record w {
        store = empty_store C H env config root;
      } in
          ((reconcile C H env start).0 ≡ ok tt)
          × ((load_ready C H env (reconcile C H env start).1).0 ≡ ok tt)
          × ((open_store C H env order config w).1
              ≡ (load_ready C H env (reconcile C H env start).1).1)
  unfolding open_store
  open_store-ok order config w h = elim (Result-cases (check_root C H env config w).0) [
    | inr (_, e) ↦ absurd (ground arith)
    | inl (root, e) ↦ opened order config w root e h
  ]

  get-eq-ok :
      (n : Text) (s : Store) (db : Database) → get n s ≡ ok db → lookup n s.by_name ≡ some db
  unfolding get
  get-eq-ok n s db h = ground arith

  -- `drop_creating` keeps exactly the ready rows.
  drop_creating_ready :
      (o : Option Row) (r : Row) → r.status ≡ ready → o ≡ some r → drop_creating o ≡ some r
  drop_creating_ready o r e h = rw h (ground arith)

  drop_creating-eq-some : (o : Option Row) (r : Row) → drop_creating o ≡ some r → o ≡ some r
  drop_creating-eq-some none r h = absurd (ground arith)
  drop_creating-eq-some (some x) r h = ground arith

  -- When `Open` succeeds: every row that was ready is registered, under its name and under its user
  -- name, with its label, password and time; nothing else is registered; the rows of interrupted
  -- creations are gone from the catalog, and the others are as they were; the two maps agree.
  pub open_store_lem :
      (order : List Database → List Database) (config : StoreConfig) (w : World C H)
      → (open_store C H env order config w).0 ≡ ok tt
      → let after = (open_store C H env order config w).1 in
        (root : Text) × ((r : Row)
          → C.row r.name w.db ≡ some r
          → r.status ≡ ready
          → (db : Database) × Loads C H env (empty_store C H env config root) r db
            × (get r.name after.store ≡ ok db)
            × (get_by_username r.username after.store ≡ ok db))
        × ((n : Text) (db : Database)
            → get n after.store ≡ ok db
            → (r : Row) × (C.row n w.db ≡ some r)
              × (r.status ≡ ready)
              × Loads C H env (empty_store C H env config root) r db)
        × ((n : Text) → C.row n after.db ≡ drop_creating (C.row n w.db))
        × IsConsistent after.store
  unfolding get get_by_username
  open_store_lem order config w h =
      let (root, (cleaned, loaded, run)) = open_store-ok order config w h in
      let start : World C H = record w { store = empty_store C H env config root } in
      let middle = (reconcile C H env start).1 in
      let same = reconcile_store start in
      let rows = λ (n : Text). reconcile_rows C H env start n cleaned in
      let (added, only, safe, db_kept, live) =
        load_ready_lem C H env middle (ap (λ s. s.by_name) same) (ap (λ s. s.by_user) same)
          loaded in
      let live' = live ∙ ap (λ s. s.closed) same in
      (
        root,
        λ r found is_ready.
            let (db, loads, there) =
              added r (rows r.name ∙ drop_creating_ready (C.row r.name w.db) r is_ready found)
                is_ready in
            (
              db,
              subst (λ s. Loads C H env s r db) same loads,
              rw run (ground (arith, live', there)),
              rw run (
                  ground (
                    arith,
                    live',
                    (safe.names r.name db there).1,
                    ap (λ m. m.username) loads.metadata_is,
                  )),
            ),
        λ n db found.
            let (r, there, is_ready, loads) =
              only n db (get-eq-ok n (load_ready C H env middle).1.store db (rw run at found)) in
            (
              r,
              drop_creating-eq-some (C.row n w.db) r (sym (rows n) ∙ there),
              is_ready,
              subst (λ s. Loads C H env s r db) same loads,
            ),
        λ n. rw (run, db_kept) (rows n),
        rw run safe,
      )

  -- When `Open` succeeds, every row that was ready is registered with its label, user name, password
  -- and time, and both lookups of the store find it.
  pub open_store-Loads :
      (order : List Database → List Database) (config : StoreConfig) (w : World C H) (r : Row)
      → (open_store C H env order config w).0 ≡ ok tt
      → C.row r.name w.db ≡ some r
      → r.status ≡ ready
      → let after = (open_store C H env order config w).1 in
        (root : Text) × (db : Database) × Loads C H env (empty_store C H env config root) r db
        × (get r.name after.store ≡ ok db)
        × (get_by_username r.username after.store ≡ ok db)
  open_store-Loads order config w r h there done =
      let all = open_store_lem order config w h in
      let (db, loads, found, found_by_user) = all.1 r there done in
      (all.0, db, loads, found, found_by_user)
