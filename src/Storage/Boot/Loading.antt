-- ===== src/Storage/Boot/Loading.antt =====
-- storage/store.go, `loadReady`: the registry that it builds from the ready rows.
use sqliteproxy.Base.{
  ℕ, ◌≡◌, refl, inl, inr, sym, subst, ◌∙◌, ◌⊎◌, Text, List, [], ◌∷◌, none, some, text_eq,
  text_eq_refl, text_eq_iff, if◌then◌else◌, arith, In, Bool-cases,
}
use sqliteproxy.Base.Dict.{lookup, lookup-insert}
use sqliteproxy.Effect.{ok, Result-cases}
use sqliteproxy.Sqlite.Interface.{Host}
use sqliteproxy.Storage.Boot.{
  Startup, load_row, load_all, load_ready, parse_created, check_file, open_loaded, publish_loaded,
  loaded_metadata,
}
use sqliteproxy.Storage.Catalog.{Catalog, Row}
use sqliteproxy.Storage.Consistency.{IsConsistent, publish-Published, publish-IsConsistent}
use sqliteproxy.Storage.Provision.{World}
use sqliteproxy.Storage.Registry.{publish}
use sqliteproxy.Storage.{ready, Database, Store, db_path}

module _ (C : Catalog) (H : Host) (env : Startup) where
  -- The registered database that stands for a row.
  pub record Loads (s : Store) (r : Row) (db : Database) : Type 0 where
    pub created : ℕ
    pub parsed : parse_created env r ≡ ok created
    pub metadata_is : db.metadata ≡ loaded_metadata r created
    pub path_is : db.path ≡ db_path s r.name

  load_row-ok :
      (r : Row) (w : World C H)
      → (load_row C H env r w).0 ≡ ok tt
      → (db : Database) × (s : Store) × Loads w.store r db
        × (publish db w.store ≡ ok s)
        × ((load_row C H env r w).1.store ≡ s)
        × ((load_row C H env r w).1.db ≡ w.db)
  load_row-ok r w h = elim (Result-cases (parse_created env r)) [
    | inr (_, e) ↦ absurd (unfold load_row in ground arith)
    | inl (t, e) ↦ elim (Result-cases (check_file C H env r w).0) [
      | inr (_, c) ↦ absurd (unfold load_row in ground arith)
      | inl (_, c) ↦ elim (Result-cases (open_loaded C H env r w).0) [
        | inr (_, o) ↦ absurd (unfold load_row open_loaded check_file in ground arith)
        | inl (p, o) ↦
            let db : Database = record {
              metadata = loaded_metadata r t;
              path = db_path w.store r.name;
              pool = p;
            } in
            elim (Result-cases (publish db w.store)) [
              | inr (_, x) ↦
                  absurd (unfold load_row open_loaded check_file publish_loaded in ground arith)
              | inl (s, x) ↦ (
                db,
                s,
                record { created = t; parsed = e; metadata_is = refl; path_is = refl },
                x,
                unfold load_row open_loaded check_file publish_loaded in ground arith,
                unfold load_row open_loaded check_file publish_loaded in ground arith,
              )
            ]
      ]
    ]
  ]

  -- One row is published: its own entry is new, and every other entry is kept.
  load_row_entries :
      (r : Row) (w : World C H)
      → (load_row C H env r w).0 ≡ ok tt
      → let after = (load_row C H env r w).1 in
        (db : Database) × Loads w.store r db
        × ((n : Text)
            → lookup n after.store.by_name
              ≡ (if text_eq r.name n then some db else lookup n w.store.by_name))
        × (lookup r.name w.store.by_name ≡ none)
        × (after.db ≡ w.db)
        × (after.store.root ≡ w.store.root)
        × (after.store.closed ≡ w.store.closed)
        × (IsConsistent w.store → IsConsistent after.store)
  load_row_entries r w h =
      let (db, s, loads, shown, stored, kept) = load_row-ok r w h in
      let (fresh, _, shape) = publish-Published db w.store s shown in
      (
        db,
        loads,
        λ n.
            rw stored (
              ground (arith, shape, loads.metadata_is, lookup-insert db.name n db w.store.by_name)),
        ground (arith, fresh, loads.metadata_is),
        kept,
        rw stored (ground (arith, shape)),
        rw stored (ground (arith, shape)),
        λ c. rw stored (publish-IsConsistent db w.store s shown c),
      )

  -- The registry after the rows `rs` have been loaded into `s`.
  pub record Loading (s : Store) (rs : List Row) (t : Store) : Type 0 where
    pub kept :
        (n : Text) (db : Database) → lookup n s.by_name ≡ some db → lookup n t.by_name ≡ some db
    pub added :
        (r : Row) → In r rs → (db : Database) × Loads s r db × (lookup r.name t.by_name ≡ some db)
    pub only :
        (n : Text) (db : Database)
        → lookup n t.by_name ≡ some db
        → (lookup n s.by_name ≡ some db) ⊎ ((r : Row) × In r rs × (r.name ≡ n) × Loads s r db)

  Loads-moved :
      (s t : Store) (r : Row) (db : Database) → t.root ≡ s.root → Loads t r db → Loads s r db
  unfolding db_path
  Loads-moved s t r db e l = record {
    created = l.created;
    parsed = l.parsed;
    metadata_is = l.metadata_is;
    path_is = l.path_is ∙ rw e;
  }

  Loading-cons :
      (s s' t : Store) (r : Row) (rs : List Row) (db : Database)
      → Loads s r db
      → ((n : Text)
          → lookup n s'.by_name ≡ (if text_eq r.name n then some db else lookup n s.by_name))
      → lookup r.name s.by_name ≡ none
      → s'.root ≡ s.root
      → Loading s' rs t
      → Loading s (r ∷ rs) t
  Loading-cons s s' t r rs db loads entries fresh root l = record {
    kept = λ n d e. l.kept n d (ground (arith, entries n, fresh, text_eq_iff r.name n));
    added = λ x i. elim i [
      | inl e ↦ (
        db,
        subst (λ y. Loads s y db) (sym e) loads,
        rw e (l.kept r.name db (entries r.name ∙ rw (text_eq_refl r.name))),
      )
      | inr later ↦ let (d, ls, found) = l.added x later in (d, Loads-moved s s' x d root ls, found)
    ];
    only = λ n d e. elim (l.only n d e) [
      | inr (x, i, named, ls) ↦ inr (x, inr i, named, Loads-moved s s' x d root ls)
      | inl before ↦ elim (Bool-cases (text_eq r.name n)) [
        | inl same ↦ inr (
          r,
          inl refl,
          (text_eq_iff r.name n).0 same,
          subst (Loads s r) (ground (arith, entries n)) loads,
        )
        | inr other ↦ inl (ground (arith, entries n))
      ]
    ];
  }

  load_all-Loading :
      (rs : List Row) (w : World C H)
      → (load_all C H env rs w).0 ≡ ok tt
      → let after = (load_all C H env rs w).1 in
        Loading w.store rs after.store
        × (after.db ≡ w.db)
        × (after.store.closed ≡ w.store.closed)
        × (IsConsistent w.store → IsConsistent after.store)
  unfolding load_all
  load_all-Loading [] w h = (
    record { kept = λ n db e. e; added = λ r i. absurd i; only = λ n db e. inl e },
    refl,
    refl,
    λ c. c,
  )
  load_all-Loading (r ∷ rs) w h = elim (Result-cases (load_row C H env r w).0) [
    | inr (_, e) ↦ absurd (ground arith)
    | inl (tt, e) ↦
        let (db, loads, entries, fresh, rows, root, live, safe) = load_row_entries r w e in
        let next = (load_row C H env r w).1 in
        let run : load_all C H env (r ∷ rs) w ≡ load_all C H env rs next = ground arith in
        let (l, rows', live', safe') = load_all-Loading rs next (rw run at h) in
        rw run (
          Loading-cons w.store next.store _ r rs db loads entries fresh root l,
          rows' ∙ rows,
          live' ∙ live,
          λ c. safe' (safe c),
        )
  ]

  -- When `loadReady` succeeds on a store with no entries, the store has an entry for exactly the
  -- ready rows of the catalog, each under its row's name with its row's label, user name, password
  -- and time, and both maps of the store agree; the catalog is as it was.
  pub load_ready_lem :
      (w : World C H)
      → w.store.by_name ≡ []
      → w.store.by_user ≡ []
      → (load_ready C H env w).0 ≡ ok tt
      → let after = (load_ready C H env w).1 in
        ((r : Row)
          → C.row r.name w.db ≡ some r
          → r.status ≡ ready
          → (db : Database) × Loads w.store r db × (lookup r.name after.store.by_name ≡ some db))
        × ((n : Text) (db : Database)
            → lookup n after.store.by_name ≡ some db
            → (r : Row) × (C.row n w.db ≡ some r) × (r.status ≡ ready) × Loads w.store r db)
        × IsConsistent after.store
        × (after.db ≡ w.db)
        × (after.store.closed ≡ w.store.closed)
  load_ready_lem w no_names no_users h = elim (Result-cases (C.select_ready w.db)) [
    | inr (_, e) ↦ absurd (unfold load_ready in ground arith)
    | inl (rs, e) ↦
        let run : load_ready C H env w ≡ load_all C H env rs w =
          unfold load_ready in ground arith in
        let (l, rows, live, safe) = load_all-Loading rs w (rw run at h) in
        rw run (
          λ r found is_ready. l.added r ((C.ready_rows w.db rs r e).1 (found, is_ready)),
          λ n db found. elim (l.only n db found) [
            | inl old ↦ absurd (unfold lookup in ground arith)
            | inr (r, i, named, loads) ↦
                let (there, is_ready) = (C.ready_rows w.db rs r e).0 i in
                (r, subst (λ m. C.row m w.db ≡ some r) named there, is_ready, loads)
          ],
          safe (record {
            names = λ n db found. absurd (unfold lookup in ground arith);
            users = λ n db found. absurd (unfold lookup in ground arith);
          }),
          rows,
          live,
        )
  ]
