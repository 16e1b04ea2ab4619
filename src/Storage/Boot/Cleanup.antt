-- ===== src/Storage/Boot/Cleanup.antt =====
-- storage/store.go, `reconcile`: the rows after the cleanup.
use sqliteproxy.Base.{
  ◌≡◌, refl, inl, inr, sym, ◌∙◌, Bool, true, false, Text, List, [], ◌∷◌, Option, none, some,
  text_eq, text_eq_iff, if◌then◌else◌, arith, In, Bool-cases,
}
use sqliteproxy.Effect.{ok, Result-cases}
use sqliteproxy.Sqlite.Interface.{Host}
use sqliteproxy.Storage.Boot.{Startup, clean_all, reconcile}
use sqliteproxy.Storage.Catalog.{Catalog, Row, drop_creating, keep_ready}
use sqliteproxy.Storage.Provision.{World, remove_files}
use sqliteproxy.Storage.{Status, creating, ready, db_path}

abbrev in_list : Text → List Text → Bool
in_list n [] = false
in_list n (m ∷ ms) = if text_eq m n then true else in_list n ms

module _ (C : Catalog) (H : Host) (env : Startup) where
  drop_creating_idem : (o : Option Row) → drop_creating (drop_creating o) ≡ drop_creating o
  drop_creating_idem none = refl
  drop_creating_idem (some r) = ground arith

  clean_all_rows :
      (ns : List Text) (w : World C H) (n : Text)
      → (clean_all C H env ns w).0 ≡ ok tt
      → C.row n (clean_all C H env ns w).1.db
        ≡ (if in_list n ns then drop_creating (C.row n w.db) else C.row n w.db)
  unfolding clean_all
  clean_all_rows [] w n h = refl
  clean_all_rows (m ∷ ns) w n h = elim (Result-cases (C.delete_creating m w.db)) [
    | inr (_, e) ↦ absurd (ground arith)
    | inl (d, e) ↦ ground (
      arith,
      clean_all_rows ns (record w { db = d; host = remove_files C H (db_path w.store m) w.host }) n,
      C.delete_creating_rows m w.db d n e,
      drop_creating_idem (C.row n w.db),
    )
  ]

  in_list-In : (n : Text) (ns : List Text) → in_list n ns ≡ true → In n ns
  in_list-In n [] h = cc
  in_list-In n (m ∷ ns) h = ground (arith, text_eq_iff m n, in_list-In n ns)

  In-in_list : (n : Text) (ns : List Text) → In n ns → in_list n ns ≡ true
  In-in_list n [] h = elim h [ ]
  In-in_list n (m ∷ ns) h = ground (arith, text_eq_iff m n, In-in_list n ns)

  keep_ready_lem :
      (r : Row) (st : Status)
      → r.status ≡ st
      → (((x : Row) × (some r ≡ some x) × (x.status ≡ creating)) → ⊥)
      → keep_ready r st ≡ some r
  keep_ready_lem r creating e h = absurd (h (r, refl, e))
  keep_ready_lem r ready e h = refl

  drop_creating_absent :
      (o : Option Row)
      → (((r : Row) × (o ≡ some r) × (r.status ≡ creating)) → ⊥)
      → drop_creating o ≡ o
  drop_creating_absent none h = refl
  drop_creating_absent (some r) h = keep_ready_lem r r.status refl h

  not_listed : (n : Text) (ns : List Text) → in_list n ns ≡ false → In n ns → ⊥
  not_listed n ns free here = ground (arith, In-in_list n ns here)

  -- When `reconcile` succeeds, every row whose status was `creating` is gone from the catalog and
  -- every ready row is as it was.
  pub reconcile_rows :
      (w : World C H) (n : Text)
      → (reconcile C H env w).0 ≡ ok tt
      → C.row n (reconcile C H env w).1.db ≡ drop_creating (C.row n w.db)
  reconcile_rows w n h = elim (Result-cases (C.select_creating w.db)) [
    | inr (_, e) ↦ absurd (unfold reconcile in ground arith)
    | inl (ns, e) ↦
        let run : reconcile C H env w ≡ clean_all C H env ns w = unfold reconcile in ground arith in
        rw run (
          clean_all_rows ns w n (rw run at h) ∙ (elim (Bool-cases (in_list n ns)) [
            | inl listed ↦ rw listed
            | inr free ↦ rw free (
                sym (
                  drop_creating_absent (C.row n w.db)
                    (λ t. not_listed n ns free ((C.creating_rows w.db ns n e).1 t))))
          ]))
  ]
