-- ===== src/Storage/Provision/Stages.antt =====
-- storage/store.go: what each stage of `Create` and `Import` leaves open, on disk and in the catalog.
use sqliteproxy.Base.{
  ℕ, ◌≡◌, refl, inl, inr, Bool, true, false, Text, none, some, text_eq, if◌then◌else◌, arith,
}
use sqliteproxy.Effect.{ok, Result-cases}
use sqliteproxy.Sqlite.Handles.{opened_pool, new_pool_handles, new_pool_fresh, new_pool_files}
use sqliteproxy.Sqlite.Interface.{Host}
use sqliteproxy.Sqlite.{Pool}
use sqliteproxy.Storage.Catalog.{Catalog, Row}
use sqliteproxy.Storage.Provision.{
  open_tenant_pool, make_empty_file, write_import_file, remove_files, validate_file, reserve,
  commit_ready, tenant_config,
}
use sqliteproxy.Storage.{StoreConfig, ready}

module _ (C : Catalog) (H : Host) where
  -- No stage before the last leaves a handle open that it did not find open.
  pub make_empty_file_handles :
      (path : Text) (s : H.State) (j : ℕ)
      → H.is_open j (make_empty_file C H path s).1 ≡ H.is_open j s
  unfolding make_empty_file
  make_empty_file_handles path s j =
      grind (arith, H.create_file_handles, H.close_file_handles, H.remove_file_handles)

  pub write_import_file_handles :
      (content path : Text) (s : H.State) (j : ℕ)
      → H.is_open j (write_import_file C H content path s).1 ≡ H.is_open j s
  unfolding write_import_file
  write_import_file_handles content path s j = grind (arith, H.write_file_handles)

  pub remove_files_handles :
      (path : Text) (s : H.State) (j : ℕ) → H.is_open j (remove_files C H path s) ≡ H.is_open j s
  unfolding remove_files
  remove_files_handles path s j = grind (arith, H.remove_file_handles)

  pub open_tenant_pool_handles :
      (config : StoreConfig) (path : Text) (s : H.State) (j : ℕ)
      → H.is_open j (open_tenant_pool C H config path s).1
        ≡ opened_pool (open_tenant_pool C H config path s).0 j (H.is_open j s)
  unfolding open_tenant_pool
  open_tenant_pool_handles config path s j = new_pool_handles H path (tenant_config config) s j

  pub open_tenant_pool_fresh :
      (config : StoreConfig) (path : Text) (s : H.State) (p : Pool)
      → (open_tenant_pool C H config path s).0 ≡ ok p
      → H.is_open p.handle s ≡ false
  unfolding open_tenant_pool
  open_tenant_pool_fresh config path s p = new_pool_fresh H path (tenant_config config) s p

  pub open_tenant_pool_files :
      (config : StoreConfig) (path : Text) (s : H.State) (p : Text)
      → H.has_file p s ≡ true
      → H.has_file p (open_tenant_pool C H config path s).1 ≡ true
  unfolding open_tenant_pool
  open_tenant_pool_files config path s p = new_pool_files H path (tenant_config config) s p

  pub validate_file_handles :
      (config : StoreConfig) (text path : Text) (s : H.State) (j : ℕ)
      → H.is_open j (validate_file C H config text path s).1 ≡ H.is_open j s
  unfolding validate_file
  validate_file_handles config text path s j = grind (
    arith, open_tenant_pool_handles, open_tenant_pool_fresh, remove_files_handles,
    H.close_db_handles,
  )

  -- A file that is there before the validation is there after a successful one.
  pub validate_file_files :
      (config : StoreConfig) (text path : Text) (s : H.State) (p : Text)
      → (validate_file C H config text path s).0 ≡ ok tt
      → H.has_file p s ≡ true
      → H.has_file p (validate_file C H config text path s).1 ≡ true
  unfolding validate_file
  validate_file_files config text path s p done h =
      grind (arith, open_tenant_pool_files config path s p, H.close_db_files)

  pub make_empty_file_made :
      (path : Text) (s : H.State)
      → (make_empty_file C H path s).0 ≡ ok tt
      → H.has_file path (make_empty_file C H path s).1 ≡ true
  unfolding make_empty_file
  make_empty_file_made path s done = grind (arith, H.create_file_made, H.close_file_files)

  pub write_import_file_made :
      (content path : Text) (s : H.State)
      → (write_import_file C H content path s).0 ≡ ok tt
      → H.has_file path (write_import_file C H content path s).1 ≡ true
  unfolding write_import_file
  write_import_file_made content path s done = grind (arith, H.write_file_made)

  reserve-eq-ok :
      (r : Row) (live : Bool) (d : C.Db) (u : C.Tx)
      → reserve C H r live d ≡ ok u
      → (t : C.Tx) × (live ≡ true) × (C.begin d ≡ ok t) × (C.insert_row r t ≡ ok u)
  unfolding reserve
  reserve-eq-ok r false d u h = absurd (ground arith)
  reserve-eq-ok r true d u h = elim (Result-cases (C.begin d)) [
    | inl (t, e) ↦ (t, refl, e, ground arith)
    | inr (_, e) ↦ absurd (ground arith)
  ]

  commit_ready-eq-ok :
      (name : Text) (t : C.Tx) (d e : C.Db)
      → commit_ready C H name t d ≡ ok e
      → (u : C.Tx) × (C.mark_ready name t ≡ ok u) × (C.commit u d ≡ ok e)
  unfolding commit_ready
  commit_ready-eq-ok name t d e h = elim (Result-cases (C.mark_ready name t)) [
    | inl (u, m) ↦ (u, m, ground arith)
    | inr (_, m) ↦ absurd (ground arith)
  ]

  -- The rows after the transaction: the new one is ready, and every other one is as before.
  pub commit_ready_rows :
      (r : Row) (live : Bool) (t : C.Tx) (d e : C.Db) (n : Text)
      → reserve C H r live d ≡ ok t
      → commit_ready C H r.name t d ≡ ok e
      → (C.row r.name d ≡ none)
        × (C.row n e ≡ (if text_eq r.name n then some (record r { status = ready }) else C.row n d))
  commit_ready_rows r live t d e n booked marked =
      let (b, _, begun, inserted) = reserve-eq-ok r live d t booked in
      let (u, updated, committed) = commit_ready-eq-ok r.name t d e marked in
      ground (
        arith,
        C.begin_rows d b n begun,
        C.begin_rows d b r.name begun,
        C.insert_rows r b t n inserted,
        C.insert_fresh r b t inserted,
        C.mark_ready_rows r.name t u n updated,
        C.commit_rows u d e n committed,
      )
