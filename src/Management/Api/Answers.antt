-- ===== src/Management/Api/Answers.antt =====
-- management/handler.go: what a request can change.
use sqliteproxy.Base.{ℕ, ◌≡◌, ◌≢◌, refl, inl, inr, [], List, Text, arith}
use sqliteproxy.Errors.{Error}
use sqliteproxy.Effect.{Result, ok, err, Result-cases}
use sqliteproxy.Management.Api.{
  Decoder, Request, Body, Upload, no_form, no_file, unreadable, uploaded, World, decode_json, serve,
  serve_route, serve_create, serve_import, serve_query, created_answer, imported_answer,
}
use sqliteproxy.Management.Routes.Dispatch.{IsRouted, route-IsRouted}
use sqliteproxy.Management.Routes.{
  Route, create_database, list_databases, import_database, get_database, export_database,
  query_database, method_not_allowed, unknown, route, post_method,
}
use sqliteproxy.Sqlite.Interface.{Host}
use sqliteproxy.Storage.Catalog.{Catalog}
use sqliteproxy.Storage.Provision
use sqliteproxy.Storage.Provision.Calls.{
  finish, create-cases, import-cases, creating_run, importing_run,
}
use sqliteproxy.Storage.Provision.Outcome.{provision_store}
use sqliteproxy.Storage.Provision.{Draft, publish_new}
use sqliteproxy.Storage.Query.{Reading}
use sqliteproxy.Storage.{Database, Store}

module _ (C : Catalog) (H : Host) where
  -- No other goroutine runs.
  abbrev pub alone : Provision.World C H → Provision.World C H
  alone w = w

  finish_store :
      (s : Store) (r : Result Database × Provision.World C H) (e : Error)
      → r.1.store ≡ s
      → (finish C H alone r).0 ≡ err e
      → (finish C H alone r).1.store ≡ s
  unfolding publish_new
  finish_store s (err x, v) e same h = same
  finish_store s (ok d, v) e same h = ground (arith, same)

  create_store :
      (draft : Draft) (label : Text) (w : Provision.World C H) (e : Error)
      → (Provision.create C H alone alone draft label w).0 ≡ err e
      → (Provision.create C H alone alone draft label w).1.store ≡ w.store
  create_store draft label w e h = elim (create-cases C H alone alone draft label [] w) [
    | inr (x, run) ↦ rw run
    | inl (label', _, _, run) ↦ rw run (
        finish_store w.store (creating_run C H alone alone draft label [] w label') e
          (provision_store C H draft label' _ _ _ _ w) (rw run at h))
  ]

  import_store :
      (draft : Draft) (label content : Text) (w : Provision.World C H) (e : Error)
      → (Provision.import_database C H alone alone draft label content w).0 ≡ err e
      → (Provision.import_database C H alone alone draft label content w).1.store ≡ w.store
  import_store draft label content w e h =
      elim (import-cases C H alone alone draft label content w) [
        | inr (x, run) ↦ rw run
        | inl (label', _, _, run) ↦ rw run (
            finish_store w.store (importing_run C H alone alone draft label content w label') e
              (provision_store C H draft label' _ _ _ _ w) (rw run at h))
      ]

module _ (C : Catalog) (H : Host) (V : Type 0) (run : ℕ → Text → H.State → Reading V × H.State)
    (decode : Decoder) (order : List Database → List Database) where
  abbrev pub Space : Type 0
  Space = World C H V run decode order

  serve_route_idle :
      (meanwhile later : Space → Space) (draft : Draft) (r : Request) (w : Space) (x : Route)
      → IsRouted r.method x
      → r.method ≢ post_method
      → (serve_route C H V run decode order meanwhile later draft r x w).1 ≡ w
  unfolding serve_route
  serve_route_idle meanwhile later draft r w create_database v h = absurd (h v)
  serve_route_idle meanwhile later draft r w list_databases v h = refl
  serve_route_idle meanwhile later draft r w import_database v h = absurd (h v)
  serve_route_idle meanwhile later draft r w (get_database name) v h = refl
  serve_route_idle meanwhile later draft r w (export_database name) v h = refl
  serve_route_idle meanwhile later draft r w (query_database name) v h = absurd (h v.0)
  serve_route_idle meanwhile later draft r w (method_not_allowed allowed) v h = refl
  serve_route_idle meanwhile later draft r w (unknown code text) v h = refl

  -- A request whose method is not POST changes nothing, whatever its path.
  pub serve_idle :
      (meanwhile later : Space → Space) (draft : Draft) (r : Request) (w : Space)
      → r.method ≢ post_method
      → (serve C H V run decode order meanwhile later draft r w).1 ≡ w
  unfolding serve
  serve_idle meanwhile later draft r w h =
      serve_route_idle meanwhile later draft r w (route r.method r.path)
        (route-IsRouted r.method r.path) h

  created_status :
      (x : Result Database) → (created_answer V x).status ≢ 201 → (e : Error) × (x ≡ err e)
  unfolding created_answer
  created_status (ok db) h = absurd (h refl)
  created_status (err e) h = (e, refl)

  imported_status :
      (x : Result Database) → (imported_answer V x).status ≢ 201 → (e : Error) × (x ≡ err e)
  unfolding imported_answer
  imported_status (ok db) h = absurd (h refl)
  imported_status (err e) h = (e, refl)

  create_refused :
      (draft : Draft) (body : Body) (w : Space)
      → (serve_create C H V run decode order (alone C H) (alone C H) draft body w).0.status ≢ 201
      → (serve_create C H V run decode order (alone C H) (alone C H) draft body w).1.store ≡ w.store
  unfolding serve_create
  create_refused draft body w h = elim (Result-cases (decode_json decode body)) [
    | inr (x, d) ↦ rw (d, serve_create) refl
    | inl (label, d) ↦
        let (e, failed) =
          created_status (Provision.create C H (alone C H) (alone C H) draft label w).0
            (rw (d, serve_create) at h) in
        rw (d, serve_create) (create_store C H draft label w e failed)
  ]

  import_refused :
      (draft : Draft) (u : Upload) (w : Space)
      → (serve_import C H V run decode order (alone C H) (alone C H) draft u w).0.status ≢ 201
      → (serve_import C H V run decode order (alone C H) (alone C H) draft u w).1.store ≡ w.store
  unfolding serve_import
  import_refused draft no_form w h = refl
  import_refused draft no_file w h = refl
  import_refused draft unreadable w h = refl
  import_refused draft (uploaded label content) w h =
      let (e, failed) =
        imported_status
          (Provision.import_database C H (alone C H) (alone C H) draft label content w).0 h in
      import_store C H draft label content w e failed

  query_store :
      (name : Text) (body : Body) (w : Space)
      → (serve_query C H V run decode order name body w).1.store ≡ w.store
  unfolding serve_query
  query_store name body w = ground arith

  serve_route_refused :
      (draft : Draft) (r : Request) (w : Space) (x : Route)
      → (serve_route C H V run decode order (alone C H) (alone C H) draft r x w).0.status ≢ 201
      → (serve_route C H V run decode order (alone C H) (alone C H) draft r x w).1.store ≡ w.store
  unfolding serve_route
  serve_route_refused draft r w create_database h = create_refused draft r.body w h
  serve_route_refused draft r w list_databases h = refl
  serve_route_refused draft r w import_database h = import_refused draft r.upload w h
  serve_route_refused draft r w (get_database name) h = refl
  serve_route_refused draft r w (export_database name) h = refl
  serve_route_refused draft r w (query_database name) h = query_store name r.body w
  serve_route_refused draft r w (method_not_allowed allowed) h = refl
  serve_route_refused draft r w (unknown code text) h = refl

  -- While no other goroutine runs, a request that is answered with another status than 201 leaves
  -- the registry of databases as it was.
  pub serve_refused :
      (draft : Draft) (r : Request) (w : Space)
      → (serve C H V run decode order (alone C H) (alone C H) draft r w).0.status ≢ 201
      → (serve C H V run decode order (alone C H) (alone C H) draft r w).1.store ≡ w.store
  unfolding serve
  serve_refused draft r w h = serve_route_refused draft r w (route r.method r.path) h
