-- ===== src/Management/Api.antt =====
-- management/handler.go: the handlers, and their answers.
pub mod Answers
use sqliteproxy.Base.{
  ℕ, ◌++◌, Bool, true, false, [], ◌∷◌, List, Text, codes, concat, Option, none, some, is_empty,
  trim_space, if◌then◌else◌,
}
use sqliteproxy.Errors.{Error, message, error_text, is_not_found, is_invalid_label}
use sqliteproxy.Effect.{Result, ok, err, Action}
use sqliteproxy.Management.Routes.{
  Route, create_database, list_databases, import_database, get_database, export_database,
  query_database, method_not_allowed, unknown, route,
}
use sqliteproxy.Sqlite.Interface.{Host}
use sqliteproxy.Storage.Catalog.{Catalog}
use sqliteproxy.Storage.Provision
use sqliteproxy.Storage.Provision.{Draft}
use sqliteproxy.Storage.Query
use sqliteproxy.Storage.Query.{Table, Reading}
use sqliteproxy.Storage.Registry
use sqliteproxy.Storage.{Database, Summary, Details, details}

-- The body of a request as `io.ReadAll` returns it; `none` is a nil body.
abbrev pub Body : Type 0
Body = Option (Result Text)

-- What the JSON decoder returns: an error, or the value and whether data follows it.
abbrev pub Decoder : Type 0
Decoder = Text → Option (Text × Bool)

-- `decodeJSON` into a structure of one text field, which stays empty where there is nothing to read.
unfoldable pub decode_json : Decoder → Body → Result Text
unfolding trim_space
decode_json decode none = ok []
decode_json decode (some (err e)) = err (message (codes "request body too large or unreadable"))
decode_json decode (some (ok content)) =
    if is_empty (trim_space content) then ok [] else elim (decode content) [
      | none ↦ err (message (codes "invalid JSON body"))
      | some (value, true) ↦ err (message (codes "invalid JSON body: trailing data"))
      | some (value, false) ↦ ok value
    ]

-- What `ParseMultipartForm`, `FormFile` and `io.ReadAll` make of an upload.
pub data Upload : Type 0 where
  no_form no_file unreadable : Upload
  uploaded : Text → Text → Upload

pub record Request : Type 0 where
  pub method : Text
  pub path : Text
  pub body : Body
  pub upload : Upload

-- What an answer shows.
pub data Payload (V : Type 0) : Type 0 where
  failure : Text → Text → Payload V
  database : Details → Payload V
  databases : List Summary → Payload V
  file : Text → Payload V
  table : Table V → Payload V

-- `no_store` is the header Cache-Control, `location` and `allow` the headers of these names, and
-- `attachment` the file name of Content-Disposition.
pub record Response (V : Type 0) : Type 0 where
  pub status : ℕ
  pub payload : Payload V
  pub no_store : Bool
  pub location : Option Text
  pub allow : List Text
  pub attachment : Option Text

module _ (V : Type 0) where
  abbrev pub answer : ℕ → Payload V → Response V
  answer status payload = record {
    status = status;
    payload = payload;
    no_store = false;
    location = none;
    allow = [];
    attachment = none;
  }

  -- `writeError`
  abbrev pub write_error : ℕ → Text → Text → Response V
  write_error status code text = answer status (failure code text)

  -- `writeMethodNotAllowed`
  abbrev pub write_method_not_allowed : List Text → Response V
  write_method_not_allowed allowed =
      record (write_error 405 (codes "method_not_allowed") (codes "method not allowed")) {
        allow = allowed;
      }

  abbrev pub missing : Response V
  missing = write_error 404 (codes "database_not_found") (codes "database not found")

  abbrev pub made : Database → Response V
  made db = record (answer 201 (database (details db))) {
    no_store = true;
    location = some (codes "/v1/databases/" ++ db.name);
  }

  -- The answers of the handlers to what the store returns.
  unfoldable pub created_answer : Result Database → Response V
  created_answer (ok db) = made db
  created_answer (err e) =
      if is_invalid_label e
      then write_error 400 (codes "invalid_label") (error_text e)
      else write_error 500 (codes "internal_error") (codes "failed to create database")

  unfoldable pub imported_answer : Result Database → Response V
  imported_answer (ok db) = made db
  imported_answer (err e) = write_error 400 (codes "import_failed") (error_text e)

  unfoldable pub list_answer : Result (List Summary) → Response V
  list_answer (ok l) = answer 200 (databases l)
  list_answer (err e) = write_error 500 (codes "internal_error") (codes "failed to list databases")

  unfoldable pub get_answer : Result Database → Response V
  get_answer (ok db) = record (answer 200 (database (details db))) { no_store = true }
  get_answer (err e) =
      if is_not_found e
      then missing
      else write_error 500 (codes "internal_error") (codes "failed to get database")

  unfoldable pub export_answer : Text → Result Text → Response V
  export_answer name (ok path) = record (answer 200 (file path)) {
    no_store = true;
    attachment = some (name ++ codes ".sqlite");
  }
  export_answer name (err e) =
      if is_not_found e
      then missing
      else write_error 500 (codes "internal_error") (codes "failed to export database")

  unfoldable pub query_answer : Result (Table V) → Response V
  query_answer (ok t) = answer 200 (table t)
  query_answer (err e) =
      if is_not_found e then missing else write_error 400 (codes "query_error") (error_text e)

-- The store that the API is over: its environment, the order of a walk over a map, what the random
-- source and the clock give, and what other goroutines do during a call.
module _ (C : Catalog) (H : Host) (V : Type 0) (run : ℕ → Text → H.State → Reading V × H.State)
    (decode : Decoder) (order : List Database → List Database) where
  abbrev World : Type 0
  World = Provision.World C H

  abbrev pub Busy : Type 0
  Busy = World → World

  -- `createDatabase` and `importDatabase`
  unfoldable pub serve_create : Busy → Busy → Draft → Body → World → Response V × World
  unfolding decode_json Provision.create created_answer
  serve_create meanwhile later draft body w = elim (decode_json decode body) [
    | err e ↦ (write_error V 400 (codes "invalid_request") (error_text e), w)
    | ok label ↦
        let result = Provision.create C H meanwhile later draft label w in
        (created_answer V result.0, result.1)
  ]

  unfoldable pub serve_import : Busy → Busy → Draft → Upload → World → Response V × World
  unfolding Provision.import_database imported_answer
  serve_import meanwhile later draft no_form w =
      (write_error V 400 (codes "invalid_request") (codes "multipart form required"), w)
  serve_import meanwhile later draft no_file w =
      (write_error V 400 (codes "invalid_request") (codes "missing file field"), w)
  serve_import meanwhile later draft unreadable w =
      (write_error V 400 (codes "invalid_request") (codes "failed to read uploaded file"), w)
  serve_import meanwhile later draft (uploaded label content) w =
      let result = Provision.import_database C H meanwhile later draft label content w in
      (imported_answer V result.0, result.1)

  -- `queryDatabase`
  unfoldable pub serve_query : Text → Body → World → Response V × World
  unfolding decode_json trim_space Query.query query_answer
  serve_query name body w = elim (decode_json decode body) [
    | err e ↦ (write_error V 400 (codes "invalid_request") (error_text e), w)
    | ok sql ↦
        if is_empty (trim_space sql)
        then (write_error V 400 (codes "invalid_request") (codes "query is required"), w)
        else let result = Query.query H V run w.store name sql w.host in
          (query_answer V result.0, record w { host = result.1 })
  ]

  -- The switch of `ServeHTTP`.
  unfoldable pub serve_route : Busy → Busy → Draft → Request → Route → World → Response V × World
  unfolding serve_create serve_import serve_query list_answer get_answer export_answer
  serve_route meanwhile later draft r create_database w =
      serve_create meanwhile later draft r.body w
  serve_route meanwhile later draft r list_databases w =
      (list_answer V (Registry.list order w.store), w)
  serve_route meanwhile later draft r import_database w =
      serve_import meanwhile later draft r.upload w
  serve_route meanwhile later draft r (get_database name) w =
      (get_answer V (Registry.get name w.store), w)
  serve_route meanwhile later draft r (export_database name) w =
      (export_answer V name (Registry.export name w.store), w)
  serve_route meanwhile later draft r (query_database name) w = serve_query name r.body w
  serve_route meanwhile later draft r (method_not_allowed allowed) w =
      (write_method_not_allowed V allowed, w)
  serve_route meanwhile later draft r (unknown code text) w = (write_error V 404 code text, w)

  -- `ServeHTTP`
  unfoldable pub serve : Busy → Busy → Draft → Request → World → Response V × World
  unfolding route serve_route
  serve meanwhile later draft r w = serve_route meanwhile later draft r (route r.method r.path) w
