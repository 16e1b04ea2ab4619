-- ===== src/Examples/Requests.antt =====
-- management/ and translator/: the theorems on some requests and statements.
use sqliteproxy.Base.{
  ℕ, ◌≡◌, ◌≢◌, ◌++◌, refl, inl, inr, Bool, true, false, [], ◌∷◌, List, Text, codes, Option, none,
  some, arith, All,
}
use sqliteproxy.Effect.{ok}
use sqliteproxy.Examples.Machine.{machine}
use sqliteproxy.Examples.Stores.{start, draft, read_nothing}
use sqliteproxy.Examples.Table.{slot_catalog}
use sqliteproxy.Management.Api.Answers.{serve_refused, alone}
use sqliteproxy.Management.Api.{Decoder, Request, serve, no_form}
use sqliteproxy.Management.Routes.Dispatch.{IsRouted, route-IsRouted}
use sqliteproxy.Management.Routes.{route}
use sqliteproxy.Storage.{Database}
use sqliteproxy.Translator.Commands.Dropped.{insert_dropped}
use sqliteproxy.Translator.Commands.{handle_special_commands, no_op}
use sqliteproxy.Translator.Escapes.Literals.{
  byte, escaped_quote, doubled_quote, Pieces, write, in_mysql, in_sqlite,
  translate_string_escapes_lem, trailing_backslash,
}
use sqliteproxy.Translator.Escapes.{translate_string_escapes}

route-IsRouted_example :
    IsRouted (codes "GET") (route (codes "GET") (codes "/v1/databases/db_1a/export/"))
route-IsRouted_example = route-IsRouted (codes "GET") (codes "/v1/databases/db_1a/export/")

-- A decoder that refuses everything.
abbrev decode_nothing : Decoder
decode_nothing t = none

abbrev same_order : List Database → List Database
same_order dbs = dbs

abbrev request : Text → Request
request method = record {
  method = method;
  path = codes "/v1/databases";
  body = some (ok (codes "{"));
  upload = no_form;
}

serve_refused_example :
    (serve slot_catalog machine Text read_nothing decode_nothing same_order
      (alone slot_catalog machine)
      (alone slot_catalog machine)
      draft
      (request (codes "POST"))
      start).1.store
    ≡ start.store
unfolding serve
serve_refused_example =
    serve_refused slot_catalog machine Text read_nothing decode_nothing same_order draft
      (request (codes "POST")) start (λ h. absurd (ground arith))

-- 'it\'s''' and a column
abbrev pieces : Pieces
pieces =
    (byte b'i' ∷ byte b't' ∷ escaped_quote ∷ byte b's' ∷ doubled_quote ∷ [], codes ", ")
    ∷ (byte b'x' ∷ [], [])
    ∷ []

translate_string_escapes_lem_example :
    translate_string_escapes (codes "SELECT " ++ write in_mysql pieces)
    ≡ codes "SELECT " ++ write in_sqlite pieces
translate_string_escapes_lem_example =
    translate_string_escapes_lem (codes "SELECT ") pieces (ground arith) (ground arith)

trailing_backslash_example :
    translate_string_escapes (codes "insert into t values ('x', 'a\\', 2)")
    ≡ codes "insert into t values ('x', 'a'', 2)"
trailing_backslash_example =
    trailing_backslash (codes "insert into t values (") ((byte b'x' ∷ [], codes ", ") ∷ [])
      (byte b'a' ∷ []) (codes ", 2)") (ground arith) (ground arith) (ground arith) (ground arith)

insert_dropped_example :
    handle_special_commands (codes "insert into n values ('set transaction')") ≡ some no_op
unfolding sqliteproxy.Base.to_upper
insert_dropped_example =
    insert_dropped (codes "insert into n values ('set transaction')") (codes " INTO N VALUES ('")
      (codes "')") refl
