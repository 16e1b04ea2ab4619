-- ===== src/Examples/Statements.antt =====
-- The handler with the program's translator at concrete statements.
use sqliteproxy.Base.{
  map, ℕ, true, false, Text, codes, Option, none, some, List, [], ◌∷◌, ◌≡◌, ◌≢◌, refl, inl, inr,
  arith,
}
use sqliteproxy.Effect.{Result, ok}
use sqliteproxy.Examples.Servers.{engine, client}
use sqliteproxy.Examples.Stores.{tenant}
use sqliteproxy.Server.Handler.{done}
use sqliteproxy.Server.Handler.Dispatch.{handle_query}
use sqliteproxy.Server.Handler.Verbatim.{
  program_translator, IsVerbatim, exec_all, handle_query-IsVerbatim,
}
use sqliteproxy.Server.Resultset.{
  Rows, Resultset, other, instant, null, chosen_type, datetime_type, build_resultset,
}
use sqliteproxy.Server.Statement.{Parser, Stmt, insert_stmt, delete_stmt}
use sqliteproxy.Translator.Types.{default_type_map}

abbrev inserted : Text
inserted = codes "INSERT INTO t VALUES"

abbrev deleted : Text
deleted = codes "DELETE FROM t WHERE a=1"

abbrev insert_statement : Stmt
insert_statement = record { kind = insert_stmt; text = inserted; restored = ok inserted }

abbrev delete_statement : Stmt
delete_statement = record { kind = delete_stmt; text = deleted; restored = ok deleted }

abbrev two_statements : Parser
two_statements text = ok (insert_statement ∷ delete_statement ∷ [])

insert-IsVerbatim : IsVerbatim insert_statement inserted
unfolding sqliteproxy.Base.has_prefix sqliteproxy.Base.to_upper sqliteproxy.Base.contains
insert-IsVerbatim = record {
  writes = tt;
  restores = refl;
  begins = refl;
  plain = (
    (refl, (refl, (refl, (refl, (refl, (refl, (refl, (refl, tt)))))))),
    inl refl,
    inl refl,
    ground arith,
  );
}

delete-IsVerbatim : IsVerbatim delete_statement deleted
unfolding sqliteproxy.Base.has_prefix sqliteproxy.Base.to_upper sqliteproxy.Base.contains
delete-IsVerbatim = record {
  writes = tt;
  restores = refl;
  begins = refl;
  plain = (
    (refl, (refl, (refl, (refl, (refl, (refl, (refl, (refl, tt)))))))),
    inl refl,
    inl refl,
    ground arith,
  );
}

handle_query-IsVerbatim_example :
    handle_query engine (program_translator default_type_map) two_statements (codes "...") client
    ≡ exec_all engine (inserted ∷ deleted ∷ []) done client
handle_query-IsVerbatim_example =
    handle_query-IsVerbatim engine default_type_map two_statements (codes "...") insert_statement
      (delete_statement ∷ []) inserted (deleted ∷ []) tenant client refl refl
      (insert-IsVerbatim, (delete-IsVerbatim, tt))

abbrev two_columns : Rows Text
two_columns = record {
  columns = ok (codes "id" ∷ codes "at" ∷ []);
  column_types = codes "integer" ∷ codes "timestamp" ∷ [];
  scans =
      ok (other (codes "7") ∷ instant (codes "2024-01-02 03:04:05") ∷ [])
      ∷ ok (null ∷ null ∷ [])
      ∷ [];
  failure = none;
}

abbrev all_text :
    List Text → List (List (Option Text)) → Result (Resultset (List (List (Option Text))))
all_text names cells = ok (record {
  fields = map (λ n. record { name = n; field_type = chosen_type (codes "text") }) names;
  data_rows = cells;
})

two_columns-build_resultset :
    build_resultset Text (λ t. t) (List (List (Option Text))) all_text two_columns
    ≡ ok (record {
      fields =
          record { name = codes "id"; field_type = chosen_type (codes "text") }
          ∷ record { name = codes "at"; field_type = datetime_type }
          ∷ [];
      data_rows =
          (some (codes "7") ∷ some (codes "2024-01-02 03:04:05") ∷ []) ∷ (none ∷ none ∷ []) ∷ [];
    })
unfolding build_resultset sqliteproxy.Server.Resultset.set_types
two_columns-build_resultset = refl
