-- ===== src/Server/Resultset.antt =====
-- server/handler.go, `buildResultset`: the rows of the SQL engine as the MySQL library's result set. The
-- library's `BuildSimpleResultset` is an argument, and so is the text of an instant.
use sqliteproxy.Base.{
  Bool, ◌||◌, Text, codes, Option, none, some, List, [], ◌∷◌, map, ◌≡◌, refl, ap, text_eq, to_upper,
  if◌then◌else◌,
}
use sqliteproxy.Effect.{Result, ok, err}
use sqliteproxy.Errors.{Error}

-- The type of a column: one that `buildResultset` sets, or the one that the library has chosen.
pub data FieldType : Type 0 where
  datetime_type : FieldType
  date_type : FieldType
  time_type : FieldType
  json_type : FieldType
  tiny_type : FieldType
  newdecimal_type : FieldType
  chosen_type : Text → FieldType

pub record Field : Type 0 where
  pub name : Text
  pub field_type : FieldType

abbrev is_one_of : Text → Text → Text → Bool
unfolding text_eq
is_one_of a b s = text_eq s a || text_eq s b

-- The type for the declared one, where it is one that the switch knows.
unfoldable pub declared_type : Text → FieldType → FieldType
unfolding to_upper text_eq
declared_type declared chosen =
    let db_type = to_upper declared in
    if is_one_of (codes "DATETIME") (codes "TIMESTAMP") db_type
    then datetime_type
    else if text_eq db_type (codes "DATE")
    then date_type
    else if text_eq db_type (codes "TIME")
    then time_type
    else if text_eq db_type (codes "JSON")
    then json_type
    else if is_one_of (codes "BOOLEAN") (codes "BOOL") db_type
    then tiny_type
    else if is_one_of (codes "DECIMAL") (codes "NUMERIC") db_type
    then newdecimal_type
    else chosen

-- The loop over the declared types, as far as there are fields.
unfoldable pub set_types : List Text → List Field → List Field
unfolding declared_type
set_types [] fields = fields
set_types (t ∷ ts) [] = []
set_types (t ∷ ts) (f ∷ fields) =
    record f { field_type = declared_type t f.field_type } ∷ set_types ts fields

module _ (Instant : Type 0) where
  -- A scanned value; `other` has its `%v`.
  pub data Scanned : Type 0 where
    null : Scanned
    bytes : Text → Scanned
    instant : Instant → Scanned
    other : Text → Scanned

  -- `*sql.Rows`; where `ColumnTypes` fails there are no declared types.
  pub record Rows : Type 0 where
    pub columns : Result (List Text)
    pub column_types : List Text
    pub scans : List (Result (List Scanned))
    pub failure : Option Error

pub record Resultset (Data : Type 0) : Type 0 where
  pub fields : List Field
  pub data_rows : Data

module _ (Instant : Type 0) (format : Instant → Text) where
  abbrev pub cell : Scanned Instant → Option Text
  cell null = none
  cell (bytes t) = some t
  cell (instant t) = some (format t)
  cell (other t) = some t

  unfoldable pub read_cells :
      List (Result (List (Scanned Instant))) → Result (List (List (Option Text)))
  read_cells [] = ok []
  read_cells (err e ∷ rs) = err e
  read_cells (ok vs ∷ rs) = elim (read_cells rs) [
    | ok rows ↦ ok (map cell vs ∷ rows)
    | err e ↦ err e
  ]

  module _ (Data : Type 0)
      (build_simple : List Text → List (List (Option Text)) → Result (Resultset Data)) where
    abbrev pub typed_fields : List Text → Result (Resultset Data) → Result (Resultset Data)
    typed_fields ts (err e) = err e
    typed_fields ts (ok r) = ok (record r { fields = set_types ts r.fields })

    abbrev pub build_read :
        Rows Instant
        → List Text
        → Option Error
        → Result (List (List (Option Text)))
        → Result (Resultset Data)
    build_read rows columns failure (err e) = err e
    build_read rows columns (some e) (ok cells) = err e
    build_read rows columns none (ok cells) =
        typed_fields rows.column_types (build_simple columns cells)

    -- `buildResultset`
    unfoldable pub build_resultset : Rows Instant → Result (Resultset Data)
    unfolding read_cells
    build_resultset rows = elim rows.columns [
      | err e ↦ err e
      | ok columns ↦ build_read rows columns rows.failure (read_cells rows.scans)
    ]

-- The declared types change no name and no number of fields.
pub set_types-names :
    (ts : List Text) (fields : List Field)
    → map (λ f. f.name) (set_types ts fields) ≡ map (λ f. f.name) fields
unfolding set_types
set_types-names [] fields = refl
set_types-names (t ∷ ts) [] = refl
set_types-names (t ∷ ts) (f ∷ fields) = ap (λ ns. f.name ∷ ns) (set_types-names ts fields)
