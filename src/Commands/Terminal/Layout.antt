-- ===== src/Commands/Terminal/Layout.antt =====
-- cmd/sqlite-client/main.go: what the client prints for a statement, the table of rows first of all.
pub mod Aligned
use sqliteproxy.Base.{
  ℕ, zero, suc, ◌+◌, ◌-◌, Bool, true, false, ◌||◌, Text, codes, Option, none, some, List, [], ◌∷◌,
  ◌++◌, map, length, concat, is_empty, has_prefix, String, to_upper, trim_space, ltb, ◌==◌,
  if◌then◌else◌,
}
use sqliteproxy.Base.Int.{ℤ, decimal, format_int}
use sqliteproxy.Commands.Terminal.Runes.{rune_count}
use sqliteproxy.Effect.{Result, ok, err}
use sqliteproxy.Errors.{Error, error_text}

-- `strings.Repeat` of one byte.
abbrev pub repeated : ℕ → ℕ → Text
repeated c zero = []
repeated c (suc n) = c ∷ repeated c n

-- `%-*s`: blanks up to a width in runes; fmt takes no width above a million.
unfoldable pub padded : ℕ → Text → Text
unfolding rune_count
padded w s =
    if ltb 1000000 w then codes "%!(BADWIDTH)" ++ s else s ++ repeated b' ' (w - rune_count s)

abbrev pub cells : List Text → List ℕ → Text
unfolding padded
cells (c ∷ cs) (w ∷ ws) = codes " " ++ (padded w c ++ (codes " |" ++ cells cs ws))
cells _ _ = []

-- `printRow`, for a row that has no more columns than `widths`.
unfoldable pub print_row : List Text → List ℕ → Text
unfolding cells
print_row cols widths = codes "|" ++ cells cols widths

abbrev pub bars : List ℕ → Text
bars [] = []
bars (w ∷ ws) = repeated b'-' (w + 2) ++ (codes "+" ++ bars ws)

-- `printSeparator`
unfoldable pub print_separator : List ℕ → Text
print_separator widths = codes "+" ++ bars widths

-- A row's lengths over the widths so far.
abbrev pub widen : List ℕ → List Text → List ℕ
widen (w ∷ ws) (c ∷ cs) = (if ltb w (length c) then length c else w) ∷ widen ws cs
widen ws _ = ws

abbrev widen_all : List ℕ → List (List Text) → List ℕ
widen_all ws [] = ws
widen_all ws (r ∷ rs) = widen_all (widen ws r) rs

-- `widths`: the bytes of the longest value of each column, its name included.
unfoldable pub column_widths : List Text → List (List Text) → List ℕ
column_widths columns rows = widen_all (map length columns) rows

unfoldable pub print_table : List Text → List (List Text) → List Text
unfolding column_widths print_separator print_row
print_table columns rows =
    let widths = column_widths columns rows in
    let separator = print_separator widths in
    separator
    ∷ (print_row columns widths
        ∷ (separator ∷ (map (λ r. print_row r widths) rows ++ (separator ∷ []))))

-- A scanned value: `nil`, bytes, or another value with its `%v`.
pub data Value : Type 0 where
  null : Value
  bytes : Text → Value
  other : Text → Value

abbrev pub value_text : Value → Text
value_text null = codes "NULL"
value_text (bytes t) = t
value_text (other t) = t

-- The rows of `db.Query`: their columns, each `Scan`, and `rows.Err()`.
pub record Rows : Type 0 where
  pub columns : Result (List Text)
  pub scans : List (Result (List Value))
  pub failure : Option Error

-- The rows up to the first `Scan` that fails.
unfoldable pub scan_rows : List (Result (List Value)) → Result (List (List Text))
scan_rows [] = ok []
scan_rows (err e ∷ rs) = err e
scan_rows (ok vs ∷ rs) = elim (scan_rows rs) [
  | ok rows ↦ ok (map value_text vs ∷ rows)
  | err e ↦ err e
]

unfoldable pub error_line : Error → Text
unfolding error_text
error_line e = codes "ERROR: " ++ error_text e

-- The time, where the client runs with `--debug`.
abbrev pub time_line : Option Text → List Text
time_line none = []
time_line (some t) = (codes "(" ++ (t ++ codes ")")) ∷ []

abbrev pub time_suffix : Option Text → Text
time_suffix none = []
time_suffix (some t) = codes " (" ++ (t ++ codes ")")

unfoldable pub row_count : ℕ → Text
unfolding decimal
row_count n =
    decimal n ++ (codes " " ++ ((if n == 1 then codes "row" else codes "rows") ++ codes " in set"))

unfoldable pub print_rows : Option Text → List Text → List (List Text) → List Text
unfolding print_table row_count
print_rows elapsed [] rows = codes "Empty set" ∷ time_line elapsed
print_rows elapsed (c ∷ cs) rows =
    print_table (c ∷ cs) rows ++ ((row_count (length rows) ++ time_suffix elapsed) ∷ [])

unfoldable pub print_scanned :
    Option Text → List Text → Option Error → Result (List (List Text)) → List Text
unfolding print_rows
print_scanned elapsed columns failure (err e) = error_line e ∷ []
print_scanned elapsed columns (some e) (ok rows) = error_line e ∷ []
print_scanned elapsed columns none (ok rows) = print_rows elapsed columns rows

unfoldable pub print_columns : Option Text → Rows → Result (List Text) → List Text
unfolding scan_rows
print_columns elapsed rows (err e) = error_line e ∷ []
print_columns elapsed rows (ok columns) =
    print_scanned elapsed columns rows.failure (scan_rows rows.scans)

-- The lines of `executeSelect`, on what `db.Query` returns.
unfoldable pub execute_select : Option Text → Result Rows → List Text
execute_select elapsed (err e) = error_line e ∷ time_line elapsed
execute_select elapsed (ok rows) = print_columns elapsed rows rows.columns

unfoldable pub starts : String → Text → Bool
unfolding has_prefix to_upper trim_space
starts word query = has_prefix (codes word) (to_upper (trim_space query))

-- The lines of `executeExec`, on what `db.Exec` returns.
unfoldable pub execute_exec : Option Text → Text → Result ℤ → List Text
unfolding starts format_int
execute_exec elapsed query (err e) = error_line e ∷ time_line elapsed
execute_exec elapsed query (ok affected) =
    let n = format_int affected in
    let text =
      if starts "INSERT" query
      then codes "Query OK, " ++ (n ++ codes " row affected")
      else if starts "UPDATE" query || starts "DELETE" query
      then codes "Query OK, " ++ (n ++ codes " row(s) affected")
      else codes "Query OK" in
    (text ++ time_suffix elapsed) ∷ []

-- `isQuery`
unfoldable pub is_query : Text → Bool
unfolding starts
is_query query =
    starts "SELECT" query
    || starts "SHOW" query
    || starts "DESCRIBE" query
    || starts "DESC" query
    || starts "PRAGMA" query
    || starts "EXPLAIN" query

-- `executeQuery`
unfoldable pub execute_query :
    (Text → Result Rows) → (Text → Result ℤ) → Option Text → Text → List Text
unfolding is_query execute_select execute_exec
execute_query query exec elapsed statement =
    if is_query statement
    then execute_select elapsed (query statement)
    else execute_exec elapsed statement (exec statement)
