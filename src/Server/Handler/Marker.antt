-- ===== src/Server/Handler/Marker.antt =====
-- server/handler.go, the text handling of `handleReconstructTable`: the marker that the translator
-- writes for ALTER TABLE … MODIFY COLUMN, and the column definitions of the new table.
pub mod Modify
use sqliteproxy.Base.{
  ℕ, zero, suc, ◌++◌, Bool, true, false, not, ◌&&◌, [], ◌∷◌, List, Text, codes, concat, Option,
  none, some, text_eq, if◌then◌else◌, ◌==◌, has_prefix, to_lower, is_space, length, drop,
}
use sqliteproxy.Server.Engine.{ColumnInfo}

-- The text before and after the first blank.
unfoldable pub split_first : Text → Option (Text × Text)
split_first [] = none
split_first (c ∷ s) =
    if c == b' '
    then some ([], s)
    else elim (split_first s) [ none ↦ none | some (a, b) ↦ some (c ∷ a, b) ]

-- `strings.SplitN(s, " ", n)` for n > 0
unfoldable pub split_n : ℕ → Text → List Text
unfolding split_first
split_n zero s = []
split_n (suc zero) s = s ∷ []
split_n (suc (suc n)) s = elim (split_first s) [
  | none ↦ s ∷ []
  | some (a, b) ↦ a ∷ split_n (suc n) b
]

-- `fmt.Sprintf("-- RECONSTRUCT_TABLE: %s MODIFY %s %s", …)` in translator/translator.go
unfoldable pub reconstruct_marker : Text → Text → Text → Text
reconstruct_marker table_name column_name column_def = concat (
    codes "-- RECONSTRUCT_TABLE: "
    ∷ table_name
    ∷ codes " MODIFY "
    ∷ column_name
    ∷ codes " "
    ∷ column_def
    ∷ [])

-- The parts that the handler takes out of a marker: the table, the column, the new definition.
pub record Parts : Type 0 where
  pub table_name : Text
  pub column_name : Text
  pub column_def : Text

abbrev parts_of : List Text → Option Parts
parts_of (_ ∷ _ ∷ t ∷ c ∷ d ∷ _) = some (record { table_name = t; column_name = c; column_def = d })
parts_of _ = none

unfoldable pub parse_marker : Text → Option Parts
unfolding split_n
parse_marker marker = parts_of (split_n 5 marker)

-- `(.+?)\)`: the shortest text of one byte or more up to a closing bracket, on one line.
unfoldable pub up_to_bracket : Text → Option Text
up_to_bracket [] = none
up_to_bracket (c ∷ s) =
    if c == b')'
    then some []
    else if c == b'\n'
    then none
    else elim (up_to_bracket s) [ none ↦ none | some t ↦ some (c ∷ t) ]

abbrev captured : Text → Option Text
captured [] = none
captured (c ∷ s) =
    if c == b'\n' then none else elim (up_to_bracket s) [ none ↦ none | some t ↦ some (c ∷ t) ]

-- `\s+(.+?)\)` behind its first blank: as many blanks as possible, and fewer if that fails.
unfoldable pub after_blanks : Text → Option Text
unfolding up_to_bracket
after_blanks [] = none
after_blanks (c ∷ s) =
    let more = after_blanks s in
    if is_space c then elim more [ some t ↦ some t | none ↦ captured (c ∷ s) ] else captured (c ∷ s)

abbrev behind_column : Text → Option Text
behind_column [] = none
behind_column (c ∷ s) = if is_space c then after_blanks s else none

-- `(?i)\(` + the column's name + `\s+(.+?)\)`: the group of the first match.
unfoldable pub find_definition : Text → Text → Option Text
unfolding after_blanks
find_definition name [] = none
find_definition name (c ∷ s) =
    let later = find_definition name s in
    let here =
      if c == b'(' && has_prefix (to_lower name) (to_lower s)
      then behind_column (drop (length name) s)
      else none in
    elim here [ some t ↦ some t | none ↦ later ]

-- The definition of one column of the new table.
unfoldable pub column_def : Text → Text → ColumnInfo → Text
column_def column_name new_def info =
    let same = text_eq info.name column_name in
    let first =
      if same
      then concat (codes "`" ∷ new_def ∷ codes "`" ∷ [])
      else concat (codes "`" ∷ info.name ∷ codes "` " ∷ info.type ∷ []) in
    let second = if info.not_null == 1 && not same then first ++ codes " NOT NULL" else first in
    let third : Text = elim info.default [
      | none ↦ second
      | some d ↦ if not same then concat (second ∷ codes " DEFAULT " ∷ d ∷ []) else second
    ] in
    if info.primary_key == 1 then third ++ codes " PRIMARY KEY" else third

-- `strings.Join`
unfoldable pub join : Text → List Text → Text
join sep [] = []
join sep (t ∷ []) = t
join sep (t ∷ u ∷ ts) = t ++ (sep ++ join sep (u ∷ ts))
