-- ===== src/Server/Handler/Marker/Modify.antt =====
-- server/handler.go and translator/translator.go: what the handler reads out of the marker for
-- ALTER TABLE … MODIFY COLUMN.
use sqliteproxy.Base.{◌≡◌, ◌≢◌, refl, ◌++◌, [], ◌∷◌, Text, codes, some, All, arith}
use sqliteproxy.Server.Handler.Marker.{split_first, split_n, reconstruct_marker, parse_marker}

abbrev pub HasNoBlank : Text → Type 0
HasNoBlank t = All (λ x. x ≢ b' ') t

split_first_lem : (t s : Text) → HasNoBlank t → split_first (t ++ (b' ' ∷ s)) ≡ some (t, s)
unfolding split_first
split_first_lem [] s h = refl
split_first_lem (x ∷ t) s h = ground (arith, split_first_lem t s h.1)

-- The handler reads the word MODIFY of the marker as the name of the column, and the column's name
-- as the beginning of its definition.
pub parse_marker-reconstruct_marker :
    (table_name column_name def : Text)
    → HasNoBlank table_name
    → parse_marker (reconstruct_marker table_name column_name def)
      ≡ some (record {
        table_name = table_name;
        column_name = codes "MODIFY";
        column_def = column_name ++ (codes " " ++ (def ++ []));
      })
unfolding parse_marker reconstruct_marker split_n
parse_marker-reconstruct_marker t c d h =
    rw (split_first_lem t (codes "MODIFY " ++ (c ++ (codes " " ++ (d ++ [])))) h, split_first) refl
