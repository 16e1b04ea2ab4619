-- ===== src/Translator/Tables/Restored.antt =====
-- translator/translator.go, `translateDDL` on the text that `Restore` writes for ALTER TABLE.
use sqliteproxy.Base.{
  ℕ, [], ◌∷◌, ◌++◌, Text, codes, has_prefix, to_upper, to_upper_byte, some, ◌≡◌, refl, ap,
}
use sqliteproxy.Regexp.{runs, take_byte, each, repeat, is_blank, is_word}
use sqliteproxy.Regexp.Replace.{match_here, scan, hits, first_groups, find_all, find_submatch}
use sqliteproxy.Translator.Tables.{
  modify_column, marker_of, translate_alter_table, translate_definition, translate_ddl,
}
use sqliteproxy.Translator.Types.{TypeMap}

-- The expression matches at the beginning of the text only.
anchored : (b : ℕ) (s : Text) → hits (scan modify_column 0 (some b) s) ≡ []
unfolding scan match_here runs each
anchored b [] = refl
anchored b (c ∷ s) = anchored c s

-- The text that `Restore` writes for ALTER TABLE, which begins with these keywords in small letters and
-- the table's name between double quotes, is left as it is by `translateDDL`, whatever follows: a
-- MODIFY COLUMN in it, too, does not become the marker that the handler looks for.
pub translate_ddl-restored :
    (order : TypeMap) (s : Text)
    → translate_ddl order (codes "alter table \"" ++ s) ≡ codes "alter table \"" ++ s
unfolding translate_ddl translate_definition translate_alter_table find_submatch find_all scan
    match_here runs each repeat take_byte is_blank is_word to_upper to_upper_byte has_prefix
translate_ddl-restored order s =
    ap (λ hs. marker_of (codes "alter table \"" ++ s) (first_groups hs))
      (anchored b'a' (codes "lter table \"" ++ s))
