-- ===== src/Translator/Options.antt =====
-- translator/translator.go, the helpers `normalizeWhitespace`, `removeOption` and `replaceFunction`.
pub mod Blanks
pub mod Normal
use sqliteproxy.Base.{[], ◌∷◌, Text, String, codes, trim_space}
use sqliteproxy.Regexp.{Regex, chain, some_of, blank, is_blank}
use sqliteproxy.Regexp.Replace.{replace_all}

unfoldable pub normalize_whitespace : Text → Text
unfolding replace_all trim_space is_blank
normalize_whitespace sql = trim_space (replace_all (some_of blank) (λ _. codes " ") sql)

unfoldable pub remove_option : Text → Regex → Text
unfolding replace_all is_blank
remove_option sql pattern = replace_all (chain (some_of blank) pattern) (λ _. []) sql

unfoldable pub replace_function : Text → Regex → String → Text
unfolding replace_all
replace_function sql pattern replacement = replace_all pattern (λ _. codes replacement) sql
