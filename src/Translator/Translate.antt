-- ===== src/Translator/Translate.antt =====
-- translator/translator.go, `Translate` and `TranslateAST`. The text that the parser's `Restore`
-- writes for a tree, or its error, is the argument of `translate_ast`.
use sqliteproxy.Base.{Text, Option, none, some, is_empty, trim_space, if◌then◌else◌}
use sqliteproxy.Effect.{Result, ok, err}
use sqliteproxy.Translator.Commands.{handle_special_commands}
use sqliteproxy.Translator.Escapes.{translate_string_escapes}
use sqliteproxy.Translator.Functions.{translate_functions, translate_character_set_introducers}
use sqliteproxy.Translator.Options.{normalize_whitespace}
use sqliteproxy.Translator.Rows.{translate_dml}
use sqliteproxy.Translator.Tables.{translate_ddl}
use sqliteproxy.Translator.Types.{TypeMap}

-- The steps that `Translate` and `TranslateAST` share.
unfoldable pub rewrite : TypeMap → Text → Text
unfolding translate_ddl translate_dml translate_functions translate_character_set_introducers
    translate_string_escapes
rewrite order sql =
    let sql = translate_ddl order sql in
    let sql = translate_dml sql in
    let sql = translate_functions sql in
    let sql = translate_character_set_introducers sql in translate_string_escapes sql

abbrev answer_or_rewrite : TypeMap → Text → Option Text → Text
answer_or_rewrite order sql none = rewrite order sql
answer_or_rewrite order sql (some result) = result

unfoldable pub translate : TypeMap → Text → Text
unfolding normalize_whitespace handle_special_commands rewrite
translate order sql =
    let sql = trim_space sql in
    if is_empty sql
    then sql
    else let sql = normalize_whitespace sql in
      answer_or_rewrite order sql (handle_special_commands sql)

unfoldable pub translate_ast : TypeMap → Result Text → Result Text
unfolding rewrite
translate_ast order (ok sql) = ok (rewrite order sql)
translate_ast order (err e) = err e
