-- ===== src/Translator/Unchanged.antt =====
-- translator/translator.go, `Translate` with `translateDDL`, `translateDML`, `translateFunctions` and
-- `translateCharacterSetIntroducers`: statements that have none of the notations they rewrite.
pub mod Statement
use sqliteproxy.Base.{
  ℕ, Bool, true, false, not, ◌&&◌, ◌||◌, [], ◌∷◌, ◌++◌, List, Text, String, codes, All, Option,
  none, some, has_prefix, contains, text_eq, to_upper, to_upper_byte, trim_space, trim_space_twice,
  is_empty, ◌≡◌, ◌≢◌, ◌⊎◌, inl, inr, refl, sym, ap, ◌∙◌, subst, arith, Bool-cases,
}
use sqliteproxy.Regexp.{whole_word, Groups, chain, some_of, blank, Regex, word, is_blank, is_word}
use sqliteproxy.Regexp.Lacking.{
  lacks, Holds, in_word, whole_text, left, right, both, inside, replace_all-lacks,
}
use sqliteproxy.Regexp.Replace.{replace_all, group_of}
use sqliteproxy.Translator.Commands.{
  starts_with_one, answer_command, handle_special_commands, settings_and_transactions,
  translate_transaction,
}
use sqliteproxy.Translator.Escapes.{backslash, translate_string_escapes}
use sqliteproxy.Translator.Escapes.Literals.{translate_string_escapes_same}
use sqliteproxy.Translator.Functions.{
  joined, from_epoch, strftime, concat_call, from_unixtime_call, date_format_call,
  translate_functions, translate_concat, translate_from_unixtime, translate_date_format,
  translate_character_set_introducers, introducer,
}
use sqliteproxy.Translator.Options.{normalize_whitespace, remove_option, replace_function}
use sqliteproxy.Translator.Rows.{
  limit_pair, count_offset, index_hint, forced_index, duplicate_clause, translate_dml,
  translate_select, translate_insert, translate_update, translate_delete, translate_limit_syntax,
  translate_boolean, remove_on_duplicate_key_update, remove_words,
}
use sqliteproxy.Translator.Tables.{translate_ddl}
use sqliteproxy.Translator.Translate.{rewrite, translate}
use sqliteproxy.Translator.Types.{TypeMap}

remove_option-lacks :
    (t : Text) (e : Regex) (sql : Text) → Holds t e → lacks t sql ≡ true → remove_option sql e ≡ sql
unfolding remove_option
remove_option-lacks t e sql h l =
    replace_all-lacks t (chain (some_of blank) e) (right h) (λ _. []) sql l

remove_words-lacks :
    (ws : List String) (sql : Text)
    → All (λ w. lacks (codes w) sql ≡ true) ws
    → remove_words ws sql ≡ sql
remove_words-lacks [] sql l = refl
remove_words-lacks (w ∷ ws) sql l =
    ap (remove_words ws) (
      remove_option-lacks (codes w) (whole_word (codes w)) sql (right (left (whole_text (codes w))))
        l.0)
    ∙ remove_words-lacks ws sql l.1

module _ (sql : Text) (l : lacks (codes "(") sql ≡ true) where
  call-lacks :
      (e : Regex) (replacement : String)
      → Holds (codes "(") e
      → replace_function sql e replacement ≡ sql
  unfolding replace_function
  call-lacks e replacement h = replace_all-lacks (codes "(") e h (λ _. codes replacement) sql l

  call : {a b c : Regex} → Holds (codes "(") (chain a (chain b (chain (word "(") c)))
  call = right (right (left (whole_text (codes "("))))

  translate_concat-lacks : translate_concat sql ≡ sql
  unfolding translate_concat
  translate_concat-lacks = replace_all-lacks (codes "(") concat_call call joined sql l

  translate_from_unixtime-lacks : translate_from_unixtime sql ≡ sql
  unfolding translate_from_unixtime
  translate_from_unixtime-lacks =
      replace_all-lacks (codes "(") from_unixtime_call call from_epoch sql l

  translate_date_format-lacks : translate_date_format sql ≡ sql
  unfolding translate_date_format
  translate_date_format-lacks = replace_all-lacks (codes "(") date_format_call call strftime sql l

  -- `translateFunctions` leaves a statement without an opening parenthesis as it is.
  pub translate_functions-lacks : translate_functions sql ≡ sql
  unfolding translate_functions
  translate_functions-lacks =
      let keyword = λ (u : Text). in_word u (codes "(") (codes ")") in
      rw
        (
          call-lacks (word "NOW()") "datetime('now')" (keyword (codes "NOW")),
          call-lacks (word "CURDATE()") "date('now')" (keyword (codes "CURDATE")),
          call-lacks (word "CURTIME()") "time('now')" (keyword (codes "CURTIME")),
          translate_concat-lacks,
          call-lacks (word "UNIX_TIMESTAMP()") "strftime('%s','now')"
              (keyword (codes "UNIX_TIMESTAMP")),
          translate_from_unixtime-lacks,
          translate_date_format-lacks,
          call-lacks (word "VERSION()") "sqlite_version()" (keyword (codes "VERSION")),
        )
        refl

-- The statement has none of the words, in any case.
abbrev pub LacksAll : List String → Text → Type 0
LacksAll ws sql = All (λ w. lacks (codes w) sql ≡ true) ws

abbrev pub LacksOne : String → String → Text → Type 0
LacksOne v w sql = (lacks (codes v) sql ≡ true) ⊎ (lacks (codes w) sql ≡ true)

module _ (sql : Text) where
  translate_limit_syntax-lacks : LacksOne "LIMIT" "," sql → translate_limit_syntax sql ≡ sql
  unfolding translate_limit_syntax
  translate_limit_syntax-lacks (inl l) =
      replace_all-lacks (codes "LIMIT") limit_pair (left (whole_text (codes "LIMIT"))) count_offset
        sql l
  translate_limit_syntax-lacks (inr l) =
      replace_all-lacks (codes ",") limit_pair
        (right (right (right (right (left (whole_text (codes ","))))))) count_offset sql l

  boolean-lacks :
      (w : Text) (value : String)
      → lacks w sql ≡ true
      → replace_all (whole_word w) (λ _. codes value) sql ≡ sql
  boolean-lacks w value l =
      replace_all-lacks w (whole_word w) (right (left (whole_text w))) (λ _. codes value) sql l

  pub translate_select-lacks :
      LacksOne "LIMIT" "," sql
      → LacksAll ("TRUE" ∷ "FALSE" ∷ "INDEX" ∷ []) sql
      → translate_select sql ≡ sql
  unfolding translate_select translate_boolean
  translate_select-lacks limit (true_, (false_, (index, _))) =
      rw
        (
          translate_limit_syntax-lacks limit,
          remove_option-lacks (codes "INDEX") index_hint sql
              (right (right (left (left (whole_text (codes "INDEX")))))) index,
          boolean-lacks (codes "TRUE") "1" true_,
          boolean-lacks (codes "FALSE") "0" false_,
        )
        refl

  pub translate_insert-lacks : lacks (codes "DUPLICATE") sql ≡ true → translate_insert sql ≡ sql
  unfolding translate_insert remove_on_duplicate_key_update
  translate_insert-lacks l =
      replace_all-lacks (codes "DUPLICATE") duplicate_clause
        (right (right (right (left (whole_text (codes "DUPLICATE")))))) (λ _. []) sql l

  pub translate_update-lacks :
      LacksAll ("LOW_PRIORITY" ∷ "IGNORE" ∷ "INDEX" ∷ []) sql → translate_update sql ≡ sql
  unfolding translate_update
  translate_update-lacks (priority, (ignore, (index, _))) =
      rw (remove_words-lacks ("LOW_PRIORITY" ∷ "IGNORE" ∷ []) sql (priority, (ignore, tt))) (
        remove_option-lacks (codes "INDEX") forced_index sql
          (right (right (left (left (whole_text (codes "INDEX")))))) index)

  pub translate_delete-lacks :
      LacksAll ("LOW_PRIORITY" ∷ "QUICK" ∷ "IGNORE" ∷ []) sql → translate_delete sql ≡ sql
  unfolding translate_delete
  translate_delete-lacks l = remove_words-lacks ("LOW_PRIORITY" ∷ "QUICK" ∷ "IGNORE" ∷ []) sql l

  pub introducers-lacks : LacksOne "_" "'" sql → translate_character_set_introducers sql ≡ sql
  unfolding translate_character_set_introducers
  introducers-lacks (inl l) =
      replace_all-lacks (codes "_") introducer (left (whole_text (codes "_"))) (group_of 1) sql l
  introducers-lacks (inr l) =
      replace_all-lacks (codes "'") introducer
        (right (right (left (inside (left (whole_text (codes "'"))))))) (group_of 1) sql l
