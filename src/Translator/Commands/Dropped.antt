-- ===== src/Translator/Commands/Dropped.antt =====
-- translator/translator.go, `handleSpecialCommands`: statements that are answered in place of being
-- run.
use sqliteproxy.Base.{
  ◌≡◌, refl, ap, ◌∙◌, true, [], ◌∷◌, ◌++◌, Text, codes, some, text_eq, has_prefix, contains,
  to_upper, arith,
}
use sqliteproxy.Translator.Commands.{
  answer_command, handle_special_commands, settings_and_transactions, translate_transaction, no_op,
}

has_prefix-split : (p s : Text) → has_prefix p (p ++ s) ≡ true
unfolding has_prefix
has_prefix-split [] s = refl
has_prefix-split (c ∷ p) s = ground (arith, has_prefix-split p s)

contains-has_prefix : (p s : Text) → has_prefix p s ≡ true → contains p s ≡ true
unfolding contains has_prefix
contains-has_prefix [] [] h = refl
contains-has_prefix (x ∷ p) [] h = h
contains-has_prefix p (c ∷ s) h = ground (arith, h)

contains-split : (p before after : Text) → contains p (before ++ (p ++ after)) ≡ true
unfolding contains
contains-split p [] after = contains-has_prefix p (p ++ after) (has_prefix-split p after)
contains-split p (c ∷ before) after = ground (arith, contains-split p before after)

insert_answer :
    (sql rest : Text)
    → contains (codes "SET TRANSACTION") (codes "INSERT" ++ rest) ≡ true
    → answer_command sql (codes "INSERT" ++ rest) ≡ some no_op
unfolding answer_command settings_and_transactions translate_transaction has_prefix text_eq
insert_answer sql rest h = rw (h) refl

-- For a statement that begins with INSERT and has SET TRANSACTION somewhere behind it, in any case and
-- also inside a string literal, `handleSpecialCommands` answers SELECT 1 in its place.
pub insert_dropped :
    (sql before after : Text)
    → to_upper sql ≡ codes "INSERT" ++ (before ++ (codes "SET TRANSACTION" ++ after))
    → handle_special_commands sql ≡ some no_op
unfolding handle_special_commands
insert_dropped sql before after e =
    ap (answer_command sql) e
    ∙ insert_answer sql (before ++ (codes "SET TRANSACTION" ++ after))
        (contains-split (codes "SET TRANSACTION") (codes "INSERT" ++ before) after)
