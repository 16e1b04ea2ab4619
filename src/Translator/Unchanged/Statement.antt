-- ===== src/Translator/Unchanged/Statement.antt =====
-- translator/translator.go, `Translate`: statements that have none of the notations it rewrites.
use sqliteproxy.Base.{
  true, false, ◌++◌, [], ◌∷◌, List, Text, String, codes, All, none, has_prefix, contains, text_eq,
  to_upper, to_upper_byte, trim_space, trim_space_twice, is_empty, ◌≡◌, ◌≢◌, ◌⊎◌, inl, inr, refl,
  sym, ap, ◌∙◌, subst, arith, Bool-cases,
}
use sqliteproxy.Regexp.{some_of, blank}
use sqliteproxy.Regexp.Replace.{replace_all}
use sqliteproxy.Regexp.Lacking.{lacks}
use sqliteproxy.Translator.Commands.{
  starts_with_one, answer_command, handle_special_commands, settings_and_transactions,
  translate_transaction,
}
use sqliteproxy.Translator.Escapes.{backslash}
use sqliteproxy.Translator.Escapes.Literals.{translate_string_escapes_same}
use sqliteproxy.Translator.Options.{normalize_whitespace}
use sqliteproxy.Translator.Rows.{translate_dml, translate_verb}
use sqliteproxy.Translator.Tables.{translate_ddl, translate_definition}
use sqliteproxy.Translator.Translate.{rewrite, translate}
use sqliteproxy.Translator.Types.{TypeMap}
use sqliteproxy.Translator.Unchanged.{
  LacksAll, LacksOne, translate_functions-lacks, translate_select-lacks, translate_insert-lacks,
  translate_update-lacks, translate_delete-lacks, introducers-lacks,
}

abbrev pub row_verbs : List String
row_verbs = "SELECT" ∷ "INSERT" ∷ "UPDATE" ∷ "DELETE" ∷ []

-- The notations that the translator looks for in any statement on rows.
abbrev pub notations : List String
notations =
    "(" ∷ "TRUE" ∷ "FALSE" ∷ "INDEX" ∷ "DUPLICATE" ∷ "LOW_PRIORITY" ∷ "QUICK" ∷ "IGNORE" ∷ []

abbrev pub IsPlain : Text → Type 0
IsPlain sql =
    LacksAll notations sql
    × LacksOne "LIMIT" "," sql
    × LacksOne "_" "'" sql
    × All (λ c. c ≢ backslash) sql

prefix-split : (p s : Text) → has_prefix p s ≡ true → (r : Text) × (s ≡ p ++ r)
unfolding has_prefix
prefix-split [] s h = (s, refl)
prefix-split (c ∷ p) [] h = absurd (ground (arith, h))
prefix-split (c ∷ p) (d ∷ s) h =
    let same : c ≡ d = ground (arith, h) in
    let (r, e) = prefix-split p s (ground (arith, h)) in
    (r, ap (λ x. x ∷ s) (sym same) ∙ ap (λ x. c ∷ x) e)

-- One of the four verbs begins the statement.
abbrev pub Begins : Text → String → Type 0
Begins upper v = (r : Text) × (upper ≡ codes v ++ r)

abbrev pub Verb : Text → Type 0
Verb upper =
    Begins upper "SELECT"
    ⊎ (Begins upper "INSERT" ⊎ (Begins upper "UPDATE" ⊎ Begins upper "DELETE"))

pub Verb-cases : (upper : Text) → starts_with_one upper row_verbs ≡ true → Verb upper
Verb-cases upper h = elim (Bool-cases (has_prefix (codes "SELECT") upper)) [
  | inl a ↦ inl (prefix-split (codes "SELECT") upper a)
  | inr a ↦ elim (Bool-cases (has_prefix (codes "INSERT") upper)) [
    | inl b ↦ inr (inl (prefix-split (codes "INSERT") upper b))
    | inr b ↦ elim (Bool-cases (has_prefix (codes "UPDATE") upper)) [
      | inl c ↦ inr (inr (inl (prefix-split (codes "UPDATE") upper c)))
      | inr c ↦ inr (inr (inr (prefix-split (codes "DELETE") upper (ground (arith, h, a, b, c)))))
    ]
  ]
]

module _ (sql : Text) where
  dml-plain : Verb (to_upper sql) → IsPlain sql → translate_dml sql ≡ sql
  unfolding translate_dml translate_verb has_prefix
  dml-plain (inl (r, e)) ((p, (t, (f, (i, (d, l))))), pair, _, _) =
      ap (translate_verb sql) e ∙ translate_select-lacks sql pair (t, (f, (i, tt)))
  dml-plain (inr (inl (r, e))) ((p, (t, (f, (i, (d, l))))), _, _, _) =
      ap (translate_verb sql) e ∙ translate_insert-lacks sql d
  dml-plain (inr (inr (inl (r, e)))) ((p, (t, (f, (i, (d, (l, (q, (g, _)))))))), _, _, _) =
      ap (translate_verb sql) e ∙ translate_update-lacks sql (l, (g, (i, tt)))
  dml-plain (inr (inr (inr (r, e)))) ((p, (t, (f, (i, (d, (l, (q, (g, _)))))))), _, _, _) =
      ap (translate_verb sql) e ∙ translate_delete-lacks sql (l, (q, (g, tt)))

  ddl-plain : (order : TypeMap) → Verb (to_upper sql) → translate_ddl order sql ≡ sql
  unfolding translate_ddl translate_definition has_prefix
  ddl-plain order (inl (r, e)) = ap (translate_definition order sql) e
  ddl-plain order (inr (inl (r, e))) = ap (translate_definition order sql) e
  ddl-plain order (inr (inr (inl (r, e)))) = ap (translate_definition order sql) e
  ddl-plain order (inr (inr (inr (r, e)))) = ap (translate_definition order sql) e

  abbrev Unanswered : Text → Type 0
  Unanswered upper =
      contains (codes "SET TRANSACTION") upper ≡ false → answer_command sql upper ≡ none

  unanswered : (upper : Text) → Verb upper → Unanswered upper
  unfolding answer_command settings_and_transactions translate_transaction has_prefix text_eq
  unanswered upper (inl (r, e)) = subst Unanswered (sym e) (λ c. rw c refl)
  unanswered upper (inr (inl (r, e))) = subst Unanswered (sym e) (λ c. rw c refl)
  unanswered upper (inr (inr (inl (r, e)))) = subst Unanswered (sym e) (λ c. rw c refl)
  unanswered upper (inr (inr (inr (r, e)))) = subst Unanswered (sym e) (λ c. rw c refl)

  pub rewrite-plain :
      (order : TypeMap) → Verb (to_upper sql) → IsPlain sql → rewrite order sql ≡ sql
  unfolding rewrite
  rewrite-plain order v plain =
      rw
        (
          ddl-plain order v,
          dml-plain v plain,
          translate_functions-lacks sql plain.0.0,
          introducers-lacks sql plain.2,
          translate_string_escapes_same sql plain.3,
        )
        refl

not_empty : (sql : Text) → Verb (to_upper sql) → is_empty sql ≡ false
unfolding to_upper
not_empty (c ∷ s) v = refl
not_empty [] (inl (r, e)) = absurd (ground (arith, e))
not_empty [] (inr (inl (r, e))) = absurd (ground (arith, e))
not_empty [] (inr (inr (inl (r, e)))) = absurd (ground (arith, e))
not_empty [] (inr (inr (inr (r, e)))) = absurd (ground (arith, e))

trimmed : (sql : Text) → normalize_whitespace sql ≡ sql → trim_space sql ≡ sql
unfolding normalize_whitespace
trimmed sql h =
    ap trim_space (sym h) ∙ trim_space_twice (replace_all (some_of blank) (λ _. codes " ") sql) ∙ h

unchanging :
    (sql : Text)
    → lacks (codes "SET TRANSACTION") sql ≡ true
    → contains (codes "SET TRANSACTION") (to_upper sql) ≡ false
unfolding to_upper to_upper_byte
unchanging sql l = ground (arith, l)

-- A statement that begins with SELECT, INSERT, UPDATE or DELETE, has single blanks and none at its ends
-- (`normalizeWhitespace` leaves it as it is), and nowhere has, in any case, an opening parenthesis, TRUE,
-- FALSE, INDEX, DUPLICATE, LOW_PRIORITY, QUICK, IGNORE or SET TRANSACTION, nor a backslash, nor LIMIT
-- together with a comma, nor an underscore together with a quote, is what `Translate` returns for it,
-- in whatever order the type map is visited; names in backticks stay as they are.
pub translate-plain :
    (order : TypeMap) (sql : Text)
    → starts_with_one (to_upper sql) row_verbs ≡ true
    → IsPlain sql
    → lacks (codes "SET TRANSACTION") sql ≡ true
    → normalize_whitespace sql ≡ sql
    → translate order sql ≡ sql
unfolding translate handle_special_commands
translate-plain order sql h plain l n =
    let v = Verb-cases (to_upper sql) h in
    rw
      (
        trimmed sql n,
        not_empty sql v,
        n,
        unanswered sql (to_upper sql) v (unchanging sql l),
        rewrite-plain sql order v plain,
      )
      refl
