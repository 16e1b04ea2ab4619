-- ===== src/Translator/Tables/Modify.antt =====
-- translator/translator.go, `translateAlterTable`: ALTER TABLE … MODIFY COLUMN and its marker.
use sqliteproxy.Base.{
  ℕ, Bool, true, false, [], ◌∷◌, ◌++◌, List, Text, String, codes, to_upper, to_upper_byte, none,
  some, Option, All, append-nil, ◌≡◌, ◌≢◌, refl, sym, ap, ◌∙◌, subst, arith,
}
use sqliteproxy.Regexp.{
  Regex, Groups, runs, take_byte, each, is_blank, is_word, word, some_of, many, byte, text_end,
  text_of, Place, blank, group, all_of, chain, folds,
}
use sqliteproxy.Regexp.Leading.{
  at, Leads, Leads-text, Leads-some, Leads-many, Leads-group, Leads-chain, Leads-empty, Leads-first,
  Leads-second, Leads-start, Leads-end, Stops, Taken, Stops-some, match_here-Leads,
}
use sqliteproxy.Regexp.Preferred.{after, find_submatch-all}
use sqliteproxy.Regexp.Replace.{place}
use sqliteproxy.Regexp.Replacement.{IsWord-fold}
use sqliteproxy.Server.Handler.Marker.{reconstruct_marker}
use sqliteproxy.Translator.Tables.{
  in_line, name_at, modify_column, marker_of, translate_alter_table,
}

abbrev pub IsName : Text → Type 0
IsName t = (t ≢ []) × Taken is_word t

-- A name, between backquotes or without them, and what follows it.
abbrev pub name_then : Bool → Text → Text → Text
name_then true t s = b'`' ∷ (t ++ (b'`' ∷ s))
name_then false t s = t ++ s

word-blank : (c : ℕ) → is_word c ≡ true → is_blank c ≡ false
unfolding is_blank is_word
word-blank c h = ground (arith, h)

word-backquote : (c : ℕ) → is_word c ≡ true → folds b'`' c ≡ false
unfolding is_word to_upper_byte
word-backquote c h = ground (arith, h)

no_backquote :
    (before : Option ℕ) (s : Text) (gs : Groups)
    → Stops (folds b'`') s
    → runs (word "`") (at before s gs) ≡ []
unfolding runs take_byte each
no_backquote before [] gs h = refl
no_backquote before (c ∷ s) gs h = rw h refl

abbrev name_end : Bool → Option ℕ → Text → Option ℕ
name_end true before t = some b'`'
name_end false before t = after before t

backquote-word : is_word b'`' ≡ false
unfolding is_word
backquote-word = refl

name-Leads :
    (k : ℕ) (b : Bool) (t s : Text) (before : Option ℕ) (gs : Groups)
    → IsName t
    → Stops is_word s
    → Stops (folds b'`') s
    → Leads (name_at k) (at before (name_then b t s) gs) (at (name_end b before t) s ((k, t) ∷ gs))
name-Leads k true t s before gs w n m =
    Leads-chain (Leads-first (Leads-text (codes "`") (codes "`") (t ++ (b'`' ∷ s)) before gs refl))
      (Leads-chain
        (Leads-group k t (b'`' ∷ s) _ _ gs gs
          (Leads-some is_word t (b'`' ∷ s) _ gs w.0 w.1 backquote-word))
        (Leads-chain (Leads-first (Leads-text (codes "`") (codes "`") s _ _ refl)) (Leads-empty _)))
name-Leads k false t s before gs w n m =
    Leads-chain
      (Leads-second
        (no_backquote before (t ++ s) gs
          (Stops-some (folds b'`') is_word word-backquote t s w.0 w.1))
        (Leads-empty _))
      (Leads-chain (Leads-group k t s _ _ gs gs (Leads-some is_word t s _ gs w.0 w.1 n)) (
        Leads-chain (Leads-second (no_backquote (after before t) s _ m) (Leads-empty _))
          (Leads-empty _)))

-- The statement: its keywords, the names with or without backquotes, and the new definition.
pub record Modification : Type 0 where
  pub alter : Text
  pub table : Text
  pub table_quoted : Bool
  pub table_name : Text
  pub modify : Text
  pub column : Text
  pub column_quoted : Bool
  pub column_name : Text
  pub definition : Text

abbrev pub modification_text : Modification → Text
modification_text m =
    m.alter
    ++ (codes " "
        ++ (m.table
            ++ (codes " "
                ++ name_then m.table_quoted m.table_name (
                    codes " "
                    ++ (m.modify
                        ++ (codes " "
                            ++ (m.column
                                ++ (codes " "
                                    ++ name_then m.column_quoted m.column_name
                                        (codes " " ++ m.definition)))))))))

-- The keywords in any case, names of word bytes, a definition on one line that begins with no blank.
pub record IsModification (m : Modification) : Type 0 where
  pub is_alter : to_upper m.alter ≡ codes "ALTER"
  pub is_table : to_upper m.table ≡ codes "TABLE"
  pub is_modify : to_upper m.modify ≡ codes "MODIFY"
  pub is_column : to_upper m.column ≡ codes "COLUMN"
  pub is_table_name : IsName m.table_name
  pub is_column_name : IsName m.column_name
  pub is_line : Taken in_line m.definition
  pub no_blank : Stops is_blank m.definition

no_empty : (t : Text) → t ≢ [] → to_upper t ≡ to_upper [] → ⊥
unfolding to_upper
no_empty [] n e = n refl
no_empty (c ∷ t) n e = ground (arith, e)

append_some : (u s : Text) → u ≢ [] → u ++ s ≢ []
append_some [] s n = absurd (n refl)
append_some (c ∷ u) s n = λ e. ground (arith, e)

keyword-Stops : (t u s : Text) → IsName t → to_upper t ≡ to_upper u → Stops is_blank (u ++ s)
keyword-Stops t [] s w e = absurd (no_empty t w.0 e)
keyword-Stops t (c ∷ u) s w e = word-blank c (IsWord-fold t (c ∷ u) e w.1).0

name-Stops : (b : Bool) (t s : Text) → IsName t → Stops is_blank (name_then b t s)
unfolding is_blank
name-Stops true t s w = refl
name-Stops false t s w = Stops-some is_blank is_word word-blank t s w.0 w.1

blank-word : is_word b' ' ≡ false
unfolding is_word
blank-word = refl

blank-backquote : folds b'`' b' ' ≡ false
unfolding to_upper_byte
blank-backquote = refl

one_blank : Taken is_blank (codes " ")
unfolding is_blank
one_blank = (refl, tt)

gap-Leads :
    (s : Text) (before : Option ℕ) (gs : Groups)
    → Stops is_blank s
    → Leads (some_of blank) (at before (codes " " ++ s) gs) (at (some b' ') s gs)
gap-Leads s before gs n =
    Leads-some is_blank (codes " ") s before gs (λ e. ground (arith, e)) one_blank n

-- A blank and a keyword, and then the rest of the expression.
keyword-Leads :
    (t u s : Text) (before : Option ℕ) (gs : Groups) (rest : Regex) (r : Place)
    → IsName t
    → to_upper u ≡ t
    → to_upper t ≡ t
    → Leads rest (at (after (some b' ') u) s gs) r
    → Leads
        (chain (some_of blank) (chain (text_of t) rest))
        (at before (codes " " ++ (u ++ s)) gs)
        r
keyword-Leads t u s before gs rest r w e f d =
    Leads-chain (gap-Leads (u ++ s) before gs (keyword-Stops t u s w (f ∙ sym e)))
      (Leads-chain (Leads-text t u s (some b' ') gs (f ∙ sym e)) d)

gap_name-Leads :
    (k : ℕ) (b : Bool) (t s : Text) (before : Option ℕ) (gs : Groups) (rest : Regex) (r : Place)
    → IsName t
    → Leads rest (at (name_end b (some b' ') t) (codes " " ++ s) ((k, t) ∷ gs)) r
    → Leads
        (chain (some_of blank) (chain (name_at k) rest))
        (at before (codes " " ++ name_then b t (codes " " ++ s)) gs)
        r
gap_name-Leads k b t s before gs rest r w d =
    Leads-chain (gap-Leads _ before gs (name-Stops b t (codes " " ++ s) w)) (
      Leads-chain (name-Leads k b t (codes " " ++ s) (some b' ') gs w blank-word blank-backquote) d)

definition-Leads :
    (t : Text) (before : Option ℕ) (gs : Groups)
    → Taken in_line t
    → Stops is_blank t
    → Leads
        (all_of (some_of blank ∷ group 3 (many (byte in_line)) ∷ text_end ∷ []))
        (at before (codes " " ++ t) gs)
        (at (after (some b' ') t) [] ((3, t) ∷ gs))
definition-Leads t before gs l n =
    let many-Leads =
      subst
        (λ x.
          Leads (group 3 (many (byte in_line))) (at (some b' ') x gs)
            (at (after (some b' ') t) [] ((3, t) ∷ gs)))
        (append-nil t)
        (Leads-group 3 t [] (some b' ') _ gs gs (Leads-many in_line t [] (some b' ') gs l tt)) in
    Leads-chain (gap-Leads t before gs n)
      (Leads-chain many-Leads (Leads-chain (Leads-end _ _) (Leads-empty _)))

abbrev keywords : List String
keywords = "ALTER" ∷ "TABLE" ∷ "MODIFY" ∷ "COLUMN" ∷ []

abbrev IsKeyword : String → Type 0
IsKeyword k = IsName (codes k) × (to_upper (codes k) ≡ codes k)

names : All IsKeyword keywords
unfolding to_upper to_upper_byte is_word
names = (
  (((λ e. ground (arith, e)), (refl, (refl, (refl, (refl, (refl, tt)))))), refl),
  (
    (((λ e. ground (arith, e)), (refl, (refl, (refl, (refl, (refl, tt)))))), refl),
    (
      (((λ e. ground (arith, e)), (refl, (refl, (refl, (refl, (refl, (refl, tt))))))), refl),
      ((((λ e. ground (arith, e)), (refl, (refl, (refl, (refl, (refl, (refl, tt))))))), refl), tt),
    ),
  ),
)

module _ (m : Modification) (w : IsModification m) where
  abbrev found : Groups
  found = (3, m.definition) ∷ (2, m.column_name) ∷ (1, m.table_name) ∷ []

  modify-Leads :
      Leads modify_column
        (place none (modification_text m))
        (at (after (some b' ') m.definition) [] found)
  modify-Leads =
      let (a, (t, (y, (c, _)))) = names in
      Leads-chain (Leads-start _ []) (
        Leads-chain (Leads-text (codes "ALTER") m.alter _ none [] (a.1 ∙ sym w.is_alter)) (
          keyword-Leads (codes "TABLE") m.table _ _ _ _ _ t.0 w.is_table t.1 (
            gap_name-Leads 1 m.table_quoted m.table_name _ _ _ _ _ w.is_table_name (
              keyword-Leads (codes "MODIFY") m.modify _ _ _ _ _ y.0 w.is_modify y.1 (
                keyword-Leads (codes "COLUMN") m.column _ _ _ _ _ c.0 w.is_column c.1 (
                  gap_name-Leads 2 m.column_quoted m.column_name _ _ _ _ _ w.is_column_name
                    (definition-Leads m.definition _ _ w.is_line w.no_blank)))))))

  text_some : modification_text m ≢ []
  text_some =
      append_some m.alter _
        (λ e. no_empty (codes "ALTER") names.0.0.0 (names.0.1 ∙ sym w.is_alter ∙ ap to_upper e))

  -- For ALTER TABLE … MODIFY COLUMN with keywords in any case, single blanks, names of letters, digits
  -- and underscores with or without backquotes, and a definition on one line that does not begin with
  -- a blank, `translateAlterTable` writes the marker of the handler with the two names, without their
  -- backquotes, and the definition.
  pub translate_alter_table-marker :
      translate_alter_table (modification_text m)
      ≡ reconstruct_marker m.table_name m.column_name m.definition
  unfolding translate_alter_table reconstruct_marker
  translate_alter_table-marker = ap (marker_of (modification_text m)) (
      find_submatch-all modify_column (modification_text m) ((0, modification_text m) ∷ found)
        text_some
        (match_here-Leads modify_column none _ (modification_text m) (modification_text m) [] found
          (sym (append-nil (modification_text m))) modify-Leads))
