-- ===== src/Translator/Rows/Limit.antt =====
-- translator/translator.go, `translateLimitSyntax`: a statement with MySQL's LIMIT offset, count.
use sqliteproxy.Base.{
  ℕ, true, false, [], ◌∷◌, ◌++◌, Text, codes, concat, has_prefix, contains, to_upper, to_upper_byte,
  none, some, Option, append_assoc, ◌≡◌, ◌≢◌, refl, sym, ap, ◌∙◌, arith,
}
use sqliteproxy.Regexp.{is_blank, is_digit}
use sqliteproxy.Regexp.Lacking.{
  lacks, match_here-literal, scan-lacks, whole_text, left, lacks_tail, to_upper-append,
}
use sqliteproxy.Regexp.Leading.{
  at, Leads, Leads-text, Leads-some, Leads-many, Leads-group, Leads-chain, Leads-empty, Stops,
  Taken, Stops-append, Stops-some, match_here-Leads,
}
use sqliteproxy.Regexp.Preferred.{after, written, written-match, written-Misses, Misses}
use sqliteproxy.Regexp.Replace.{place, replace_all}
use sqliteproxy.Translator.Rows.{limit_pair, count_offset, translate_limit_syntax}

abbrev pub IsNumber : Text → Type 0
IsNumber a = (a ≢ []) × Taken is_digit a

abbrev pub AreBlanks : Text → Type 0
AreBlanks w = Taken is_blank w

-- LIMIT, an offset and a count, with what stands between them.
pub record Pair : Type 0 where
  pub keyword : Text
  pub gap : Text
  pub offset : Text
  pub before_comma : Text
  pub after_comma : Text
  pub count : Text

-- LIMIT in any case, blanks, a number, a comma with blanks or none at each side, a number.
pub record IsPair (p : Pair) : Type 0 where
  pub is_limit : to_upper p.keyword ≡ codes "LIMIT"
  pub some_gap : p.gap ≢ []
  pub blank_gap : AreBlanks p.gap
  pub is_offset : IsNumber p.offset
  pub blank_before : AreBlanks p.before_comma
  pub blank_after : AreBlanks p.after_comma
  pub is_count : IsNumber p.count

abbrev pub pair_then : Pair → Text → Text
pair_then p post =
    p.keyword
    ++ (p.gap
        ++ (p.offset ++ (p.before_comma ++ (codes "," ++ (p.after_comma ++ (p.count ++ post))))))

abbrev pub pair_text : Pair → Text
pair_text p = pair_then p []

digit-blank : (c : ℕ) → is_digit c ≡ true → is_blank c ≡ false
unfolding is_blank
digit-blank c h = ground (arith, h)

blank-digit : (c : ℕ) → is_blank c ≡ true → is_digit c ≡ false
unfolding is_blank
blank-digit c h = ground (arith, h)

comma-digit : is_digit b',' ≡ false
comma-digit = refl

comma-blank : is_blank b',' ≡ false
unfolding is_blank
comma-blank = refl

upper_limit : to_upper (codes "LIMIT") ≡ codes "LIMIT"
unfolding to_upper to_upper_byte
upper_limit = refl

keyword_some : (k r : Text) → to_upper k ≡ codes "LIMIT" → k ++ r ≢ []
unfolding to_upper
keyword_some [] r h = absurd (ground (arith, h))
keyword_some (c ∷ k) r h = λ e. ground (arith, e)

module _ (p : Pair) (w : IsPair p) (post : Text) where
  append_pair : pair_then p post ≡ pair_text p ++ post
  append_pair = simp append_assoc

  limit-Leads :
      (before : Option ℕ)
      → Stops is_digit post
      → Leads limit_pair (place before (pair_then p post)) (
          at
            (after (after (some b',') p.after_comma) p.count)
            post
            ((2, p.count) ∷ (1, p.offset) ∷ []))
  limit-Leads before stop =
      Leads-chain (Leads-text (codes "LIMIT") p.keyword _ before [] (upper_limit ∙ sym w.is_limit))
        (Leads-chain
          (Leads-some is_blank p.gap _ _ [] w.some_gap w.blank_gap
            (Stops-some is_blank is_digit digit-blank p.offset _ w.is_offset.0 w.is_offset.1))
          (Leads-chain
            (Leads-group 1 p.offset _ _ _ [] [] (
              Leads-some is_digit p.offset _ _ [] w.is_offset.0 w.is_offset.1 (
                Stops-append is_digit is_blank blank-digit p.before_comma _ w.blank_before
                  comma-digit)))
            (Leads-chain (Leads-many is_blank p.before_comma _ _ _ w.blank_before comma-blank) (
              Leads-chain (Leads-text (codes ",") (codes ",") _ _ _ refl) (
                Leads-chain
                  (Leads-many is_blank p.after_comma _ _ _ w.blank_after
                    (Stops-some is_blank is_digit digit-blank p.count _ w.is_count.0 w.is_count.1))
                  (Leads-chain
                    (Leads-group 2 p.count _ _ _ _ _
                      (Leads-some is_digit p.count _ _ _ w.is_count.0 w.is_count.1 stop))
                    (Leads-empty _)))))))

  pair_some : pair_text p ≢ []
  pair_some = keyword_some p.keyword _ w.is_limit

  written-pair :
      (before : Option ℕ)
      → Stops is_digit post
      → lacks (codes "LIMIT") post ≡ true
      → written limit_pair count_offset before (pair_then p post)
        ≡ concat (codes "LIMIT " ∷ p.count ∷ codes " OFFSET " ∷ p.offset ∷ []) ++ post
  unfolding written
  written-pair before stop l =
      written-match limit_pair count_offset before (pair_then p post) (pair_text p) post _
        append_pair pair_some
        (match_here-Leads limit_pair before _ (pair_then p post) (pair_text p) post _ append_pair
          (limit-Leads before stop))
      ∙ ap (λ x. concat (codes "LIMIT " ∷ p.count ∷ codes " OFFSET " ∷ p.offset ∷ []) ++ x)
          (scan-lacks (codes "LIMIT") limit_pair (left (whole_text (codes "LIMIT"))) count_offset _
            post l)

-- LIMIT does not overlap itself.
no_overlap :
    (c : ℕ) (s r : Text)
    → contains (codes "LIMIT") (c ∷ s) ≡ false
    → has_prefix (codes "LIMIT") (c ∷ (s ++ (codes "LIMIT" ++ r))) ≡ false
unfolding contains has_prefix
no_overlap c [] r h = ground arith
no_overlap c (d ∷ []) r h = ground arith
no_overlap c (d ∷ e ∷ []) r h = ground arith
no_overlap c (d ∷ e ∷ f ∷ []) r h = ground arith
no_overlap c (d ∷ e ∷ f ∷ g ∷ s) r h = ground (arith, h)

lacks_limit :
    (s : Text) → lacks (codes "LIMIT") s ≡ true → contains (codes "LIMIT") (to_upper s) ≡ false
unfolding to_upper to_upper_byte
lacks_limit s h = ground (arith, h)

no_limit_here :
    (c : ℕ) (s : Text) (p : Pair) (post : Text)
    → IsPair p
    → lacks (codes "LIMIT") (c ∷ s) ≡ true
    → has_prefix (to_upper (codes "LIMIT")) (to_upper (c ∷ (s ++ pair_then p post))) ≡ false
unfolding to_upper to_upper_byte
no_limit_here c s p post w h =
    rw (to_upper-append, to_upper-append, w.is_limit)
      (no_overlap (to_upper_byte c) (to_upper s) _ (lacks_limit (c ∷ s) h))

Misses-limit :
    (before : Option ℕ) (s : Text) (p : Pair) (post : Text)
    → IsPair p
    → lacks (codes "LIMIT") s ≡ true
    → Misses limit_pair count_offset before s (pair_then p post)
Misses-limit before [] p post w h = tt
Misses-limit before (c ∷ s) p post w h = (
  match_here-literal (codes "LIMIT") _ before (c ∷ (s ++ pair_then p post))
      (no_limit_here c s p post w h),
  Misses-limit (some c) s p post w (lacks_tail (codes "LIMIT") c s h),
)

-- In a statement that has LIMIT once, in any case, with a blank or more, and an offset and a count of
-- one digit or more with a comma between them, with blanks or none at its sides, `translateLimitSyntax` writes LIMIT
-- with the count and OFFSET with the offset in its place and leaves the text before and after it; the
-- text after the count must not go on with a digit.
pub translate_limit_syntax-pair :
    (pre : Text) (p : Pair) (post : Text)
    → lacks (codes "LIMIT") pre ≡ true
    → IsPair p
    → Stops is_digit post
    → lacks (codes "LIMIT") post ≡ true
    → translate_limit_syntax (pre ++ pair_then p post)
      ≡ pre ++ (concat (codes "LIMIT " ∷ p.count ∷ codes " OFFSET " ∷ p.offset ∷ []) ++ post)
unfolding translate_limit_syntax replace_all written
translate_limit_syntax-pair pre p post a w stop b =
    written-Misses limit_pair count_offset none pre (pair_then p post)
      (Misses-limit none pre p post w a)
    ∙ ap (λ x. pre ++ x) (written-pair p w post (after none pre) stop b)
