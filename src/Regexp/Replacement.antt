-- ===== src/Regexp/Replacement.antt =====
-- Go's package `regexp`: replacing `(?i)\bword\b` is replacing that word among the words of the text.
use sqliteproxy.Base.{
  ℕ, suc, true, false, [], ◌∷◌, ◌++◌, Text, Option, none, some, ◌≡◌, refl, sym, ap, ◌∙◌, subst,
  length, length-append, arith, ◌+◌, ◌≢◌, text_eq_iff, to_upper, to_upper_byte,
}
use sqliteproxy.Regexp.{
  Groups, Place, is_word, word_before, word_after, at_boundary, empty, text_of, folds, whole_word,
}
use sqliteproxy.Regexp.Lacking.{match_here-none}
use sqliteproxy.Regexp.Preferred.{match_here-some, after}
use sqliteproxy.Regexp.Relation.{Matches, nothing, takes, follows, edge}
use sqliteproxy.Regexp.Replace.{place, match_here}
use sqliteproxy.Regexp.Words.{eq_fold, IsWord}

-- Folding a byte keeps whether it is a word byte.
folds-is_word : (b c : ℕ) → folds b c ≡ true → is_word b ≡ is_word c
unfolding is_word to_upper_byte
folds-is_word b c h = ground (arith, h)

pub record Taken (t : Text) (p q : Place) : Type 0 where
  pub taken : Text
  pub split : p.rest ≡ taken ++ q.rest
  pub same : to_upper t ≡ to_upper taken
  pub before : q.before ≡ after p.before taken

cong_cons : {x y : ℕ} {s t : Text} → x ≡ y → s ≡ t → x ∷ s ≡ y ∷ t
cong_cons e h = rw (e, h) refl

text_of-Taken : (t : Text) (p q : Place) → Matches (text_of t) p q → Taken t p q
unfolding to_upper
text_of-Taken [] p q nothing = record { taken = []; split = refl; same = refl; before = refl }
text_of-Taken (c ∷ t) p q (follows (takes b s e h) d) =
    let r = text_of-Taken t (record { before = some b; rest = s; groups = p.groups }) q d in
    record {
      taken = b ∷ r.taken;
      split = e ∙ ap (λ x. b ∷ x) r.split;
      same = cong_cons (ground (arith, h)) r.same;
      before = r.before;
    }

abbrev place_after : Text → Text → Place → Place
place_after u s p = record p { before = after p.before u; rest = s }

Taken-text_of :
    (t u s : Text) (p : Place)
    → p.rest ≡ u ++ s
    → to_upper t ≡ to_upper u
    → Matches (text_of t) p (place_after u s p)
unfolding to_upper
Taken-text_of [] [] s p e h = subst (Matches empty p) (ap (λ x. record p { rest = x }) e) nothing
Taken-text_of [] (d ∷ u) s p e h = absurd (ground (arith, h))
Taken-text_of (c ∷ t) [] s p e h = absurd (ground (arith, h))
Taken-text_of (c ∷ t) (d ∷ u) s p e h =
    follows (takes d (u ++ s) e (ground (arith, h)))
      (Taken-text_of t u s _ refl (ground (arith, h)))

pub IsWord-fold : (t u : Text) → to_upper t ≡ to_upper u → IsWord t → IsWord u
unfolding to_upper
IsWord-fold [] [] e h = tt
IsWord-fold [] (d ∷ u) e h = absurd (ground (arith, e))
IsWord-fold (c ∷ t) [] e h = absurd (ground (arith, e))
IsWord-fold (c ∷ t) (d ∷ u) e h =
    (sym (folds-is_word c d (ground (arith, e))) ∙ h.0, IsWord-fold t u (ground (arith, e)) h.1)

length_fold : (t u : Text) → to_upper t ≡ to_upper u → length t ≡ length u
unfolding to_upper
length_fold [] [] e = refl
length_fold [] (d ∷ u) e = absurd (ground (arith, e))
length_fold (c ∷ t) [] e = absurd (ground (arith, e))
length_fold (c ∷ t) (d ∷ u) e = ap suc (length_fold t u (ground (arith, e)))

-- Behind a word stands a word byte.
after-word :
    (before : Option ℕ) (c : ℕ) (u : Text)
    → IsWord (c ∷ u)
    → word_before (after before (c ∷ u)) ≡ true
after-word before c [] h = h.0
after-word before c (d ∷ u) h = after-word (some c) d u h.1

-- A text begins with one longest word.
longest_word :
    (u t r r' : Text)
    → IsWord u
    → IsWord t
    → word_after r ≡ false
    → word_after r' ≡ false
    → u ++ r ≡ t ++ r'
    → u ≡ t
longest_word [] [] r r' hu ht n n' e = refl
longest_word [] (d ∷ t) [] r' hu ht n n' e = absurd (ground (arith, e))
longest_word [] (d ∷ t) (b ∷ r) r' hu ht n n' e =
    let same : b ≡ d = ground (arith, e) in
    absurd (ground (arith, n, subst (λ x. is_word x ≡ true) (sym same) ht.0))
longest_word (c ∷ u) [] r [] hu ht n n' e = absurd (ground (arith, e))
longest_word (c ∷ u) [] r (b ∷ r') hu ht n n' e =
    let same : c ≡ b = ground (arith, e) in
    absurd (ground (arith, n', subst (λ x. is_word x ≡ true) same hu.0))
longest_word (c ∷ u) (d ∷ t) r r' hu ht n n' e =
    let same : c ≡ d = ground (arith, e) in
    cong_cons same (longest_word u t r r' hu.1 ht.1 n n' (ground (arith, e)))

empty_fold : (k : Text) → to_upper k ≡ to_upper [] → k ≡ []
unfolding to_upper
empty_fold [] e = refl
empty_fold (c ∷ k) e = absurd (ground (arith, e))

pub record Whole (k : Text) (p q : Place) : Type 0 where
  pub taken : Taken k p q
  pub opens : at_boundary p ≡ true
  pub closes : at_boundary q ≡ true

pub whole_word-Whole : (k : Text) (p q : Place) → Matches (whole_word k) p q → Whole k p q
whole_word-Whole k p q (follows (edge a) (follows d (edge b))) = record {
  taken = text_of-Taken k p q d;
  opens = a;
  closes = b;
}

module _ (k : Text) (letters : IsWord k) (nonempty : k ≢ []) where
  after_taken :
      (before : Option ℕ) (t : Text) → to_upper k ≡ to_upper t → word_before (after before t) ≡ true
  after_taken before [] e = absurd (nonempty (empty_fold k e))
  after_taken before (d ∷ u) e = after-word before d u (IsWord-fold k (d ∷ u) e letters)

  pub first_taken :
      (c : ℕ) (s t r : Text) → to_upper k ≡ to_upper t → c ∷ s ≡ t ++ r → is_word c ≡ true
  first_taken c s [] r e h = absurd (nonempty (empty_fold k e))
  first_taken c s (d ∷ u) r e h =
      let same : c ≡ d = ground (arith, h) in rw same (IsWord-fold k (d ∷ u) e letters).0

  pub match-word :
      (before : Option ℕ) (c : ℕ) (u r : Text)
      → word_before before ≡ false
      → IsWord (c ∷ u)
      → word_after r ≡ false
      → eq_fold k (c ∷ u) ≡ true
      → (gs : Groups) × (match_here (whole_word k) before (c ∷ (u ++ r))
          ≡ some (suc (length u), gs))
  match-word before c u r b w n e =
      let p = place before (c ∷ (u ++ r)) in
      let same : to_upper k ≡ to_upper (c ∷ u) =
        (text_eq_iff (to_upper k) (to_upper (c ∷ u))).0 e in
      match_here-some (whole_word k) before (c ∷ (u ++ r)) (suc (length u))
        (place_after (c ∷ u) r p)
        (follows (edge (rw (b, w.0) refl)) (
          follows (Taken-text_of k (c ∷ u) r p refl same)
            (edge (rw (after-word before c u w, n) refl))))
        (λ q d.
          let t = (whole_word-Whole k p q d).taken in
          let l : length (c ∷ (u ++ r)) ≡ length t.taken + length q.rest =
            ap length t.split ∙ length-append t.taken q.rest in
          let m : length t.taken ≡ suc (length u) =
            length_fold t.taken (c ∷ u) (sym t.same ∙ same) in
          omega (arith, l, m))

  pub no_match-word :
      (before : Option ℕ) (c : ℕ) (u r : Text)
      → IsWord (c ∷ u)
      → word_after r ≡ false
      → eq_fold k (c ∷ u) ≡ false
      → match_here (whole_word k) before (c ∷ (u ++ r)) ≡ none
  no_match-word before c u r w n e = match_here-none (whole_word k) before (c ∷ (u ++ r)) λ q d.
      let m = whole_word-Whole k (place before (c ∷ (u ++ r))) q d in
      let t = m.taken in
      let before_q : word_before q.before ≡ true =
        ap word_before t.before ∙ after_taken before t.taken t.same in
      let end_q : word_after q.rest ≡ false = ground (arith, m.closes, before_q) in
      let l : c ∷ u ≡ t.taken =
        longest_word (c ∷ u) t.taken r q.rest w (IsWord-fold k t.taken t.same letters) n end_q
          t.split in
      let h : eq_fold k (c ∷ u) ≡ true =
        (text_eq_iff (to_upper k) (to_upper (c ∷ u))).1 (t.same ∙ ap to_upper (sym l)) in
      ground (arith, h, e)
