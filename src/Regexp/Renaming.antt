-- ===== src/Regexp/Renaming.antt =====
-- Go's package `regexp`: `ReplaceAllString` for `(?i)\bword\b` on a whole text, and several such
-- replacements one after the other.
use sqliteproxy.Base.{
  ℕ, true, false, [], ◌∷◌, ◌++◌, Text, Option, none, some, inl, inr, ◌⊎◌, ◌≡◌, refl, sym, ap, ◌∙◌,
  arith, ◌≢◌, Bool-cases, if◌then◌else◌,
}
use sqliteproxy.Regexp.{is_word, word_before, word_after, whole_word}
use sqliteproxy.Regexp.Lacking.{match_here-none}
use sqliteproxy.Regexp.Preferred.{after, written, written-kept, written-hit}
use sqliteproxy.Regexp.Replace.{place, scan, write, replace_all}
use sqliteproxy.Regexp.Replacement.{match-word, no_match-word, first_taken, whole_word-Whole}
use sqliteproxy.Regexp.Words.{
  words, map_words, swap, eq_fold, IsWord, words-other, words-run, words-end, Chunks, done, other,
  run, chunks,
}

module _ (k v : Text) (letters : IsWord k) (nonempty : k ≢ []) where
  abbrev renamed : Option ℕ → Text → Text
  renamed = written (whole_word k) (λ _. v)

  -- Inside a word nothing is replaced.
  renamed-inside :
      (before : Option ℕ) (u s : Text)
      → word_before before ≡ true
      → IsWord u
      → renamed before (u ++ s) ≡ u ++ renamed (after before u) s
  renamed-inside before [] s b h = refl
  renamed-inside before (c ∷ u) s b h =
      written-kept (whole_word k) _ before c (u ++ s) (
        match_here-none (whole_word k) before (c ∷ (u ++ s)) λ q d.
          let o = (whole_word-Whole k (place before (c ∷ (u ++ s))) q d).opens in
          ground (arith, o, b, h.0))
      ∙ ap (λ x. c ∷ x) (renamed-inside (some c) u s h.0 h.1)

  renamed-other :
      (before : Option ℕ) (c : ℕ) (s : Text)
      → is_word c ≡ false
      → renamed before (c ∷ s) ≡ c ∷ renamed (some c) s
  renamed-other before c s h = written-kept (whole_word k) _ before c s (
      match_here-none (whole_word k) before (c ∷ s) λ q d.
        let t = (whole_word-Whole k (place before (c ∷ s)) q d).taken in
        ground (arith, h, first_taken k letters nonempty c s t.taken q.rest t.same t.split))

  renamed-word :
      (before : Option ℕ) (c : ℕ) (u s : Text)
      → IsWord (c ∷ u)
      → word_after s ≡ false
      → word_before before ≡ false
      → renamed before (c ∷ (u ++ s)) ≡ swap k v (c ∷ u) ++ renamed (after (some c) u) s
  renamed-word before c u s w n h = elim (Bool-cases (eq_fold k (c ∷ u))) [
    | inl e ↦
        let (gs, m) = match-word k letters nonempty before c u s h w n e in
        written-hit (whole_word k) _ before c u s gs m
        ∙ ap (λ b. (if b then v else c ∷ u) ++ renamed (after (some c) u) s) (sym e)
    | inr e ↦
        written-kept (whole_word k) _ before c (u ++ s)
          (no_match-word k letters nonempty before c u s w n e)
        ∙ ap (λ x. c ∷ x) (renamed-inside (some c) u s w.0 w.1)
        ∙ ap (λ b. (if b then v else c ∷ u) ++ renamed (after (some c) u) s) (sym e)
  ]

  renamed-words :
      (before : Option ℕ) (s : Text)
      → Chunks s
      → (word_before before ≡ false) ⊎ (word_after s ≡ false)
      → renamed before s ≡ words (swap k v) [] s
  unfolding written scan write words
  renamed-words before [] done h = refl
  renamed-words before (c ∷ s) (other n d) h =
      renamed-other before c s n
      ∙ ap (λ x. c ∷ x) (renamed-words (some c) s d (inl n))
      ∙ sym (words-other (swap k v) [] c s n)
  renamed-words before (c ∷ _) (run u s w n d) (inr h) = absurd (ground (arith, h, w.0))
  renamed-words before (c ∷ _) (run u s w n d) (inl h) =
      renamed-word before c u s w n h
      ∙ ap (λ x. swap k v (c ∷ u) ++ x) (renamed-words (after (some c) u) s d (inr n))
      ∙ sym (words-run (swap k v) [] (c ∷ u) s w ∙ words-end (swap k v) (c ∷ u) s n)

  pub replace_all-words :
      (s : Text) → replace_all (whole_word k) (λ _. v) s ≡ map_words (swap k v) s
  unfolding replace_all map_words written
  replace_all-words s = renamed-words none s (chunks s) (inl refl)
