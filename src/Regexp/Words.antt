-- ===== src/Regexp/Words.antt =====
-- Go's package `regexp`: the replacement of one word, as a function of the words of the text.
use sqliteproxy.Base.{
  ℕ, Bool, true, false, [], ◌∷◌, ◌++◌, Text, inl, inr, ◌≡◌, ◌≢◌, refl, sym, ap, ◌∙◌, All,
  append_assoc, append-nil, arith, text_eq, to_upper, Bool-cases, if◌then◌else◌,
}
use sqliteproxy.Regexp.{is_word, word_after}

-- A word is a run of word bytes that is not empty.
abbrev pub spell : (Text → Text) → Text → Text
spell g [] = []
spell g (c ∷ w) = g (c ∷ w)

-- The text with `g` of each of its longest words in place of the word; `w` is the word so far.
unfoldable pub words : (Text → Text) → Text → Text → Text
words g w [] = spell g w
words g w (c ∷ s) = elim (is_word c) [
  | true ↦ words g (w ++ (c ∷ [])) s
  | false ↦ spell g w ++ (c ∷ words g [] s)
]

unfoldable pub map_words : (Text → Text) → Text → Text
unfolding words
map_words g s = words g [] s

abbrev pub eq_fold : Text → Text → Bool
eq_fold s t = text_eq (to_upper s) (to_upper t)

abbrev pub swap : Text → Text → Text → Text
swap old new w = if eq_fold old w then new else w

abbrev pub IsWord : Text → Type 0
IsWord w = All (λ c. is_word c ≡ true) w

module _ (g : Text → Text) (w : Text) (c : ℕ) (s : Text) where
  pub words-word : is_word c ≡ true → words g w (c ∷ s) ≡ words g (w ++ (c ∷ [])) s
  unfolding words
  words-word h = rw (words, h) refl

  pub words-other : is_word c ≡ false → words g w (c ∷ s) ≡ spell g w ++ (c ∷ words g [] s)
  unfolding words
  words-other h = rw (words, h) refl

pub words-run :
    (g : Text → Text) (w u s : Text) → IsWord u → words g w (u ++ s) ≡ words g (w ++ u) s
words-run g w [] s h = ap (λ x. words g x s) (sym (append-nil w))
words-run g w (c ∷ u) s h =
    words-word g w c (u ++ s) h.0
    ∙ words-run g (w ++ (c ∷ [])) u s h.1
    ∙ ap (λ x. words g x s) (append_assoc w (c ∷ []) u)

pub words-end :
    (g : Text → Text) (w s : Text) → word_after s ≡ false → words g w s ≡ spell g w ++ words g [] s
unfolding words
words-end g w [] h = sym (append-nil (spell g w))
words-end g w (c ∷ s) h =
    words-other g w c s h ∙ ap (λ x. spell g w ++ x) (sym (words-other g [] c s h))

-- The words of a text.
pub data Chunks : Text → Type 0 where
  done : Chunks []
  other : {c : ℕ} {s : Text} → is_word c ≡ false → Chunks s → Chunks (c ∷ s)
  run :
      {c : ℕ} (u s : Text)
      → IsWord (c ∷ u)
      → word_after s ≡ false
      → Chunks s
      → Chunks (c ∷ (u ++ s))

longer : (c : ℕ) (s : Text) → is_word c ≡ true → Chunks s → Chunks (c ∷ s)
longer c [] h done = run [] [] (h, tt) refl done
longer c (d ∷ s) h (other n k) = run [] (d ∷ s) (h, tt) n (other n k)
longer c (d ∷ _) h (run u s w n k) = run (d ∷ u) s (h, w) n k

pub chunks : (s : Text) → Chunks s
chunks [] = done
chunks (c ∷ s) = elim (Bool-cases (is_word c)) [
  | inl h ↦ longer c s h (chunks s)
  | inr h ↦ other h (chunks s)
]

words-chunk :
    (f : Text → Text) (w s : Text)
    → IsWord w
    → w ≢ []
    → word_after s ≡ false
    → words f [] (w ++ s) ≡ f w ++ words f [] s
words-chunk f [] s h e n = absurd (e refl)
words-chunk f (c ∷ u) s h e n = words-run f [] (c ∷ u) s h ∙ words-end f (c ∷ u) s n

words-after :
    (g : Text → Text) (s : Text) → word_after s ≡ false → word_after (words g [] s) ≡ false
unfolding words
words-after g [] h = refl
words-after g (c ∷ s) h = ap word_after (words-other g [] c s h) ∙ h

cons_not_empty : (c : ℕ) (u : Text) → c ∷ u ≢ []
cons_not_empty c u e = ground (arith, e)

words-same :
    (f g : Text → Text)
    → ((w : Text) → IsWord w → f w ≡ g w)
    → (s : Text) → Chunks s
    → words f [] s ≡ words g [] s
unfolding words
words-same f g h [] done = refl
words-same f g h (c ∷ s) (other n d) =
    words-other f [] c s n ∙ ap (λ x. c ∷ x) (words-same f g h s d) ∙ sym (words-other g [] c s n)
words-same f g h (c ∷ _) (run u s w n d) =
    words-chunk f (c ∷ u) s w (cons_not_empty c u) n
    ∙ ap (λ x. x ++ words f [] s) (h (c ∷ u) w)
    ∙ ap (λ x. g (c ∷ u) ++ x) (words-same f g h s d)
    ∙ sym (words-chunk g (c ∷ u) s w (cons_not_empty c u) n)

words-twice :
    (f g : Text → Text)
    → ((w : Text) → IsWord w → w ≢ [] → IsWord (g w) × (g w ≢ []))
    → (s : Text) → Chunks s
    → words f [] (words g [] s) ≡ words (λ w. f (g w)) [] s
unfolding words
words-twice f g h [] done = refl
words-twice f g h (c ∷ s) (other n d) =
    ap (words f []) (words-other g [] c s n)
    ∙ words-other f [] c (words g [] s) n
    ∙ ap (λ x. c ∷ x) (words-twice f g h s d)
    ∙ sym (words-other (λ w. f (g w)) [] c s n)
words-twice f g h (c ∷ _) (run u s w n d) =
    let (gw, ge) = h (c ∷ u) w (cons_not_empty c u) in
    ap (words f []) (words-chunk g (c ∷ u) s w (cons_not_empty c u) n)
    ∙ words-chunk f (g (c ∷ u)) (words g [] s) gw ge (words-after g s n)
    ∙ ap (λ x. f (g (c ∷ u)) ++ x) (words-twice f g h s d)
    ∙ sym (words-chunk (λ w. f (g w)) (c ∷ u) s w (cons_not_empty c u) n)

pub map_words-same :
    (f g : Text → Text)
    → ((w : Text) → IsWord w → f w ≡ g w)
    → (s : Text) → map_words f s ≡ map_words g s
unfolding map_words
map_words-same f g h s = words-same f g h s (chunks s)

pub map_words-twice :
    (f g : Text → Text)
    → ((w : Text) → IsWord w → w ≢ [] → IsWord (g w) × (g w ≢ []))
    → (s : Text) → map_words f (map_words g s) ≡ map_words (λ w. f (g w)) s
unfolding map_words
map_words-twice f g h s = words-twice f g h s (chunks s)

abbrev same_word : Text → Text
same_word w = w

words-none : (s : Text) → Chunks s → words same_word [] s ≡ s
unfolding words
words-none [] done = refl
words-none (c ∷ s) (other n d) = words-other same_word [] c s n ∙ ap (λ x. c ∷ x) (words-none s d)
words-none (c ∷ _) (run u s w n d) =
    words-chunk same_word (c ∷ u) s w (cons_not_empty c u) n
    ∙ ap (λ x. c ∷ (u ++ x)) (words-none s d)

pub map_words-none : (s : Text) → map_words (λ w. w) s ≡ s
unfolding map_words
map_words-none s = words-none s (chunks s)
