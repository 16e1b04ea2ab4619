-- ===== src/Translator/Options/Blanks.antt =====
-- translator/translator.go, `normalizeWhitespace`: the words of a statement.
use sqliteproxy.Base.{
  ℕ, true, false, [], ◌∷◌, ◌++◌, List, Text, codes, none, some, Option, All, append_assoc,
  append-nil, ◌≡◌, ◌≢◌, refl, sym, ap, ◌∙◌, subst, arith, is_space,
}
use sqliteproxy.Regexp.{is_blank, some_of, blank}
use sqliteproxy.Regexp.Lacking.{match_here-none}
use sqliteproxy.Regexp.Leading.{Leads-some, Stops, Taken, match_here-Leads}
use sqliteproxy.Regexp.Preferred.{after, written, written-match, written-Misses, Misses}
use sqliteproxy.Regexp.Relation.{takes, follows}
use sqliteproxy.Regexp.Replace.{match_here}

-- A word has no blank in it.
abbrev pub IsField : Text → Type 0
IsField w = (w ≢ []) × All (λ c. is_space c ≡ false) w

-- The text is over, or goes on with a blank.
abbrev pub Opens : Text → Type 0
Opens [] = Unit
Opens (c ∷ s) = is_blank c ≡ true

-- The text consists of the words, with blanks between them and perhaps at its ends.
pub data Split : Text → List Text → Type 0 where
  last : (g : Text) → Taken is_blank g → Split g []
  next :
      (g w s : Text) {ws : List Text}
      → Taken is_blank g
      → IsField w
      → Opens s
      → Split s ws
      → Split (g ++ (w ++ s)) (w ∷ ws)

abbrev pub blanks_before : List Text → Text
blanks_before [] = []
blanks_before (w ∷ ws) = codes " " ++ (w ++ blanks_before ws)

-- The words with one blank between two of them.
abbrev pub join : List Text → Text
join [] = []
join (w ∷ ws) = w ++ blanks_before ws

pub blank-space : (c : ℕ) → is_blank c ≡ true → is_space c ≡ true
unfolding is_blank is_space
blank-space c h = ground (arith, h)

space-blank : (c : ℕ) → is_space c ≡ false → is_blank c ≡ false
unfolding is_blank is_space
space-blank c h = ground (arith, h)

abbrev pub collapsed : Option ℕ → Text → Text
collapsed = written (some_of blank) (λ _. codes " ")

no_blank_here :
    (before : Option ℕ) (c : ℕ) (s : Text)
    → is_blank c ≡ false
    → match_here (some_of blank) before (c ∷ s) ≡ none
no_blank_here before c s n = match_here-none (some_of blank) before (c ∷ s) λ q d. elim d [
  | follows (takes b r e h) m ↦
      let same : c ≡ b = ground (arith, e) in
      ground (arith, n, subst (λ x. is_blank x ≡ true) (sym same) h)
]

Misses-word :
    (before : Option ℕ) (w s : Text)
    → All (λ c. is_space c ≡ false) w
    → Misses (some_of blank) (λ _. codes " ") before w s
Misses-word before [] s h = tt
Misses-word before (c ∷ w) s h =
    (no_blank_here before c (w ++ s) (space-blank c h.0), Misses-word (some c) w s h.1)

collapsed-gap :
    (before : Option ℕ) (g s : Text)
    → g ≢ []
    → Taken is_blank g
    → Stops is_blank s
    → collapsed before (g ++ s) ≡ codes " " ++ collapsed (after before g) s
collapsed-gap before g s n h stop =
    written-match (some_of blank) _ before (g ++ s) g s ((0, g) ∷ []) refl n (
      match_here-Leads (some_of blank) before _ (g ++ s) g s [] refl
        (Leads-some is_blank g s before [] n h stop))

collapsed-word :
    (before : Option ℕ) (w s : Text)
    → All (λ c. is_space c ≡ false) w
    → collapsed before (w ++ s) ≡ w ++ collapsed (after before w) s
collapsed-word before w s h = written-Misses (some_of blank) _ before w s (Misses-word before w s h)

field-Stops : (w s : Text) → IsField w → Stops is_blank (w ++ s)
field-Stops [] s h = absurd (h.0 refl)
field-Stops (c ∷ w) s h = space-blank c h.1.0

-- Blanks and a word, where a word or nothing stood before.
collapsed-next :
    (before : Option ℕ) (g w s : Text)
    → g ≢ []
    → Taken is_blank g
    → IsField w
    → collapsed before (g ++ (w ++ s)) ≡ codes " " ++ (w ++ collapsed (after (after before g) w) s)
collapsed-next before g w s n h f =
    collapsed-gap before g (w ++ s) n h (field-Stops w s f)
    ∙ ap (λ x. codes " " ++ x) (collapsed-word (after before g) w s f.1)

abbrev pub Spaces : Text → Type 0
Spaces = All (λ c. is_space c ≡ true)

one_space : Spaces (codes " ")
unfolding is_space
one_space = (refl, tt)

collapsed-last :
    (before : Option ℕ) (g : Text)
    → Taken is_blank g
    → (e : Text) × Spaces e × (collapsed before g ≡ e)
unfolding written
collapsed-last before [] h = ([], tt, refl)
collapsed-last before (c ∷ g) h = (
  codes " ",
  one_space,
  ap (collapsed before) (sym (append-nil (c ∷ g)))
      ∙ collapsed-gap before (c ∷ g) [] (λ e. ground (arith, e)) h tt,
)

collapsed-rest :
    (before : Option ℕ) (s : Text) (ws : List Text)
    → Split s ws
    → Opens s
    → (e : Text) × Spaces e × (collapsed before s ≡ blanks_before ws ++ e)
collapsed-rest before s [] (last g h) o = collapsed-last before g h
collapsed-rest before _ (w ∷ ws) (next [] [] s h f p d) o = absurd (f.0 refl)
collapsed-rest before _ (w ∷ ws) (next [] (c ∷ v) s h f p d) o =
    absurd (ground (arith, o, space-blank c f.1.0))
collapsed-rest before _ (w ∷ ws) (next (b ∷ g) v s h f p d) o =
    let (e, k, r) = collapsed-rest (after (after before (b ∷ g)) v) s ws d p in
    (
      e,
      k,
      collapsed-next before (b ∷ g) v s (λ x. ground (arith, x)) h f
          ∙ ap (λ x. codes " " ++ (v ++ x)) r
          ∙ ap (λ x. codes " " ++ x) (sym (append_assoc v (blanks_before ws) e)),
    )

pub collapsed-all :
    (s : Text) (ws : List Text)
    → Split s ws
    → (l e : Text) × Spaces l × Spaces e × (collapsed none s ≡ l ++ (join ws ++ e))
collapsed-all s [] (last g h) = let (e, k, r) = collapsed-last none g h in ([], e, tt, k, r)
collapsed-all _ (w ∷ ws) (next [] v s h f p d) =
    let (e, k, r) = collapsed-rest (after none v) s ws d p in
    (
      [],
      e,
      tt,
      k,
      collapsed-word none v s f.1 ∙ ap (λ x. v ++ x) r ∙ sym (append_assoc v (blanks_before ws) e),
    )
collapsed-all _ (w ∷ ws) (next (b ∷ g) v s h f p d) =
    let (e, k, r) = collapsed-rest (after (after none (b ∷ g)) v) s ws d p in
    (
      codes " ",
      e,
      one_space,
      k,
      collapsed-next none (b ∷ g) v s (λ x. ground (arith, x)) h f
          ∙ ap (λ x. codes " " ++ (v ++ x)) r
          ∙ ap (λ x. codes " " ++ x) (sym (append_assoc v (blanks_before ws) e)),
    )

pub Split-fields : (s : Text) (ws : List Text) → Split s ws → All IsField ws
Split-fields s [] (last g h) = tt
Split-fields _ (w ∷ ws) (next g v s h f p d) = (f, Split-fields s ws d)
