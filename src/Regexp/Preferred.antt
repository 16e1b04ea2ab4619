-- ===== src/Regexp/Preferred.antt =====
-- Go's package `regexp`: what the preferred match is, from what the matches are.
use sqliteproxy.Base.{
  ℕ, suc, [], ◌∷◌, ◌++◌, List, Text, Option, none, some, inl, ◌≡◌, ◌≢◌, refl, sym, ap, ◌∙◌, length,
  take, In, ◌-◌,
}
use sqliteproxy.Regexp.{Regex, Groups, Place, runs}
use sqliteproxy.Regexp.Relation.{Matches, runs_sound, runs_complete}
use sqliteproxy.Regexp.Replace.{place, preferred, match_here, scan, write, find_all, find_submatch}

preferred-all :
    (s : Text) (n : ℕ) (ps : List Place) (q : Place)
    → In q ps
    → ((p : Place) → In p ps → length s - length p.rest ≡ n)
    → (gs : Groups) × (preferred s ps ≡ some (n, gs))
preferred-all s n [] q i h = absurd i
preferred-all s n (p ∷ ps) q i h = (
  (0, take (length s - length p.rest) s) ∷ p.groups,
  ap (λ m. some (m, (0, take (length s - length p.rest) s) ∷ p.groups)) (h p (inl refl)),
)

-- If there is a match and every match takes `n` bytes, the preferred one does.
pub match_here-some :
    (e : Regex) (before : Option ℕ) (s : Text) (n : ℕ) (q : Place)
    → Matches e (place before s) q
    → ((p : Place) → Matches e (place before s) p → length s - length p.rest ≡ n)
    → (gs : Groups) × (match_here e before s ≡ some (n, gs))
unfolding match_here
match_here-some e before s n q d h =
    preferred-all s n (runs e (place before s)) q (runs_complete e _ q d)
      (λ p i. h p (runs_sound e _ p i))

-- The byte in front of what follows `u`.
abbrev pub after : Option ℕ → Text → Option ℕ
after before [] = before
after before (c ∷ u) = after (some c) u

pub scan-skip :
    (e : Regex) (u s : Text) (before : Option ℕ)
    → scan e (length u) before (u ++ s) ≡ scan e 0 (after before u) s
unfolding scan
scan-skip e [] s before = refl
scan-skip e (c ∷ u) s before = scan-skip e u s (some c)

-- What is written for the text from a position on.
module _ (e : Regex) (f : Groups → Text) where
  unfoldable pub written : Option ℕ → Text → Text
  unfolding scan write
  written before s = write f (scan e 0 before s)

  pub written-kept :
      (before : Option ℕ) (c : ℕ) (s : Text)
      → match_here e before (c ∷ s) ≡ none
      → written before (c ∷ s) ≡ c ∷ written (some c) s
  unfolding written scan write
  written-kept before c s h = rw (h, scan, write) refl

  pub written-hit :
      (before : Option ℕ) (c : ℕ) (u s : Text) (gs : Groups)
      → match_here e before (c ∷ (u ++ s)) ≡ some (suc (length u), gs)
      → written before (c ∷ (u ++ s)) ≡ f gs ++ written (after (some c) u) s
  unfolding written scan write
  written-hit before c u s gs h =
      rw (h, scan, write) (ap (λ x. f gs ++ write f x) (scan-skip e u s (some c)))

  pub written-match :
      (before : Option ℕ) (t u s : Text) (gs : Groups)
      → t ≡ u ++ s
      → u ≢ []
      → match_here e before t ≡ some (length u, gs)
      → written before t ≡ f gs ++ written (after before u) s
  written-match before t [] s gs h n m = absurd (n refl)
  written-match before t (c ∷ u) s gs h n m =
      ap (written before) h ∙ written-hit before c u s gs (ap (match_here e before) (sym h) ∙ m)

  -- No match begins in the first part of the text.
  abbrev pub Misses : Option ℕ → Text → Text → Type 0
  Misses before [] s = Unit
  Misses before (c ∷ u) s = (match_here e before (c ∷ (u ++ s)) ≡ none) × Misses (some c) u s

  pub written-Misses :
      (before : Option ℕ) (u s : Text)
      → Misses before u s
      → written before (u ++ s) ≡ u ++ written (after before u) s
  written-Misses before [] s h = refl
  written-Misses before (c ∷ u) s h =
      written-kept before c (u ++ s) h.0 ∙ ap (λ x. c ∷ x) (written-Misses (some c) u s h.1)

-- A match at the beginning of the text is the first one.
find_submatch-here :
    (e : Regex) (c : ℕ) (s : Text) (n : ℕ) (gs : Groups)
    → match_here e none (c ∷ s) ≡ some (suc n, gs)
    → find_submatch e (c ∷ s) ≡ some gs
unfolding find_submatch find_all scan
find_submatch-here e c s n gs h = rw (h, scan) refl

pub find_submatch-all :
    (e : Regex) (t : Text) (gs : Groups)
    → t ≢ []
    → match_here e none t ≡ some (length t, gs)
    → find_submatch e t ≡ some gs
find_submatch-all e [] gs n h = absurd (n refl)
find_submatch-all e (c ∷ s) gs n h = find_submatch-here e c s (length s) gs h
