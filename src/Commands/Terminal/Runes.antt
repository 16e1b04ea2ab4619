-- ===== src/Commands/Terminal/Runes.antt =====
-- `utf8.RuneCountInString`, with which fmt measures a padded text: a byte that starts no valid sequence
-- counts as one rune.
use sqliteproxy.Base.{
  ℕ, zero, suc, ◌+◌, ◌≤◌, ◌<◌, ◌≡◌, refl, ap, ◌∙◌, Bool, true, false, ◌&&◌, Text, List, [], ◌∷◌,
  ◌++◌, length, All, ltb, leb, ◌==◌, if◌then◌else◌, arith,
}

-- Whether the text starts with bytes of the ranges.
unfoldable pub starts_in : List (ℕ × ℕ) → Text → Bool
starts_in [] s = true
starts_in (r ∷ rs) [] = false
starts_in (r ∷ rs) (c ∷ s) = leb r.0 c && leb c r.1 && starts_in rs s

abbrev continuation : ℕ × ℕ
continuation = (128, 191)

-- The ranges of the bytes that follow a first byte.
unfoldable pub accepted : ℕ → List (ℕ × ℕ)
accepted c =
    if ltb c 194
    then []
    else if ltb c 224
    then continuation ∷ []
    else if c == 224
    then (160, 191) ∷ continuation ∷ []
    else if c == 237
    then (128, 159) ∷ continuation ∷ []
    else if ltb c 240
    then continuation ∷ continuation ∷ []
    else if c == 240
    then (144, 191) ∷ continuation ∷ continuation ∷ []
    else if ltb c 244
    then continuation ∷ continuation ∷ continuation ∷ []
    else if c == 244
    then (128, 143) ∷ continuation ∷ continuation ∷ []
    else []

-- The bytes after the first one that belong to the same rune.
unfoldable pub rune_tail : ℕ → Text → ℕ
unfolding accepted starts_in
rune_tail c s = if starts_in (accepted c) s then length (accepted c) else 0

-- The runes of a text whose first `skipped` bytes belong to a rune that is counted already.
unfoldable pub runes_after : ℕ → Text → ℕ
unfolding rune_tail
runes_after skipped [] = 0
runes_after zero (c ∷ s) = suc (runes_after (rune_tail c s) s)
runes_after (suc skipped) (c ∷ s) = runes_after skipped s

-- `utf8.RuneCountInString`
unfoldable pub rune_count : Text → ℕ
unfolding runes_after
rune_count = runes_after 0

runes_after-length : (n : ℕ) (s : Text) → runes_after n s ≤ length s
unfolding runes_after
runes_after-length n [] = omega arith
runes_after-length zero (c ∷ s) = ground (arith, runes_after-length (rune_tail c s) s)
runes_after-length (suc n) (c ∷ s) = ground (arith, runes_after-length n s)

-- A text has no more runes than bytes.
pub rune_count-length : (s : Text) → rune_count s ≤ length s
unfolding rune_count
rune_count-length s = runes_after-length 0 s

starts_in-length : (rs : List (ℕ × ℕ)) (s : Text) → starts_in rs s ≡ true → length rs ≤ length s
unfolding starts_in
starts_in-length [] s h = omega arith
starts_in-length (r ∷ rs) [] h = cc
starts_in-length (r ∷ rs) (c ∷ s) h = ground (arith, starts_in-length rs s)

rune_tail-length : (c : ℕ) (s : Text) → rune_tail c s ≤ length s
unfolding rune_tail
rune_tail-length c s = ground (arith, starts_in-length (accepted c) s)

abbrev High : ℕ × ℕ → Type 0
High r = 128 ≤ r.0

starts_in-append :
    (rs : List (ℕ × ℕ)) (s : Text) (c : ℕ) (t : Text)
    → All High rs
    → c < 128
    → starts_in rs (s ++ (c ∷ t)) ≡ starts_in rs s
unfolding starts_in
starts_in-append [] s c t h p = refl
starts_in-append (r ∷ rs) [] c t h p = let low = h.0 in ground arith
starts_in-append (r ∷ rs) (d ∷ s) c t h p = rw (starts_in-append rs s c t h.1 p) refl

accepted-High : (c : ℕ) → All High (accepted c)
unfolding accepted
accepted-High c = ground arith

rune_tail-append :
    (b : ℕ) (s : Text) (c : ℕ) (t : Text) → c < 128 → rune_tail b (s ++ (c ∷ t)) ≡ rune_tail b s
unfolding rune_tail
rune_tail-append b s c t p = rw (starts_in-append (accepted b) s c t (accepted-High b) p) refl

runes_after-append :
    (n : ℕ) (s : Text) (c : ℕ) (t : Text)
    → n ≤ length s
    → c < 128
    → runes_after n (s ++ (c ∷ t)) ≡ runes_after n s + runes_after 0 (c ∷ t)
unfolding runes_after
runes_after-append zero [] c t h p = omega arith
runes_after-append (suc n) [] c t h p = omega (arith, h)
runes_after-append zero (b ∷ s) c t h p =
    rw (rune_tail-append b s c t p)
      (omega (arith, runes_after-append (rune_tail b s) s c t (rune_tail-length b s) p))
runes_after-append (suc n) (b ∷ s) c t h p = runes_after-append n s c t (omega (arith, h)) p

rune_tail-ascii : (c : ℕ) (t : Text) → c < 128 → rune_tail c t ≡ 0
unfolding rune_tail accepted starts_in
rune_tail-ascii c t p = ground (arith, p)

-- An ASCII byte starts a rune of its own, after any text.
pub rune_count-append :
    (s : Text) (c : ℕ) (t : Text)
    → c < 128
    → rune_count (s ++ (c ∷ t)) ≡ rune_count s + suc (rune_count t)
unfolding rune_count runes_after
rune_count-append s c t p =
    runes_after-append 0 s c t (omega arith) p
    ∙ ap (λ n. rune_count s + suc (runes_after n t)) (rune_tail-ascii c t p)

pub rune_count-empty : rune_count [] ≡ 0
unfolding rune_count runes_after
rune_count-empty = refl

pub rune_count-ascii : (c : ℕ) (t : Text) → c < 128 → rune_count (c ∷ t) ≡ suc (rune_count t)
rune_count-ascii c t p = omega (arith, rune_count-append [] c t p, rune_count-empty)
