-- ===== src/Base/Trim.antt =====
-- Lemmas on trimming a text.
use Prim.Native.Nat.{ℕ, ◌≤◌}
use mathlib.Core.Bool.{Bool, true, false}
use mathlib.Core.List.{[], ◌∷◌, ◌++◌, reverse, reverse-reverse, reverse-append, append-nil}
use mathlib.Core.Logic.{inl, inr}
use mathlib.Core.Path.{◌≡◌, refl, sym, ap, ◌∙◌, subst}
use native.Mathlib.Omega.{arith}
use sqliteproxy.Base.Lists.{length, All, All-append}
use sqliteproxy.Base.Tests.{Bool-cases}
use sqliteproxy.Base.Texts.{Text, trim_left_of, trim_of, trim_space, is_space}

module _ (drops : ℕ → Bool) where
  trim_left_of-cases : (s : Text) → (u : Text) × (s ≡ u ++ trim_left_of drops s)
  unfolding trim_left_of
  trim_left_of-cases [] = ([], refl)
  trim_left_of-cases (c ∷ s) =
      let (u, e) = trim_left_of-cases s in
      elim (Bool-cases (drops c)) [
        | inl h ↦ (c ∷ u, rw (h, trim_left_of) (ap (λ x. c ∷ x) e))
        | inr h ↦ ([], rw (h, trim_left_of) refl)
      ]

  length-trim_left_of : (s : Text) → length (trim_left_of drops s) ≤ length s
  unfolding trim_left_of
  length-trim_left_of [] = omega arith
  length-trim_left_of (c ∷ s) = ground (arith, length-trim_left_of s)

  trim_left_of_twice : (s : Text) → trim_left_of drops (trim_left_of drops s) ≡ trim_left_of drops s
  unfolding trim_left_of
  trim_left_of_twice [] = refl
  trim_left_of_twice (c ∷ s) = ground (arith, trim_left_of_twice s)

  kept : (c : ℕ) (s : Text) → trim_left_of drops (c ∷ s) ≡ c ∷ s → drops c ≡ false
  unfolding trim_left_of
  kept c s h = ground (arith, length-trim_left_of s, ap length h)

  trim_left_of-prefix :
      (s u v : Text) → s ≡ u ++ v → trim_left_of drops s ≡ s → trim_left_of drops u ≡ u
  unfolding trim_left_of
  trim_left_of-prefix s [] v e h = refl
  trim_left_of-prefix s (c ∷ u) v e h =
      rw (kept c (u ++ v) (subst (λ x. trim_left_of drops x ≡ x) e h), trim_left_of) refl

  trim_of_left : (s : Text) → trim_left_of drops (trim_of drops s) ≡ trim_of drops s
  unfolding trim_of
  trim_of_left s =
      let r = reverse (trim_left_of drops s) in
      let (u, e) = trim_left_of-cases r in
      trim_left_of-prefix (trim_left_of drops s) (reverse (trim_left_of drops r)) (reverse u)
        (sym (reverse-reverse _) ∙ ap reverse e ∙ reverse-append u _) (trim_left_of_twice s)

  pub trim_of_twice : (s : Text) → trim_of drops (trim_of drops s) ≡ trim_of drops s
  unfolding trim_of
  trim_of_twice s =
      let r = reverse (trim_left_of drops s) in
      ap (λ x. reverse (trim_left_of drops (reverse x))) (trim_of_left s)
      ∙ ap (λ x. reverse (trim_left_of drops x)) (reverse-reverse (trim_left_of drops r))
      ∙ ap reverse (trim_left_of_twice r)

module _ (drops : ℕ → Bool) where
  abbrev Dropped : Text → Type 0
  Dropped = All (λ c. drops c ≡ true)

  trim_left_of-append :
      (u s : Text) → Dropped u → trim_left_of drops (u ++ s) ≡ trim_left_of drops s
  unfolding trim_left_of
  trim_left_of-append [] s h = refl
  trim_left_of-append (c ∷ u) s h = rw (h.0, trim_left_of) (trim_left_of-append u s h.1)

  trim_left_of-kept : (c : ℕ) (s : Text) → drops c ≡ false → trim_left_of drops (c ∷ s) ≡ c ∷ s
  unfolding trim_left_of
  trim_left_of-kept c s h = rw (h, trim_left_of) refl

  Dropped-reverse : (e : Text) → Dropped e → Dropped (reverse e)
  Dropped-reverse [] h = tt
  Dropped-reverse (c ∷ e) h =
      subst Dropped (sym (reverse-append (c ∷ []) e))
        (All-append _ (reverse e) (c ∷ []) (Dropped-reverse e h.1) (h.0, tt))

  pub trim_of-none : (l : Text) → Dropped l → trim_of drops l ≡ []
  unfolding trim_of trim_left_of
  trim_of-none l h =
      ap (λ x. reverse (trim_left_of drops (reverse x)))
        (ap (trim_left_of drops) (sym (append-nil l)) ∙ trim_left_of-append l [] h)

  -- What is left between two texts that are dropped, if its first and last bytes are not.
  pub trim_of-ends :
      (l : Text) (b : ℕ) (t u : Text) (c : ℕ) (e : Text)
      → Dropped l
      → drops b ≡ false
      → b ∷ t ≡ u ++ (c ∷ [])
      → drops c ≡ false
      → Dropped e
      → trim_of drops (l ++ (b ∷ (t ++ e))) ≡ b ∷ t
  unfolding trim_of
  trim_of-ends l b t u c e hl hb same hc he =
      let back : reverse (b ∷ t) ≡ c ∷ reverse u = ap reverse same ∙ reverse-append u (c ∷ []) in
      ap (λ x. reverse (trim_left_of drops (reverse x)))
        (trim_left_of-append l (b ∷ (t ++ e)) hl ∙ trim_left_of-kept b (t ++ e) hb)
      ∙ ap (λ x. reverse (trim_left_of drops x)) (reverse-append (b ∷ t) e)
      ∙ ap reverse (
          trim_left_of-append (reverse e) (reverse (b ∷ t)) (Dropped-reverse e he)
          ∙ ap (trim_left_of drops) back
          ∙ trim_left_of-kept c (reverse u) hc
          ∙ sym back)
      ∙ reverse-reverse (b ∷ t)

pub trim_space_twice : (s : Text) → trim_space (trim_space s) ≡ trim_space s
unfolding trim_space
trim_space_twice s = trim_of_twice is_space s
