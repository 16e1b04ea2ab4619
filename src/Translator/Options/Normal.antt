-- ===== src/Translator/Options/Normal.antt =====
-- translator/translator.go, `normalizeWhitespace`: its result.
use sqliteproxy.Base.{
  ℕ, true, false, [], ◌∷◌, ◌++◌, List, Text, codes, inl, inr, All, All-append, append_assoc,
  append-nil, ◌≡◌, ◌≢◌, refl, sym, ap, ◌∙◌, subst, arith, Bool-cases, trim_space, is_space,
  trim_of-none, trim_of-ends,
}
use sqliteproxy.Regexp.{is_blank}
use sqliteproxy.Regexp.Preferred.{written}
use sqliteproxy.Regexp.Replace.{replace_all}
use sqliteproxy.Translator.Options.{normalize_whitespace}
use sqliteproxy.Translator.Options.Blanks.{
  Split, last, next, IsField, Opens, join, blanks_before, collapsed-all, Split-fields, Spaces,
}

-- A text that ends with a byte that is no blank.
record Ends (t : Text) : Type 0 where
  front : Text
  end : ℕ
  same : t ≡ front ++ (end ∷ [])
  solid : is_space end ≡ false

append-Ends : (u t : Text) → Ends t → Ends (u ++ t)
append-Ends u t e = record {
  front = u ++ e.front;
  end = e.end;
  same = ap (λ x. u ++ x) e.same ∙ sym (append_assoc u e.front (e.end ∷ []));
  solid = e.solid;
}

word-Ends : (c : ℕ) (w : Text) → All (λ c. is_space c ≡ false) (c ∷ w) → Ends (c ∷ w)
word-Ends c [] h = record { front = []; end = c; same = refl; solid = h.0 }
word-Ends c (d ∷ w) h = append-Ends (c ∷ []) (d ∷ w) (word-Ends d w h.1)

join-Ends :
    (c : ℕ) (w : Text) (ws : List Text) → All IsField ((c ∷ w) ∷ ws) → Ends (join ((c ∷ w) ∷ ws))
join-Ends c w [] h = subst Ends (sym (append-nil (c ∷ w))) (word-Ends c w h.0.1)
join-Ends c w ([] ∷ ws) h = absurd (h.1.0.0 refl)
join-Ends c w ((d ∷ v) ∷ ws) h =
    append-Ends (c ∷ w) _ (append-Ends (codes " ") _ (join-Ends d v ws h.1))

trim-join :
    (ws : List Text) (l e : Text)
    → All IsField ws
    → Spaces l
    → Spaces e
    → trim_space (l ++ (join ws ++ e)) ≡ join ws
unfolding trim_space
trim-join [] l e h hl he =
    trim_of-none is_space (l ++ e) (All-append (λ c. is_space c ≡ true) l e hl he)
trim-join ([] ∷ ws) l e h hl he = absurd (h.0.0 refl)
trim-join ((c ∷ w) ∷ ws) l e h hl he =
    let d = join-Ends c w ws h in
    trim_of-ends is_space l c (w ++ blanks_before ws) d.front d.end e hl h.0.1.0 d.same d.solid he

normalize-Split : (s : Text) (ws : List Text) → Split s ws → normalize_whitespace s ≡ join ws
unfolding normalize_whitespace replace_all written
normalize-Split s ws d =
    let (l, e, hl, he, r) = collapsed-all s ws d in
    ap trim_space r ∙ trim-join ws l e (Split-fields s ws d) hl he

space_blank : (c : ℕ) → is_space c ≡ true → c ≢ 11 → is_blank c ≡ true
unfolding is_space is_blank
space_blank c h n = ground (arith, h, n)

not_empty : (c : ℕ) (w : Text) → c ∷ w ≢ []
not_empty c w e = ground (arith, e)

abbrev Words : Text → Type 0
Words s = (ws : List Text) × Split s ws

one_more : (c : ℕ) (s : Text) (ws : List Text) → is_space c ≡ false → Split s ws → Words (c ∷ s)
one_more c s _ n (last [] h) =
    ((c ∷ []) ∷ [], next [] (c ∷ []) [] tt (not_empty c [], (n, tt)) tt (last [] tt))
one_more c s _ n (last (b ∷ g) h) =
    ((c ∷ []) ∷ [], next [] (c ∷ []) (b ∷ g) tt (not_empty c [], (n, tt)) h.0 (last (b ∷ g) h))
one_more c _ (w ∷ ws) n (next [] v s h f o d) =
    ((c ∷ w) ∷ ws, next [] (c ∷ v) s tt (not_empty c v, (n, f.1)) o d)
one_more c _ (w ∷ ws) n (next (b ∷ g) v s h f o d) = (
  (c ∷ []) ∷ (w ∷ ws),
  next [] (c ∷ []) ((b ∷ g) ++ (v ++ s)) tt (not_empty c [], (n, tt)) h.0
      (next (b ∷ g) v s h f o d),
)

one_blank : (c : ℕ) (s : Text) (ws : List Text) → is_blank c ≡ true → Split s ws → Words (c ∷ s)
one_blank c s _ n (last g h) = ([], last (c ∷ g) (n, h))
one_blank c _ (w ∷ ws) n (next g v s h f o d) = (w ∷ ws, next (c ∷ g) v s (n, h) f o d)

words : (s : Text) → All (λ c. c ≢ 11) s → Words s
words [] h = ([], last [] tt)
words (c ∷ s) h =
    let (ws, d) = words s h.1 in
    elim (Bool-cases (is_space c)) [
      | inl n ↦ one_blank c s ws (space_blank c n h.0) d
      | inr n ↦ one_more c s ws n d
    ]

-- A text without vertical tabs consists of words with blanks between them, and `normalizeWhitespace`
-- makes of it these words with one blank between two of them and none at the ends.
pub normalize_whitespace-join :
    (sql : Text)
    → All (λ c. c ≢ 11) sql
    → (ws : List Text) × Split sql ws × (normalize_whitespace sql ≡ join ws)
normalize_whitespace-join sql h = let (ws, d) = words sql h in (ws, d, normalize-Split sql ws d)

Opens-blank : (ws : List Text) → Opens (blanks_before ws)
unfolding is_blank
Opens-blank [] = tt
Opens-blank (w ∷ ws) = refl

rest-Split : (ws : List Text) → All IsField ws → Split (blanks_before ws) ws
rest-Split [] h = last [] tt
rest-Split (w ∷ ws) h =
    next (codes " ") w (blanks_before ws) (Opens-blank (w ∷ ws), tt) h.0 (Opens-blank ws)
      (rest-Split ws h.1)

join-Split : (ws : List Text) → All IsField ws → Split (join ws) ws
join-Split [] h = last [] tt
join-Split (w ∷ ws) h = next [] w (blanks_before ws) tt h.0 (Opens-blank ws) (rest-Split ws h.1)

-- To normalise twice is to normalise once.
pub normalize_whitespace_twice :
    (sql : Text)
    → All (λ c. c ≢ 11) sql
    → normalize_whitespace (normalize_whitespace sql) ≡ normalize_whitespace sql
normalize_whitespace_twice sql h =
    let (ws, d, e) = normalize_whitespace-join sql h in
    ap normalize_whitespace e
    ∙ normalize-Split (join ws) ws (join-Split ws (Split-fields sql ws d))
    ∙ sym e
