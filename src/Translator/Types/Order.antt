-- ===== src/Translator/Types/Order.antt =====
-- translator/translator.go, `translateColumnTypes`: the words of the statement, and the order in which
-- the map is visited.
use sqliteproxy.Base.{
  Bool, true, false, not, ◌&&◌, ◌||◌, [], ◌∷◌, Text, codes, Option, none, some, inl, inr, ◌≡◌, ◌≢◌,
  refl, sym, ap, ◌∙◌, subst, In, All, arith, text_eq, text_eq_iff, to_upper, to_upper_byte,
  Bool-cases, if◌then◌else◌, is_empty, is_empty_iff,
}
use sqliteproxy.Regexp.{is_word}
use sqliteproxy.Regexp.Renaming.{replace_all-words}
use sqliteproxy.Regexp.Words.{
  map_words, map_words-none, map_words-same, map_words-twice, swap, eq_fold, IsWord,
}
use sqliteproxy.Translator.Types.{Entry, TypeMap, IsOrder, default_type_map, translate_column_types}

-- The type that the map has for a word, in any case.
unfoldable pub lookup : TypeMap → Text → Option Text
unfolding text_eq to_upper to_upper_byte
lookup [] w = none
lookup ((mysql_type, sqlite_type) ∷ es) w =
    let rest = lookup es w in
    if eq_fold (codes mysql_type) w then some (codes sqlite_type) else rest

abbrev or_same : Text → Option Text → Text
or_same w none = w
or_same w (some t) = t

-- SQLite's type in place of a word that is one of MySQL's types.
unfoldable pub to_sqlite_type : Text → Text
unfolding lookup
to_sqlite_type w = or_same w (lookup default_type_map w)

abbrev is_word_text : Text → Bool
is_word_text [] = true
is_word_text (c ∷ w) = is_word c && is_word_text w

is_word_text-IsWord : (w : Text) → is_word_text w ≡ true → IsWord w
is_word_text-IsWord [] h = tt
is_word_text-IsWord (c ∷ w) h = (ground (arith, h), is_word_text-IsWord w (ground (arith, h)))

abbrev is_some_of : Option Text → Text → Bool
is_some_of none t = false
is_some_of (some s) t = text_eq s t

-- An entry of the map: both types are words, the map has the entry's type for its name, and no other
-- type for the type.
abbrev is_sound : Entry → Bool
is_sound (k, v) =
    is_word_text (codes k)
    && not (is_empty (codes k))
    && is_word_text (codes v)
    && not (is_empty (codes v))
    && is_some_of (lookup default_type_map (codes k)) (codes v)
    && text_eq (to_sqlite_type (codes v)) (codes v)

abbrev all_sound : TypeMap → Bool
all_sound [] = true
all_sound (e ∷ es) = is_sound e && all_sound es

map_sound : all_sound default_type_map ≡ true
unfolding is_word text_eq to_sqlite_type lookup to_upper to_upper_byte
map_sound = refl

sound-In : (e : Entry) (es : TypeMap) → all_sound es ≡ true → In e es → is_sound e ≡ true
sound-In e [] h i = absurd i
sound-In e (x ∷ es) h (inl p) = rw p (ground (arith, h))
sound-In e (x ∷ es) h (inr i) = sound-In e es (ground (arith, h)) i

is_some_of-some : (o : Option Text) (t : Text) → is_some_of o t ≡ true → o ≡ some t
is_some_of-some none t h = absurd (ground (arith, h))
is_some_of-some (some s) t h = ap some ((text_eq_iff s t).0 h)

record Sound (e : Entry) : Type 0 where
  key_word : IsWord (codes e.0)
  key_some : codes e.0 ≢ []
  value_word : IsWord (codes e.1)
  value_some : codes e.1 ≢ []
  named : lookup default_type_map (codes e.0) ≡ some (codes e.1)
  fixed : to_sqlite_type (codes e.1) ≡ codes e.1

entry-Sound : (e : Entry) → In e default_type_map → Sound e
entry-Sound (k, v) i =
    let h = sound-In (k, v) default_type_map map_sound i in
    record {
      key_word = is_word_text-IsWord (codes k) (ground (arith, h));
      key_some = λ e. ground (arith, h, (is_empty_iff (codes k)).1 e);
      value_word = is_word_text-IsWord (codes v) (ground (arith, h));
      value_some = λ e. ground (arith, h, (is_empty_iff (codes v)).1 e);
      named = is_some_of-some (lookup default_type_map (codes k)) (codes v) (ground (arith, h));
      fixed = (text_eq_iff (to_sqlite_type (codes v)) (codes v)).0 (ground (arith, h));
    }

lookup_fold : (es : TypeMap) (v w : Text) → to_upper v ≡ to_upper w → lookup es v ≡ lookup es w
unfolding lookup
lookup_fold [] v w e = refl
lookup_fold ((k, t) ∷ es) v w e = rw (lookup_fold es v w e, e) refl

-- An entry whose name the word is decides what the word becomes.
named-type :
    (e : Entry) (w : Text) → Sound e → eq_fold (codes e.0) w ≡ true → to_sqlite_type w ≡ codes e.1
unfolding to_sqlite_type
named-type e w s h = ap (or_same w) (
    lookup_fold default_type_map w (codes e.0)
      (sym ((text_eq_iff (to_upper (codes e.0)) (to_upper w)).0 h))
    ∙ s.named)

-- What becomes of one word.
abbrev rename : TypeMap → Text → Text
rename [] w = w
rename ((k, v) ∷ es) w = rename es (swap (codes k) (codes v) w)

abbrev names : TypeMap → Text → Bool
names [] w = false
names ((k, v) ∷ es) w = eq_fold (codes k) w || names es w

rename-fixed : (es : TypeMap) (w : Text) → All Sound es → to_sqlite_type w ≡ w → rename es w ≡ w
rename-fixed [] w s h = refl
rename-fixed ((k, v) ∷ es) w s h = elim (Bool-cases (eq_fold (codes k) w)) [
  | inl e ↦
      ap (λ b. rename es (if b then codes v else w)) e
      ∙ ap (rename es) (sym (named-type (k, v) w s.0 e) ∙ h)
      ∙ rename-fixed es w s.1 h
  | inr e ↦ ap (λ b. rename es (if b then codes v else w)) e ∙ rename-fixed es w s.1 h
]

rename-named :
    (es : TypeMap) (w : Text) → All Sound es → names es w ≡ true → rename es w ≡ to_sqlite_type w
rename-named [] w s h = absurd (ground (arith, h))
rename-named ((k, v) ∷ es) w s h = elim (Bool-cases (eq_fold (codes k) w)) [
  | inl e ↦
      ap (λ b. rename es (if b then codes v else w)) e
      ∙ rename-fixed es (codes v) s.1 s.0.fixed
      ∙ sym (named-type (k, v) w s.0 e)
  | inr e ↦
      ap (λ b. rename es (if b then codes v else w)) e
      ∙ rename-named es w s.1 (ground (arith, h, e))
]

rename-other : (es : TypeMap) (w : Text) → names es w ≡ false → rename es w ≡ w
rename-other [] w h = refl
rename-other ((k, v) ∷ es) w h =
    let e : eq_fold (codes k) w ≡ false = ground (arith, h) in
    ap (λ b. rename es (if b then codes v else w)) e ∙ rename-other es w (ground (arith, h))

lookup-other : (es : TypeMap) (w : Text) → names es w ≡ false → lookup es w ≡ none
unfolding lookup
lookup-other [] w h = refl
lookup-other ((k, v) ∷ es) w h = ground (arith, h, lookup-other es w)

names-In :
    (e : Entry) (es : TypeMap) (w : Text)
    → In e es
    → eq_fold (codes e.0) w ≡ true
    → names es w ≡ true
names-In e [] w i h = absurd i
names-In e (x ∷ es) w (inl p) h =
    let named : eq_fold (codes x.0) w ≡ true = subst (λ y. eq_fold (codes y.0) w ≡ true) p h in
    ground (arith, named)
names-In e (x ∷ es) w (inr i) h = ground (arith, names-In e es w i h)

-- Visiting the same entries, in another order, names the same words.
names_within :
    (es fs : TypeMap) (w : Text)
    → ((e : Entry) → In e es → In e fs)
    → names fs w ≡ false
    → names es w ≡ false
names_within [] fs w i h = refl
names_within ((k, v) ∷ es) fs w i h =
    let rest = names_within es fs w (λ e j. i e (inr j)) h in
    let head = names-In (k, v) fs w (i (k, v) (inl refl)) in ground (arith, rest, head, h)

order-Sound : (es : TypeMap) → ((e : Entry) → In e es → In e default_type_map) → All Sound es
order-Sound [] i = tt
order-Sound (e ∷ es) i = (entry-Sound e (i e (inl refl)), order-Sound es (λ f j. i f (inr j)))

rename-order : (order : TypeMap) (w : Text) → IsOrder order → rename order w ≡ to_sqlite_type w
unfolding to_sqlite_type
rename-order order w o = elim (Bool-cases (names order w)) [
  | inl h ↦ rename-named order w (order-Sound order (λ e. (o e).0)) h
  | inr h ↦
      rename-other order w h
      ∙ sym (
          ap (or_same w) (
            lookup-other default_type_map w
              (names_within default_type_map order w (λ e. (o e).1) h)))
]

either-IsWord :
    (b : Bool) (v w : Text)
    → IsWord v × (v ≢ [])
    → IsWord w × (w ≢ [])
    → IsWord (if b then v else w) × ((if b then v else w) ≢ [])
either-IsWord true v w h k = h
either-IsWord false v w h k = k

translate-rename :
    (es : TypeMap) (sql : Text)
    → All Sound es
    → translate_column_types es sql ≡ map_words (rename es) sql
unfolding translate_column_types
translate-rename [] sql s = sym (map_words-none sql)
translate-rename ((k, v) ∷ es) sql s =
    ap (translate_column_types es)
      (replace_all-words (codes k) (codes v) s.0.key_word s.0.key_some sql)
    ∙ translate-rename es (map_words (swap (codes k) (codes v)) sql) s.1
    ∙ map_words-twice (rename es) (swap (codes k) (codes v))
        (λ w h n.
          either-IsWord (eq_fold (codes k) w) (codes v) w (s.0.value_word, s.0.value_some) (h, n))
        sql

-- In whatever order the map is visited, `translateColumnTypes` puts SQLite's type in place of each
-- word of the statement that is one of MySQL's types, in any case, and leaves everything else: the
-- replacements that come later never touch what an earlier one has written.
pub translate_column_types-words :
    (order : TypeMap) (sql : Text)
    → IsOrder order
    → translate_column_types order sql ≡ map_words to_sqlite_type sql
translate_column_types-words order sql o =
    translate-rename order sql (order-Sound order (λ e. (o e).0))
    ∙ map_words-same (rename order) to_sqlite_type (λ w h. rename-order order w o) sql
