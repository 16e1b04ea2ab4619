-- ===== src/Regexp/Relation.antt =====
-- Go's package `regexp`: what it means for an expression to match from one place to another, with no
-- search order in it, and that the search finds just these matches.
use sqliteproxy.Base.{
  ℕ, zero, suc, Bool, true, false, [], ◌∷◌, ◌++◌, List, map, Text, is_empty, some, ◌⊎◌, inl, inr,
  length, ltb, ◌≡◌, ◌↔◌, ◌<◌, ◌≤◌, refl, arith, In, if◌then◌else◌, subst, sym, ap,
}
use sqliteproxy.Regexp.{
  Regex, empty, byte, chain, either, many, group, boundary, text_start, text_end, Place, runs, each,
  repeat, take_byte, captured, at_boundary, at_start,
}

pub data Matches : Regex → Place → Place → Type 0 where
  nothing : {p : Place} → Matches empty p p
  takes :
      {test : ℕ → Bool} {p : Place} (c : ℕ) (s : Text)
      → p.rest ≡ c ∷ s
      → test c ≡ true
      → Matches (byte test) p (record { before = some c; rest = s; groups = p.groups })
  follows : {a b : Regex} {p q r : Place} → Matches a p q → Matches b q r → Matches (chain a b) p r
  first : {a b : Regex} {p q : Place} → Matches a p q → Matches (either a b) p q
  second : {a b : Regex} {p q : Place} → Matches b p q → Matches (either a b) p q
  stops : {a : Regex} {p : Place} → Matches (many a) p p
  again :
      {a : Regex} {p q r : Place}
      → Matches a p q
      → length q.rest < length p.rest
      → Matches (many a) q r
      → Matches (many a) p r
  captures :
      {k : ℕ} {a : Regex} {p q : Place} → Matches a p q → Matches (group k a) p (captured k p q)
  edge : {p : Place} → at_boundary p ≡ true → Matches boundary p p
  starts : {p : Place} → at_start p.before ≡ true → Matches text_start p p
  ends : {p : Place} → is_empty p.rest ≡ true → Matches text_end p p

In-append : {A : Type 0} (x : A) (xs ys : List A) → In x (xs ++ ys) ↔ (In x xs ⊎ In x ys)
In-append x [] ys = (λ h. inr h, λ h. elim h [ inl e ↦ absurd e | inr e ↦ e ])
In-append x (y ∷ xs) ys = (
  λ h. elim h [
    | inl e ↦ inl (inl e)
    | inr e ↦ elim ((In-append x xs ys).0 e) [ inl i ↦ inl (inr i) | inr i ↦ inr i ]
  ],
  λ h. elim h [
    | inl e ↦ elim e [ inl i ↦ inl i | inr i ↦ inr ((In-append x xs ys).1 (inl i)) ]
    | inr e ↦ inr ((In-append x xs ys).1 (inr e))
  ],
)

-- A list of the library's `each`: a member comes from a member.
each-In :
    (f : Place → List Place) (r : Place) (ps : List Place)
    → In r (each f ps)
    → (q : Place) × (In q ps) × (In r (f q))
unfolding each
each-In f r [] h = absurd h
each-In f r (p ∷ ps) h = elim ((In-append r (f p) (each f ps)).0 h) [
  | inl i ↦ (p, inl refl, i)
  | inr i ↦ let (q, m, j) = each-In f r ps i in (q, inr m, j)
]

In-each :
    (f : Place → List Place) (q r : Place) (ps : List Place)
    → In q ps
    → In r (f q)
    → In r (each f ps)
unfolding each
In-each f q r [] m j = absurd m
In-each f q r (p ∷ ps) (inl e) j =
    (In-append r (f p) (each f ps)).1 (inl (subst (λ x. In r (f x)) e j))
In-each f q r (p ∷ ps) (inr m) j = (In-append r (f p) (each f ps)).1 (inr (In-each f q r ps m j))

map-In :
    (f : Place → Place) (r : Place) (ps : List Place)
    → In r (map f ps)
    → (q : Place) × (In q ps) × (r ≡ f q)
map-In f r [] h = absurd h
map-In f r (p ∷ ps) (inl e) = (p, inl refl, e)
map-In f r (p ∷ ps) (inr i) = let (q, m, e) = map-In f r ps i in (q, inr m, e)

In-map : (f : Place → Place) (q : Place) (ps : List Place) → In q ps → In (f q) (map f ps)
In-map f q [] m = absurd m
In-map f q (p ∷ ps) (inl e) = inl (ap f e)
In-map f q (p ∷ ps) (inr m) = inr (In-map f q ps m)

-- The search below a test: what it finds is found without the test, and the test holds.
tested :
    (b : Bool) (r : Place) (ps : List Place) → In r (if b then ps else []) → (b ≡ true) × In r ps
tested true r ps h = (refl, h)
tested false r ps h = absurd h

module _ (a : Regex) where
  repeat_sound :
      ((p r : Place) → In r (runs a p) → Matches a p r)
      → (n : ℕ) (p r : Place) → In r (repeat n (runs a) p)
      → Matches (many a) p r
  unfolding repeat
  repeat_sound ih zero p r (inl e) = subst (Matches (many a) p) (sym e) stops
  repeat_sound ih zero p r (inr e) = absurd e
  repeat_sound ih (suc n) p r h = elim ((In-append r (each _ (runs a p)) (p ∷ [])).0 h) [
    | inl i ↦
        let (q, m, j) = each-In _ r (runs a p) i in
        let (t, k) = tested (ltb (length q.rest) (length p.rest)) r (repeat n (runs a) q) j in
        again (ih p q m) (ground arith) (repeat_sound ih n q r k)
    | inr (inl e) ↦ subst (Matches (many a) p) (sym e) stops
    | inr (inr e) ↦ absurd e
  ]

only : {A : Type 0} (r p : A) → In r (p ∷ []) → r ≡ p
only r p (inl e) = e
only r p (inr e) = absurd e

asserted :
    (e : Regex) (b : Bool) (p r : Place)
    → (b ≡ true → Matches e p p)
    → In r (if b then p ∷ [] else [])
    → Matches e p r
asserted e b p r f h = let (t, i) = tested b r _ h in subst (Matches e p) (sym (only r p i)) (f t)

take_byte_sound :
    (test : ℕ → Bool) (p r : Place) (s : Text)
    → p.rest ≡ s
    → In r (take_byte test p.before s p.groups)
    → Matches (byte test) p r
unfolding take_byte
take_byte_sound test p r [] e h = absurd h
take_byte_sound test p r (c ∷ s) e h =
    let (t, i) = tested (test c) r _ h in
    subst (Matches (byte test) p) (sym (only r _ i)) (takes c s e t)

pub runs_sound : (e : Regex) (p r : Place) → In r (runs e p) → Matches e p r
unfolding runs
runs_sound empty p r h = subst (Matches empty p) (sym (only r p h)) nothing
runs_sound (byte test) p r h = take_byte_sound test p r p.rest refl h
runs_sound (chain a b) p r h =
    let (q, m, j) = each-In (runs b) r (runs a p) h in
    follows (runs_sound a p q m) (runs_sound b q r j)
runs_sound (either a b) p r h = elim ((In-append r (runs a p) (runs b p)).0 h) [
  | inl i ↦ first (runs_sound a p r i)
  | inr i ↦ second (runs_sound b p r i)
]
runs_sound (many a) p r h = repeat_sound a (runs_sound a) (length p.rest) p r h
runs_sound (group k a) p r h =
    let (q, m, e) = map-In (captured k p) r (runs a p) h in
    subst (Matches (group k a) p) (sym e) (captures (runs_sound a p q m))
runs_sound boundary p r h = asserted boundary _ p r edge h
runs_sound text_start p r h = asserted text_start _ p r starts h
runs_sound text_end p r h = asserted text_end _ p r ends h

module _ (a : Regex) where
  again-In :
      (n : ℕ) (p q r : Place)
      → In q (runs a p)
      → length q.rest < length p.rest
      → In r (repeat n (runs a) q)
      → In r (repeat (suc n) (runs a) p)
  unfolding repeat
  again-In n p q r m h i =
      (In-append r _ (p ∷ [])).1 (inl (In-each _ q r (runs a p) m (ground arith)))

  repeat_complete :
      ((p r : Place) → Matches a p r → In r (runs a p))
      → (n : ℕ) (p r : Place) → length p.rest ≤ n
      → Matches (many a) p r
      → In r (repeat n (runs a) p)
  unfolding repeat
  repeat_complete ih zero p r h stops = inl refl
  repeat_complete ih (suc n) p r h stops = (In-append r _ (p ∷ [])).1 (inr (inl refl))
  repeat_complete ih zero p r h (again d l m) = absurd (omega arith)
  repeat_complete ih (suc n) p r h (again {q} d l m) =
      again-In n p q r (ih p q d) l (repeat_complete ih n q r (omega arith) m)

pub runs_complete : (e : Regex) (p r : Place) → Matches e p r → In r (runs e p)
unfolding runs take_byte
runs_complete empty p r nothing = inl refl
runs_complete (byte test) p r (takes c s e t) = rw (e, t) (inl refl)
runs_complete (chain a b) p r (follows {q} d m) =
    In-each (runs b) q r (runs a p) (runs_complete a p q d) (runs_complete b q r m)
runs_complete (either a b) p r (first d) =
    (In-append r (runs a p) (runs b p)).1 (inl (runs_complete a p r d))
runs_complete (either a b) p r (second d) =
    (In-append r (runs a p) (runs b p)).1 (inr (runs_complete b p r d))
runs_complete (many a) p r m =
    repeat_complete a (runs_complete a) (length p.rest) p r (omega arith) m
runs_complete (group k a) p r (captures {q} d) =
    In-map (captured k p) q (runs a p) (runs_complete a p q d)
runs_complete boundary p r (edge h) = rw h (inl refl)
runs_complete text_start p r (starts h) = rw h (inl refl)
runs_complete text_end p r (ends h) = rw h (inl refl)
