-- ===== src/Regexp/Lacking.antt =====
-- Go's package `regexp`: an expression with a literal in each of its matches leaves a text without
-- that literal as it is.
use sqliteproxy.Base.{
  ℕ, Bool, true, false, not, [], ◌∷◌, ◌++◌, append_assoc, append-nil, Text, has_prefix, contains,
  to_upper, to_upper_byte, Option, none, some, inl, ◌≡◌, refl, sym, ap, ◌∙◌, subst, arith, List, In,
}
use sqliteproxy.Regexp.{Regex, chain, either, group, many, Place, Groups, runs, text_of}
use sqliteproxy.Regexp.Relation.{
  Matches, nothing, takes, follows, first, second, stops, again, captures, edge, starts, ends,
  runs_sound,
}
use sqliteproxy.Regexp.Replace.{place, match_here, preferred, scan, write, replace_all}

-- Every match of the expression begins in front of the literal `t`.
pub data Holds (t : Text) : Regex → Type 0 where
  literal : {e : Regex} (u : Text) → e ≡ text_of (t ++ u) → Holds t e
  left : {a b : Regex} → Holds t a → Holds t (chain a b)
  right : {a b : Regex} → Holds t b → Holds t (chain a b)
  both : {a b : Regex} → Holds t a → Holds t b → Holds t (either a b)
  inside : {k : ℕ} {a : Regex} → Holds t a → Holds t (group k a)

pub in_word : (u t v : Text) → Holds t (text_of (u ++ (t ++ v)))
in_word [] t v = literal v refl
in_word (c ∷ u) t v = right (in_word u t v)

pub whole_text : (t : Text) → Holds t (text_of t)
whole_text t = literal [] (ap text_of (sym (append-nil t)))

abbrev pub lacks : Text → Text → Bool
lacks t s = not (contains (to_upper t) (to_upper s))

pub Matches-suffix : (e : Regex) (p q : Place) → Matches e p q → (u : Text) × (p.rest ≡ u ++ q.rest)
Matches-suffix _ p q nothing = ([], refl)
Matches-suffix _ p q (takes c s e h) = (c ∷ [], e)
Matches-suffix (chain a b) p r (follows {q} d m) =
    let (u, e) = Matches-suffix a p q d in
    let (v, h) = Matches-suffix b q r m in
    (u ++ v, e ∙ ap (λ x. u ++ x) h ∙ sym (append_assoc u v r.rest))
Matches-suffix (either a b) p q (first d) = Matches-suffix a p q d
Matches-suffix (either a b) p q (second d) = Matches-suffix b p q d
Matches-suffix _ p q stops = ([], refl)
Matches-suffix (many a) p r (again {q} d l m) =
    let (u, e) = Matches-suffix a p q d in
    let (v, h) = Matches-suffix (many a) q r m in
    (u ++ v, e ∙ ap (λ x. u ++ x) h ∙ sym (append_assoc u v r.rest))
Matches-suffix (group k a) p q (captures {q = r} d) = Matches-suffix a p r d
Matches-suffix _ p q (edge h) = ([], refl)
Matches-suffix _ p q (starts h) = ([], refl)
Matches-suffix _ p q (ends h) = ([], refl)

contains-append : (t u s : Text) → contains t s ≡ true → contains t (u ++ s) ≡ true
unfolding contains
contains-append t [] s h = h
contains-append t (c ∷ u) s h = ground (arith, contains-append t u s h)

has_prefix-contains : (t s : Text) → has_prefix t s ≡ true → contains t s ≡ true
unfolding contains has_prefix
has_prefix-contains [] [] h = refl
has_prefix-contains t (c ∷ s) h = ground arith
has_prefix-contains (x ∷ t) [] h = h

pub to_upper-append : (u s : Text) → to_upper (u ++ s) ≡ to_upper u ++ to_upper s
unfolding to_upper
to_upper-append [] s = refl
to_upper-append (c ∷ u) s = ap (λ x. to_upper_byte c ∷ x) (to_upper-append u s)

literal-prefix :
    (t u : Text) (p q : Place)
    → Matches (text_of (t ++ u)) p q
    → has_prefix (to_upper t) (to_upper p.rest) ≡ true
unfolding has_prefix to_upper
literal-prefix [] u p q d = refl
literal-prefix (c ∷ t) u p q (follows {q = r} (takes b s e h) d) =
    rw e (grind (arith, literal-prefix t u r q d))

Holds-contains :
    (t : Text) (e : Regex) (p q : Place)
    → Holds t e
    → Matches e p q
    → contains (to_upper t) (to_upper p.rest) ≡ true
Holds-contains t e p q (literal u h) d =
    has_prefix-contains (to_upper t) (to_upper p.rest)
      (literal-prefix t u p q (subst (λ x. Matches x p q) h d))
Holds-contains t (chain a b) p r (left h) (follows {q} d m) = Holds-contains t a p q h d
Holds-contains t (chain a b) p r (right h) (follows {q} d m) =
    let (u, e) = Matches-suffix a p q d in
    rw (e, to_upper-append)
      (contains-append (to_upper t) (to_upper u) (to_upper q.rest) (Holds-contains t b q r h m))
Holds-contains t (either a b) p r (both h k) (first d) = Holds-contains t a p r h d
Holds-contains t (either a b) p r (both h k) (second d) = Holds-contains t b p r k d
Holds-contains t (group k a) p r (inside h) (captures {q} d) = Holds-contains t a p q h d

module _ (e : Regex) where
  pub match_here-none :
      (before : Option ℕ) (s : Text)
      → ((q : Place) → ¬ Matches e (place before s) q)
      → match_here e before s ≡ none
  unfolding match_here
  match_here-none before s h = no_runs (runs e (place before s)) (λ q i. h q (runs_sound e _ q i))
    where
      no_runs : (ps : List Place) → ((q : Place) → ¬ In q ps) → preferred s ps ≡ none
      no_runs [] n = refl
      no_runs (q ∷ ps) n = absurd (n q (inl refl))

lacks-contains : (t s : Text) → lacks t s ≡ true → ¬ (contains (to_upper t) (to_upper s) ≡ true)
lacks-contains t s l h = ground (arith, l, h)

pub lacks_tail : (t : Text) (c : ℕ) (s : Text) → lacks t (c ∷ s) ≡ true → lacks t s ≡ true
unfolding to_upper
lacks_tail t c s l =
    ground (arith, l, contains-append (to_upper t) (to_upper_byte c ∷ []) (to_upper s))

-- An expression that begins with a literal does not match where the text does not.
pub match_here-literal :
    (t : Text) (a : Regex) (before : Option ℕ) (s : Text)
    → has_prefix (to_upper t) (to_upper s) ≡ false
    → match_here (chain (text_of t) a) before s ≡ none
match_here-literal t a before s n = match_here-none (chain (text_of t) a) before s (λ q d. elim d [
  | follows {q = r} d m ↦
      let h =
        literal-prefix t [] (place before s) r
          (subst (λ x. Matches (text_of x) (place before s) r) (sym (append-nil t)) d) in
      ground (arith, h, n)
])

module _ (t : Text) (e : Regex) (h : Holds t e) (f : Groups → Text) where
  pub scan-lacks :
      (before : Option ℕ) (s : Text) → lacks t s ≡ true → write f (scan e 0 before s) ≡ s
  unfolding scan write
  scan-lacks before [] l = refl
  scan-lacks before (c ∷ s) l =
      rw
        (
          match_here-none e before (c ∷ s)
              λ q d. lacks-contains t (c ∷ s) l (Holds-contains t e _ q h d),
          scan,
          write,
        )
        (ap (λ x. c ∷ x) (scan-lacks (some c) s (lacks_tail t c s l)))

  pub replace_all-lacks : (s : Text) → lacks t s ≡ true → replace_all e f s ≡ s
  unfolding replace_all
  replace_all-lacks s l = scan-lacks none s l
