-- ===== src/Regexp/Leading.antt =====
-- Go's package `regexp`: the preferred match of an expression, part by part.
use sqliteproxy.Base.{
  ℕ, zero, suc, Bool, true, false, [], ◌∷◌, ◌++◌, List, Text, Option, none, some, ◌≡◌, ◌≢◌, refl,
  ap, ◌∙◌, length, take, All, length-append, map, arith, ◌-◌, ◌≤◌, to_upper, ltb,
}
use sqliteproxy.Regexp.{
  Regex, Groups, Place, runs, each, repeat, take_byte, captured, empty, byte, chain, either, many,
  group, text_start, text_end, text_of, folds, some_of,
}
use sqliteproxy.Regexp.Preferred.{after}
use sqliteproxy.Regexp.Replace.{place, preferred, match_here}

abbrev pub at : Option ℕ → Text → Groups → Place
at before s gs = record { before = before; rest = s; groups = gs }

-- `q` is the first match of `e` at `p`.
pub record Leads (e : Regex) (p q : Place) : Type 0 where
  pub later : List Place
  pub leads : runs e p ≡ q ∷ later

pub Leads-empty : (p : Place) → Leads empty p p
unfolding runs
Leads-empty p = record { later = []; leads = refl }

pub Leads-byte :
    (test : ℕ → Bool) (before : Option ℕ) (c : ℕ) (s : Text) (gs : Groups)
    → test c ≡ true
    → Leads (byte test) (at before (c ∷ s) gs) (at (some c) s gs)
unfolding runs take_byte
Leads-byte test before c s gs h = record { later = []; leads = rw h refl }

pub Leads-chain : {a b : Regex} {p q r : Place} → Leads a p q → Leads b q r → Leads (chain a b) p r
unfolding runs each
Leads-chain {a} {b} {p} {q} {r} d m = record {
  later = m.later ++ each (runs b) d.later;
  leads = ap (each (runs b)) d.leads ∙ ap (λ x. x ++ each (runs b) d.later) m.leads;
}

pub Leads-first : {a b : Regex} {p q : Place} → Leads a p q → Leads (either a b) p q
unfolding runs
Leads-first {a} {b} {p} {q} d = record {
  later = d.later ++ runs b p;
  leads = ap (λ x. x ++ runs b p) d.leads;
}

pub Leads-second :
    {a b : Regex} {p q : Place} → runs a p ≡ [] → Leads b p q → Leads (either a b) p q
unfolding runs
Leads-second {a} {b} {p} {q} n d = record {
  later = d.later;
  leads = ap (λ x. x ++ runs b p) n ∙ d.leads;
}

pub Leads-start : (s : Text) (gs : Groups) → Leads text_start (at none s gs) (at none s gs)
unfolding runs
Leads-start s gs = record { later = []; leads = refl }

pub Leads-end :
    (before : Option ℕ) (gs : Groups) → Leads text_end (at before [] gs) (at before [] gs)
unfolding runs
Leads-end before gs = record { later = []; leads = refl }

-- A literal, in any case.
pub Leads-text :
    (t u s : Text) (before : Option ℕ) (gs : Groups)
    → to_upper t ≡ to_upper u
    → Leads (text_of t) (at before (u ++ s) gs) (at (after before u) s gs)
unfolding to_upper
Leads-text [] [] s before gs h = Leads-empty _
Leads-text [] (d ∷ u) s before gs h = absurd (ground (arith, h))
Leads-text (c ∷ t) [] s before gs h = absurd (ground (arith, h))
Leads-text (c ∷ t) (d ∷ u) s before gs h =
    Leads-chain (Leads-byte (folds c) before d (u ++ s) gs (ground (arith, h)))
      (Leads-text t u s (some d) gs (ground (arith, h)))

-- The text does not begin with a byte of the class.
abbrev pub Stops : (ℕ → Bool) → Text → Type 0
Stops test [] = Unit
Stops test (c ∷ s) = test c ≡ false

abbrev pub Taken : (ℕ → Bool) → Text → Type 0
Taken test u = All (λ c. test c ≡ true) u

module _ (test : ℕ → Bool) where
  repeat-byte :
      (n : ℕ) (u s : Text) (before : Option ℕ) (gs : Groups)
      → length u ≤ n
      → Taken test u
      → Stops test s
      → (qs : List Place) × (repeat n (runs (byte test)) (at before (u ++ s) gs)
          ≡ at (after before u) s gs ∷ qs)
  unfolding repeat runs take_byte each
  repeat-byte zero [] s before gs l h n = ([], refl)
  repeat-byte (suc k) [] [] before gs l h n = ([], refl)
  repeat-byte (suc k) [] (c ∷ s) before gs l h n = ([], rw n refl)
  repeat-byte zero (c ∷ u) s before gs l h n = absurd (omega (arith, l))
  repeat-byte (suc k) (c ∷ u) s before gs l h n =
      let (qs, e) = repeat-byte k u s (some c) gs (omega (arith, l)) h.1 n in
      let shorter : ltb (length (u ++ s)) (suc (length (u ++ s))) ≡ true = ground arith in
      ((qs ++ []) ++ (at before (c ∷ (u ++ s)) gs ∷ []), rw (h.0, shorter, e) refl)

  pub Leads-many :
      (u s : Text) (before : Option ℕ) (gs : Groups)
      → Taken test u
      → Stops test s
      → Leads (many (byte test)) (at before (u ++ s) gs) (at (after before u) s gs)
  unfolding runs
  Leads-many u s before gs h n =
      let (qs, e) =
        repeat-byte (length (u ++ s)) u s before gs (omega (arith, length-append u s)) h n in
      record { later = qs; leads = e }

  pub Leads-some :
      (u s : Text) (before : Option ℕ) (gs : Groups)
      → u ≢ []
      → Taken test u
      → Stops test s
      → Leads (some_of (byte test)) (at before (u ++ s) gs) (at (after before u) s gs)
  Leads-some [] s before gs e h n = absurd (e refl)
  Leads-some (c ∷ u) s before gs e h n =
      Leads-chain (Leads-byte test before c (u ++ s) gs h.0) (Leads-many u s (some c) gs h.1 n)

  module _ (other : ℕ → Bool) (apart : (c : ℕ) → other c ≡ true → test c ≡ false) where
    pub Stops-append : (u s : Text) → Taken other u → Stops test s → Stops test (u ++ s)
    Stops-append [] s h n = n
    Stops-append (c ∷ u) s h n = apart c h.0

    pub Stops-some : (u s : Text) → u ≢ [] → Taken other u → Stops test (u ++ s)
    Stops-some [] s e h = absurd (e refl)
    Stops-some (c ∷ u) s e h = apart c h.0

take-append : (u s : Text) → take (length u) (u ++ s) ≡ u
take-append [] s = refl
take-append (c ∷ u) s = ap (λ x. c ∷ x) (take-append u s)

-- A group takes what its expression takes.
pub Leads-group :
    (k : ℕ) {a : Regex} (u s : Text) (before before' : Option ℕ) (gs gs' : Groups)
    → Leads a (at before (u ++ s) gs) (at before' s gs')
    → Leads (group k a) (at before (u ++ s) gs) (at before' s ((k, u) ∷ gs'))
unfolding runs
Leads-group k {a} u s before before' gs gs' d =
    let n : length (u ++ s) - length s ≡ length u = omega (arith, length-append u s) in
    record {
      later = map (captured k (at before (u ++ s) gs)) d.later;
      leads =
          ap (map (captured k (at before (u ++ s) gs))) d.leads
          ∙ ap (λ t. at before' s ((k, t) ∷ gs') ∷ map (captured k (at before (u ++ s) gs)) d.later)
              (ap (λ m. take m (u ++ s)) n ∙ take-append u s);
    }

-- The match that `match_here` finds.
pub match_here-Leads :
    (e : Regex) (before before' : Option ℕ) (t u s : Text) (gs : Groups)
    → t ≡ u ++ s
    → Leads e (place before t) (at before' s gs)
    → match_here e before t ≡ some (length u, (0, u) ∷ gs)
unfolding match_here
match_here-Leads e before before' t u s gs h d =
    let n : length t - length s ≡ length u = omega (arith, ap length h, length-append u s) in
    ap (preferred t) d.leads
    ∙ ap (λ m. some (m, (0, take m t) ∷ gs)) n
    ∙ ap (λ x. some (length u, (0, x) ∷ gs)) (ap (take (length u)) h ∙ take-append u s)
