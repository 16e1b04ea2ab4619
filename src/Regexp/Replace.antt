-- ===== src/Regexp/Replace.antt =====
-- Go's package `regexp`: the loops over a text, for `ReplaceAllString`, `ReplaceAllStringFunc`,
-- `FindStringSubmatch` and `FindAllStringSubmatch`. No pattern of the program matches the empty
-- text; such a match would be taken once at each byte.
use sqliteproxy.Base.{
  ℕ, zero, suc, [], ◌∷◌, ◌++◌, List, Text, Option, none, some, take, length, if◌then◌else◌, ◌==◌,
  ◌-◌,
}
use sqliteproxy.Regexp.{Regex, Groups, Place, runs}

-- What group `k` took, and nothing if it is not set.
abbrev pub group_of : ℕ → Groups → Text
group_of k [] = []
group_of k ((j, t) ∷ gs) = if j == k then t else group_of k gs

abbrev pub place : Option ℕ → Text → Place
place before s = record { before = before; rest = s; groups = [] }

-- How many bytes the preferred match takes, and its groups, with the whole match as group 0.
abbrev pub preferred : Text → List Place → Option (ℕ × Groups)
preferred s [] = none
preferred s (q ∷ _) = let n = length s - length q.rest in some (n, (0, take n s) ∷ q.groups)

unfoldable pub match_here : Regex → Option ℕ → Text → Option (ℕ × Groups)
unfolding runs
match_here e before s = preferred s (runs e (place before s))

-- The text cut into the matches and the bytes outside them.
pub data Piece : Type 0 where
  kept : ℕ → Piece
  hit : Groups → Piece

unfoldable pub scan : Regex → ℕ → Option ℕ → Text → List Piece
unfolding match_here
scan e skip before [] = []
scan e (suc n) before (c ∷ s) = scan e n (some c) s
scan e zero before (c ∷ s) = elim (match_here e before (c ∷ s)) [
  | none ↦ kept c ∷ scan e zero (some c) s
  | some (zero, gs) ↦ hit gs ∷ kept c ∷ scan e zero (some c) s
  | some (suc n, gs) ↦ hit gs ∷ scan e n (some c) s
]

unfoldable pub write : (Groups → Text) → List Piece → Text
write f [] = []
write f (kept c ∷ ps) = c ∷ write f ps
write f (hit gs ∷ ps) = f gs ++ write f ps

unfoldable pub replace_all : Regex → (Groups → Text) → Text → Text
unfolding scan write
replace_all e f s = write f (scan e 0 none s)

abbrev pub hits : List Piece → List Groups
hits [] = []
hits (kept _ ∷ ps) = hits ps
hits (hit gs ∷ ps) = gs ∷ hits ps

unfoldable pub find_all : Regex → Text → List Groups
unfolding scan
find_all e s = hits (scan e 0 none s)

abbrev pub first_groups : List Groups → Option Groups
first_groups [] = none
first_groups (gs ∷ _) = some gs

unfoldable pub find_submatch : Regex → Text → Option Groups
unfolding find_all
find_submatch e s = first_groups (find_all e s)
