-- ===== src/Commands/Terminal/Layout/Aligned.antt =====
-- cmd/sqlite-client/main.go: the lines of the table that the client prints are equally wide.
use sqliteproxy.Base.{
  ℕ, zero, suc, ◌+◌, ◌-◌, ◌≤◌, ◌<◌, ◌≡◌, refl, sym, ◌∙◌, false, Text, codes, List, [], ◌∷◌, ◌++◌,
  map, length, All, All-append, append_assoc, ltb, arith,
}
use sqliteproxy.Commands.Terminal.Layout.{
  repeated, padded, cells, print_row, bars, print_separator, widen, widen_all, column_widths,
  print_table,
}
use sqliteproxy.Commands.Terminal.Runes.{
  rune_count, rune_count-length, rune_count-append, rune_count-empty, rune_count-ascii,
}

-- The width of a line without its first byte: each column with two blanks and a bar.
abbrev pub total : List ℕ → ℕ
total [] = 0
total (w ∷ ws) = w + 3 + total ws

-- Each value has no more bytes than its column is wide, and there are as many of them.
abbrev pub Fits : List Text → List ℕ → Type 0
Fits [] [] = Unit
Fits [] (w ∷ ws) = ⊥
Fits (c ∷ cs) [] = ⊥
Fits (c ∷ cs) (w ∷ ws) = (length c ≤ w) × Fits cs ws

abbrev pub Narrow : List ℕ → Type 0
Narrow = All (λ w. w ≤ 1000000)

rune_count-repeated :
    (s : Text) (c n : ℕ) (d : ℕ) (t : Text)
    → c < 128
    → d < 128
    → rune_count (s ++ (repeated c n ++ (d ∷ t))) ≡ rune_count s + (n + suc (rune_count t))
rune_count-repeated s c zero d t p q = omega (arith, rune_count-append s d t q)
rune_count-repeated s c (suc n) d t p q = omega (
  arith,
  rune_count-append s c (repeated c n ++ (d ∷ t)) p,
  rune_count-repeated [] c n d t p q,
  rune_count-empty,
)

rune_count-bars : (ws : List ℕ) → rune_count (bars ws) ≡ total ws
rune_count-bars [] = rune_count-empty
rune_count-bars (w ∷ ws) =
    let line = rune_count-repeated [] b'-' (w + 2) b'+' (bars ws) (omega arith) (omega arith) in
    omega (arith, line, rune_count-bars ws, rune_count-empty)

rune_count-padded :
    (w : ℕ) (c t : Text)
    → length c ≤ w
    → w ≤ 1000000
    → rune_count (padded w c ++ (codes " |" ++ t)) ≡ w + (2 + rune_count t)
unfolding padded
rune_count-padded w c t h p =
    let narrow : ltb 1000000 w ≡ false = ground (arith, p) in
    let pads = w - rune_count c in
    let cell = rune_count-repeated c b' ' pads b' ' (b'|' ∷ t) (omega arith) (omega arith) in
    rw (narrow, append_assoc c (repeated b' ' pads) (codes " |" ++ t))
      (omega (arith, cell, h, rune_count-length c, rune_count-ascii b'|' t (omega arith)))

rune_count-cells :
    (cs : List Text) (ws : List ℕ) → Fits cs ws → Narrow ws → rune_count (cells cs ws) ≡ total ws
unfolding cells
rune_count-cells [] [] h n = rune_count-empty
rune_count-cells [] (w ∷ ws) h n = elim h [ ]
rune_count-cells (c ∷ cs) [] h n = elim h [ ]
rune_count-cells (c ∷ cs) (w ∷ ws) h n = omega (
  arith,
  rune_count-ascii b' ' (padded w c ++ (codes " |" ++ cells cs ws)) (omega arith),
  rune_count-padded w c (cells cs ws) h.0 n.0,
  rune_count-cells cs ws h.1 n.1,
)

print_separator-total : (ws : List ℕ) → rune_count (print_separator ws) ≡ suc (total ws)
unfolding print_separator
print_separator-total ws =
    omega (arith, rune_count-ascii b'+' (bars ws) (omega arith), rune_count-bars ws)

print_row-total :
    (cs : List Text) (ws : List ℕ)
    → Fits cs ws
    → Narrow ws
    → rune_count (print_row cs ws) ≡ suc (total ws)
unfolding print_row
print_row-total cs ws h n =
    omega (arith, rune_count-ascii b'|' (cells cs ws) (omega arith), rune_count-cells cs ws h n)

length-widen : (ws : List ℕ) (cs : List Text) → length (widen ws cs) ≡ length ws
length-widen [] cs = refl
length-widen (w ∷ ws) [] = refl
length-widen (w ∷ ws) (c ∷ cs) = omega (arith, length-widen ws cs)

widen-Fits : (ws : List ℕ) (cs : List Text) → length cs ≡ length ws → Fits cs (widen ws cs)
widen-Fits [] [] h = tt
widen-Fits [] (c ∷ cs) h = omega (arith, h)
widen-Fits (w ∷ ws) [] h = omega (arith, h)
widen-Fits (w ∷ ws) (c ∷ cs) h = (ground arith, widen-Fits ws cs (omega (arith, h)))

widen_keeps : (ws : List ℕ) (cs ds : List Text) → Fits ds ws → Fits ds (widen ws cs)
widen_keeps [] cs ds h = h
widen_keeps (w ∷ ws) [] ds h = h
widen_keeps (w ∷ ws) (c ∷ cs) [] h = h
widen_keeps (w ∷ ws) (c ∷ cs) (d ∷ ds) h =
    let narrow = h.0 in (ground arith, widen_keeps ws cs ds h.1)

widen_all_keeps :
    (rows : List (List Text)) (ws : List ℕ) (ds : List Text)
    → Fits ds ws
    → Fits ds (widen_all ws rows)
widen_all_keeps [] ws ds h = h
widen_all_keeps (r ∷ rs) ws ds h = widen_all_keeps rs (widen ws r) ds (widen_keeps ws r ds h)

abbrev pub HasColumns : ℕ → List (List Text) → Type 0
HasColumns n = All (λ r. length r ≡ n)

widen_all-Fits :
    (rows : List (List Text)) (ws : List ℕ) (n : ℕ)
    → HasColumns n rows
    → length ws ≡ n
    → All (λ r. Fits r (widen_all ws rows)) rows
widen_all-Fits [] ws n h e = tt
widen_all-Fits (r ∷ rs) ws n h e = (
  widen_all_keeps rs (widen ws r) r (widen-Fits ws r (h.0 ∙ sym e)),
  widen_all-Fits rs (widen ws r) n h.1 (length-widen ws r ∙ e),
)

Fits-length : (cs : List Text) → Fits cs (map length cs)
Fits-length [] = tt
Fits-length (c ∷ cs) = (omega arith, Fits-length cs)

length-map : (cs : List Text) → length (map length cs) ≡ length cs
length-map [] = refl
length-map (c ∷ cs) = omega (arith, length-map cs)

abbrev pub IsWide : ℕ → List Text → Type 0
IsWide n = All (λ line. rune_count line ≡ n)

print_row-IsWide :
    (rows : List (List Text)) (ws : List ℕ)
    → All (λ r. Fits r ws) rows
    → Narrow ws
    → IsWide (suc (total ws)) (map (λ r. print_row r ws) rows)
print_row-IsWide [] ws h n = tt
print_row-IsWide (r ∷ rs) ws h n = (print_row-total r ws h.0 n, print_row-IsWide rs ws h.1 n)

-- Where every row has a value for each column and no value is longer than a million bytes, all lines of
-- the table, separators, names and rows, have the same number of runes, which the widths of the columns
-- give, whatever bytes the values are of.
pub print_table-IsWide :
    (columns : List Text) (rows : List (List Text))
    → HasColumns (length columns) rows
    → Narrow (column_widths columns rows)
    → IsWide (suc (total (column_widths columns rows))) (print_table columns rows)
unfolding print_table column_widths
print_table-IsWide columns rows h n =
    let ws = widen_all (map length columns) rows in
    let bar = print_separator-total ws in
    let lines =
      All-append _ (map (λ r. print_row r ws) rows) (print_separator ws ∷ [])
        (print_row-IsWide rows ws (widen_all-Fits rows _ (length columns) h (length-map columns)) n)
        (bar, tt) in
    let names =
      print_row-total columns ws (widen_all_keeps rows _ columns (Fits-length columns)) n in
    (bar, (names, (bar, lines)))
