-- ===== src/Translator/Escapes/Literals.antt =====
-- translator/translator.go, `translateStringEscapes`: what becomes of the literals of a statement.
use sqliteproxy.Base.{
  ℕ, ◌≡◌, ◌≢◌, ◌++◌, refl, ap, ◌∙◌, Bool, true, false, [], ◌∷◌, List, Text, All, arith, ==_iff,
}
use sqliteproxy.Translator.Escapes.{
  quote, backslash, next_move, escape_from, translate_string_escapes,
}

-- One character of a literal: a byte other than a quote and a backslash, or a quote in one of the two
-- ways that MySQL has for it.
pub data Item : Type 0 where
  byte : ℕ → Item
  escaped_quote doubled_quote : Item

abbrev pub in_mysql : List Item → Text
in_mysql [] = []
in_mysql (byte c ∷ is) = c ∷ in_mysql is
in_mysql (escaped_quote ∷ is) = backslash ∷ quote ∷ in_mysql is
in_mysql (doubled_quote ∷ is) = quote ∷ quote ∷ in_mysql is

-- SQLite has one way to write a quote.
abbrev pub in_sqlite : List Item → Text
in_sqlite [] = []
in_sqlite (byte c ∷ is) = c ∷ in_sqlite is
in_sqlite (escaped_quote ∷ is) = quote ∷ quote ∷ in_sqlite is
in_sqlite (doubled_quote ∷ is) = quote ∷ quote ∷ in_sqlite is

abbrev pub IsItem : Item → Type 0
IsItem (byte c) = (c ≢ quote) × (c ≢ backslash)
IsItem escaped_quote = Unit
IsItem doubled_quote = Unit

abbrev pub HasNoQuote : Text → Type 0
HasNoQuote t = All (λ c. c ≢ quote) t

-- A statement behind its first piece of code: literals, each with the code that follows it.
abbrev pub Pieces : Type 0
Pieces = List (List Item × Text)

abbrev pub write : (List Item → Text) → Pieces → Text
write in_dialect [] = []
write in_dialect ((is, t) ∷ ps) = quote ∷ (in_dialect is ++ (quote ∷ (t ++ write in_dialect ps)))

-- The code holds no quote, the literals are made of items, and code stands between two literals.
abbrev pub IsStatement : Pieces → Type 0
IsStatement [] = Unit
IsStatement ((is, t) ∷ []) = All IsItem is × HasNoQuote t
IsStatement ((is, t) ∷ p ∷ ps) = All IsItem is × HasNoQuote t × (t ≢ []) × IsStatement (p ∷ ps)

escape_code : (t s : Text) → HasNoQuote t → escape_from false (t ++ s) ≡ t ++ escape_from false s
unfolding escape_from next_move
escape_code [] s h = refl
escape_code (c ∷ []) [] h = refl
escape_code (c ∷ []) (d ∷ s) h = ground (arith, h.0)
escape_code (c ∷ d ∷ t) s h = ground (arith, h.0, escape_code (d ∷ t) s h.1)

abbrev NoQuoteFirst : Text → Type 0
NoQuoteFirst [] = Unit
NoQuoteFirst (c ∷ s) = c ≢ quote

escape_open : (s : Text) → escape_from false (quote ∷ s) ≡ quote ∷ escape_from true s
unfolding escape_from next_move
escape_open [] = refl
escape_open (d ∷ s) = refl

escape_close :
    (s : Text) → NoQuoteFirst s → escape_from true (quote ∷ s) ≡ quote ∷ escape_from false s
unfolding escape_from next_move
escape_close [] h = refl
escape_close (d ∷ s) h = ground (arith, h)

escape_byte :
    (c : ℕ) (s : Text)
    → c ≢ quote
    → c ≢ backslash
    → escape_from true (c ∷ s) ≡ c ∷ escape_from true s
unfolding escape_from next_move
escape_byte c [] q b = refl
escape_byte c (d ∷ s) q b = ground (arith, q, b)

escape_items :
    (is : List Item) (s : Text)
    → All IsItem is
    → escape_from true (in_mysql is ++ s) ≡ in_sqlite is ++ escape_from true s
unfolding escape_from next_move
escape_items [] s h = refl
escape_items (byte c ∷ is) s h =
    escape_byte c (in_mysql is ++ s) h.0.0 h.0.1 ∙ ap (λ x. c ∷ x) (escape_items is s h.1)
escape_items (escaped_quote ∷ is) s h = ap (λ x. quote ∷ quote ∷ x) (escape_items is s h.1)
escape_items (doubled_quote ∷ is) s h = ap (λ x. quote ∷ quote ∷ x) (escape_items is s h.1)

code_first : (t s : Text) → t ≢ [] → HasNoQuote t → NoQuoteFirst (t ++ s)
code_first [] s n h = absurd (n refl)
code_first (c ∷ t) s n h = h.0

last_first : (t : Text) → HasNoQuote t → NoQuoteFirst (t ++ [])
last_first [] h = tt
last_first (c ∷ t) h = h.0

escape_piece :
    (is : List Item) (t after after' : Text)
    → All IsItem is
    → HasNoQuote t
    → NoQuoteFirst (t ++ after)
    → escape_from false after ≡ after'
    → escape_from false (quote ∷ (in_mysql is ++ (quote ∷ (t ++ after))))
      ≡ quote ∷ (in_sqlite is ++ (quote ∷ (t ++ after')))
escape_piece is t after after' items code first rest =
    escape_open (in_mysql is ++ (quote ∷ (t ++ after)))
    ∙ ap (λ x. quote ∷ x)
        (escape_items is (quote ∷ (t ++ after)) items
          ∙ ap (λ x. in_sqlite is ++ x)
              (escape_close (t ++ after) first
                ∙ ap (λ x. quote ∷ x) (escape_code t after code ∙ ap (λ x. t ++ x) rest)))

escape_pieces :
    (ps : Pieces) → IsStatement ps → escape_from false (write in_mysql ps) ≡ write in_sqlite ps
unfolding escape_from
escape_pieces [] h = refl
escape_pieces ((is, t) ∷ []) h = escape_piece is t [] [] h.0 h.1 (last_first t h.1) refl
escape_pieces ((is, t) ∷ p ∷ ps) h =
    escape_piece is t (write in_mysql (p ∷ ps)) (write in_sqlite (p ∷ ps)) h.0 h.1
      (code_first t (write in_mysql (p ∷ ps)) h.2 h.1) (escape_pieces (p ∷ ps) h.3)

-- A statement that is made of code without quotes and of literals with code between them, and whose
-- literals hold no backslash other than before a quote, is rewritten, byte for byte, to the statement
-- with the same code and the same literals in which every quote is doubled.
pub translate_string_escapes_lem :
    (code : Text) (ps : Pieces)
    → HasNoQuote code
    → IsStatement ps
    → translate_string_escapes (code ++ write in_mysql ps) ≡ code ++ write in_sqlite ps
unfolding translate_string_escapes
translate_string_escapes_lem code ps h v =
    escape_code code (write in_mysql ps) h ∙ ap (λ x. code ++ x) (escape_pieces ps v)

escape_plain : (t : Text) → HasNoQuote t → escape_from true t ≡ t
unfolding escape_from next_move
escape_plain [] h = refl
escape_plain (c ∷ []) h = refl
escape_plain (c ∷ d ∷ t) h = ground (arith, h, escape_plain (d ∷ t) h.1)

escape_trailing :
    (s : Text) → escape_from true (backslash ∷ quote ∷ s) ≡ quote ∷ quote ∷ escape_from true s
unfolding escape_from next_move
escape_trailing s = refl

-- Literals, each with code behind it, in front of the rest of a statement.
abbrev pub write_before : (List Item → Text) → Pieces → Text → Text
write_before in_dialect [] rest = rest
write_before in_dialect ((is, t) ∷ ps) rest =
    quote ∷ (in_dialect is ++ (quote ∷ (t ++ write_before in_dialect ps rest)))

abbrev pub IsFollowed : List Item × Text → Type 0
IsFollowed (is, t) = All IsItem is × HasNoQuote t × (t ≢ [])

escape_before :
    (ps : Pieces) (rest rest' : Text)
    → All IsFollowed ps
    → escape_from false rest ≡ rest'
    → escape_from false (write_before in_mysql ps rest) ≡ write_before in_sqlite ps rest'
escape_before [] rest rest' h e = e
escape_before ((is, t) ∷ ps) rest rest' ((items, code, n), hs) e =
    escape_piece is t (write_before in_mysql ps rest) (write_before in_sqlite ps rest') items code
      (code_first t (write_before in_mysql ps rest) n code) (escape_before ps rest rest' hs e)

trailing-literal :
    (is : List Item) (t : Text)
    → All IsItem is
    → HasNoQuote t
    → escape_from false (quote ∷ (in_mysql is ++ (backslash ∷ quote ∷ t)))
      ≡ quote ∷ (in_sqlite is ++ (quote ∷ quote ∷ t))
trailing-literal is t items code =
    escape_open (in_mysql is ++ (backslash ∷ quote ∷ t))
    ∙ ap (λ x. quote ∷ x)
        (escape_items is (backslash ∷ quote ∷ t) items
          ∙ ap (λ x. in_sqlite is ++ x)
              (escape_trailing t ∙ ap (λ x. quote ∷ quote ∷ x) (escape_plain t code)))

-- In a statement of code and literals with code behind each, a last literal that ends with a backslash,
-- as SQLite reads it and as `Restore` writes it, and that code without a quote follows, is never closed
-- in the rewritten statement: the backslash becomes a quote, and the code stands inside the literal.
pub trailing_backslash :
    (code : Text) (ps : Pieces) (is : List Item) (t : Text)
    → HasNoQuote code
    → All IsFollowed ps
    → All IsItem is
    → HasNoQuote t
    → translate_string_escapes
        (code ++ write_before in_mysql ps (quote ∷ (in_mysql is ++ (backslash ∷ quote ∷ t))))
      ≡ code ++ write_before in_sqlite ps (quote ∷ (in_sqlite is ++ (quote ∷ quote ∷ t)))
unfolding translate_string_escapes
trailing_backslash code ps is t c hs items tail =
    escape_code code (write_before in_mysql ps (quote ∷ (in_mysql is ++ (backslash ∷ quote ∷ t)))) c
    ∙ ap (λ x. code ++ x) (escape_before ps _ _ hs (trailing-literal is t items tail))

unchanged_from : (b : Bool) (s : Text) → All (λ c. c ≢ backslash) s → escape_from b s ≡ s
unfolding escape_from next_move
unchanged_from b [] h = refl
unchanged_from b (c ∷ []) h = refl
unchanged_from b (c ∷ d ∷ s) h = ground (
  arith,
  h.0,
  ==_iff c quote,
  ==_iff d quote,
  unchanged_from b s h.1.1,
  unchanged_from true (d ∷ s) (h.1),
  unchanged_from false (d ∷ s) h.1,
)

-- A statement that holds no backslash is left as it is.
pub translate_string_escapes_same :
    (sql : Text) → All (λ c. c ≢ backslash) sql → translate_string_escapes sql ≡ sql
unfolding translate_string_escapes
translate_string_escapes_same sql h = unchanged_from false sql h
