-- ===== src/Server/InfoSchema/Columns.antt =====
-- server/infoschema.go: the columns of a WHERE clause that the program reads a condition for.
use sqliteproxy.Base.{
  ◌≡◌, ◌↔◌, ◌⊎◌, inl, inr, [], Text, some, to_lower, text_eq, text_eq_iff, arith, Bool-cases,
}
use sqliteproxy.Base.Dict.{Dict, insert, lookup, lookup-insert}
use sqliteproxy.Server.InfoSchema.{collect_equalities, extract_where_equalities}
use sqliteproxy.Server.Statement.{eq_op, and_op, Expr, binary, column, value, get_string}

-- A column of the name stands on one side of an equation, with a literal on the other, and nothing but
-- AND stands above the equation.
abbrev pub Equates : Text → Expr → Type 0
Equates k (binary and_op l r) = Equates k l ⊎ Equates k r
Equates k (binary eq_op (column q c) (value v)) = to_lower c ≡ k
Equates k (binary eq_op (value v) (column q c)) = to_lower c ≡ k
Equates k _ = ⊥

abbrev pub IsRead : Text → Dict Text → Type 0
IsRead k conditions = (v : Text) × (lookup k conditions ≡ some v)

insert-IsRead :
    (k c v : Text) (out : Dict Text) → IsRead k (insert c v out) ↔ ((c ≡ k) ⊎ IsRead k out)
insert-IsRead k c v out = (only, also)
  where
    only : IsRead k (insert c v out) → (c ≡ k) ⊎ IsRead k out
    only (u, h) = elim (Bool-cases (text_eq c k)) [
      | inl e ↦ inl ((text_eq_iff c k).0 e)
      | inr e ↦ inr (u, ground (arith, lookup-insert c k v out))
    ]

    also : (c ≡ k) ⊎ IsRead k out → IsRead k (insert c v out)
    also (inl e) = (v, ground (arith, lookup-insert c k v out, text_eq_iff c k))
    also (inr (u, h)) = elim (Bool-cases (text_eq c k)) [
      | inl e ↦ (v, ground (arith, lookup-insert c k v out))
      | inr e ↦ (u, ground (arith, lookup-insert c k v out))
    ]

-- What one side adds to what the other side and the beginning have.
both_sides : {L R O M W : Type 0} → M ↔ (L ⊎ O) → W ↔ (R ⊎ M) → W ↔ ((L ⊎ R) ⊎ O)
both_sides {L} {R} {O} {M} {W} left right = (only, also)
  where
    only : W → (L ⊎ R) ⊎ O
    only w = elim (right.0 w) [
      | inl r ↦ inl (inr r)
      | inr m ↦ elim (left.0 m) [ inl l ↦ inl (inl l) | inr o ↦ inr o ]
    ]

    also : (L ⊎ R) ⊎ O → W
    also (inl (inl l)) = right.1 (inr (left.1 (inl l)))
    also (inl (inr r)) = right.1 (inl r)
    also (inr o) = right.1 (inr (left.1 (inr o)))

collect-IsRead :
    (k : Text) (e : Expr) (out : Dict Text)
    → IsRead k (collect_equalities e out) ↔ (Equates k e ⊎ IsRead k out)
unfolding collect_equalities
collect-IsRead k (binary and_op l r) out =
    both_sides (collect-IsRead k l out) (collect-IsRead k r (collect_equalities l out))
collect-IsRead k (binary eq_op (column q c) (value v)) out =
    insert-IsRead k (to_lower c) (get_string v) out
collect-IsRead k (binary eq_op (value v) (column q c)) out =
    insert-IsRead k (to_lower c) (get_string v) out
collect-IsRead k e out = (inr, λ h. elim h [ inl x ↦ absurd x | inr r ↦ r ])

-- The program reads a condition for exactly those names of columns that the WHERE clause equates with a
-- literal, on either side of the equation, in a conjunction that makes up the whole clause.
pub extract_where_equalities-IsRead :
    (k : Text) (e : Expr) → IsRead k (extract_where_equalities (some e)) ↔ Equates k e
unfolding extract_where_equalities
extract_where_equalities-IsRead k e =
    let all = collect-IsRead k e [] in
    (
      λ h. elim (all.0 h) [
        | inl x ↦ x
        | inr r ↦ absurd (let none_there = r.1 in unfold lookup in ground arith)
      ],
      λ x. all.1 (inl x),
    )
