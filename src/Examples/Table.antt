-- ===== src/Examples/Table.antt =====
-- A management database for storage/store.go, with room for one row.
use sqliteproxy.Base.{
  ◌≡◌, ◌↔◌, refl, subst, ap, sym, ◌∙◌, In, inl, inr, [], ◌∷◌, List, Text, codes, text_eq,
  text_eq_iff, Option, none, some, if◌then◌else◌, arith,
}
use sqliteproxy.Errors.{external}
use sqliteproxy.Effect.{Result, ok, err}
use sqliteproxy.Storage.Catalog.{Catalog, Row, set_ready, drop_creating, keep_ready}
use sqliteproxy.Storage.{Status, creating, ready}

abbrev pub Slot : Type 0
Slot = Option Row

abbrev row_in : Text → Slot → Option Row
row_in n none = none
row_in n (some r) = if text_eq r.name n then some r else none

abbrev insert_in : Row → Slot → Result Slot
insert_in r none = ok (some r)
insert_in r (some s) = err (external (codes "UNIQUE constraint failed"))

abbrev mark_in : Text → Slot → Slot
mark_in m none = none
mark_in m (some r) = if text_eq r.name m then some (record r { status = ready }) else some r

abbrev creating_of : Row → Status → List Text
creating_of r creating = r.name ∷ []
creating_of r ready = []

abbrev creating_in : Slot → List Text
creating_in none = []
creating_in (some r) = creating_of r r.status

abbrev ready_of : Row → Status → List Row
ready_of r creating = []
ready_of r ready = r ∷ []

abbrev ready_in : Slot → List Row
ready_in none = []
ready_in (some r) = ready_of r r.status

abbrev delete_in : Text → Slot → Slot
delete_in m none = none
delete_in m (some r) = if text_eq r.name m then keep_ready r r.status else some r

pub mark_in_lem :
    (m n : Text) (t u : Slot)
    → ok (mark_in m t) ≡ ok u
    → row_in n u ≡ (if text_eq m n then set_ready (row_in n t) else row_in n t)
mark_in_lem m n none u e = ground arith
mark_in_lem m n (some r) u e =
    ground (arith, text_eq_iff m n, text_eq_iff r.name n, text_eq_iff r.name m)

pub row_in_named : (d : Slot) (n : Text) (r : Row) → row_in n d ≡ some r → r.name ≡ n
row_in_named none n r e = absurd (ground arith)
row_in_named (some x) n r e =
    let same : x ≡ r = ground arith in
    let named : x.name ≡ n = ground (arith, text_eq_iff x.name n) in
    subst (λ y. y.name ≡ n) same named

none-some : (r : Row) → ¬ (none ≡ some r)
none-some r h = ground arith

row_in_same : (x r : Row) (n : Text) → row_in n (some x) ≡ some r → (x ≡ r) × (x.name ≡ n)
row_in_same x r n h = (ground arith, ground (arith, text_eq_iff x.name n))

row_in_own : (x : Row) (n : Text) → n ≡ x.name → row_in n (some x) ≡ some x
row_in_own x n h = ground (arith, text_eq_iff x.name n)

creating_of_lem :
    (x : Row) (n : Text) (st : Status)
    → x.status ≡ st
    → In n (creating_of x st) ↔ ((r : Row) × (row_in n (some x) ≡ some r) × (r.status ≡ creating))
creating_of_lem x n creating e = (
  λ h. elim h [ inl same ↦ (x, row_in_own x n same, e) | inr bad ↦ absurd bad ],
  λ t. inl (sym (row_in_same x t.0 n t.1).1),
)
creating_of_lem x n ready e = (
  λ h. absurd h,
  λ t.
      let made : x.status ≡ creating = ap (λ y. y.status) (row_in_same x t.0 n t.1).0 ∙ t.2 in
      absurd (ground arith),
)

pub creating_in_lem :
    (d : Slot) (ns : List Text) (n : Text)
    → ok (creating_in d) ≡ ok ns
    → In n ns ↔ ((r : Row) × (row_in n d ≡ some r) × (r.status ≡ creating))
creating_in_lem none ns n e =
    let same : creating_in none ≡ ns = ground arith in
    subst (λ l. In n l ↔ ((r : Row) × (none ≡ some r) × (r.status ≡ creating))) same
      (λ h. absurd h, λ t. absurd (none-some t.0 t.1))
creating_in_lem (some x) ns n e =
    subst (λ l. In n l ↔ ((r : Row) × (row_in n (some x) ≡ some r) × (r.status ≡ creating)))
      (ground arith) (creating_of_lem x n x.status refl)

ready_of_lem :
    (x r : Row) (st : Status)
    → x.status ≡ st
    → In r (ready_of x st) ↔ ((row_in r.name (some x) ≡ some r) × (r.status ≡ ready))
ready_of_lem x r creating e = (
  λ h. absurd h,
  λ t.
      let done : x.status ≡ ready = ap (λ y. y.status) (row_in_same x r r.name t.0).0 ∙ t.1 in
      absurd (ground arith),
)
ready_of_lem x r ready e = (
  λ h. elim h [
    | inl same ↦ (
      row_in_own x r.name (ap (λ y. y.name) same) ∙ ap some (sym same),
      ap (λ y. y.status) same ∙ e,
    )
    | inr bad ↦ absurd bad
  ],
  λ t. inl (sym (row_in_same x r r.name t.0).0),
)

pub ready_in_lem :
    (d : Slot) (rs : List Row) (r : Row)
    → ok (ready_in d) ≡ ok rs
    → In r rs ↔ ((row_in r.name d ≡ some r) × (r.status ≡ ready))
ready_in_lem none rs r e =
    let same : ready_in none ≡ rs = ground arith in
    subst (λ l. In r l ↔ ((none ≡ some r) × (r.status ≡ ready))) same
      (λ h. absurd h, λ t. absurd (none-some r t.0))
ready_in_lem (some x) rs r e =
    subst (λ l. In r l ↔ ((row_in r.name (some x) ≡ some r) × (r.status ≡ ready))) (ground arith)
      (ready_of_lem x r x.status refl)

pub delete_in_lem :
    (m n : Text) (d e : Slot)
    → ok (delete_in m d) ≡ ok e
    → row_in n e ≡ (if text_eq m n then drop_creating (row_in n d) else row_in n d)
delete_in_lem m n none e h = ground arith
delete_in_lem m n (some r) e h =
    ground (arith, text_eq_iff m n, text_eq_iff r.name n, text_eq_iff r.name m)

abbrev pub slot_catalog : Catalog
slot_catalog = record {
  Db = Slot;
  Tx = Slot;
  row = row_in;
  tx_row = row_in;
  begin = λ d. ok d;
  insert_row = insert_in;
  mark_ready = λ m t. ok (mark_in m t);
  commit = λ t d. ok t;
  select_creating = λ d. ok (creating_in d);
  select_ready = λ d. ok (ready_in d);
  delete_creating = λ m d. ok (delete_in m d);
  close_catalog = λ d. none;
  begin_rows = λ d t n e. ground arith;
  insert_rows = λ r t u n e. ground (arith, text_eq_iff r.name n);
  insert_fresh = λ r t u e. ground arith;
  insert_unique = λ r s t u n e h. ground arith;
  mark_ready_rows = λ m t u n e. mark_in_lem m n t u e;
  commit_rows = λ t d e n h. ground arith;
  row_named = λ d n r e. row_in_named d n r e;
  creating_rows = λ d ns n e. creating_in_lem d ns n e;
  ready_rows = λ d rs r e. ready_in_lem d rs r e;
  delete_creating_rows = λ m d e n h. delete_in_lem m n d e h;
}
