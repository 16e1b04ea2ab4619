-- ===== src/Storage/Catalog.antt =====
-- The management database as storage/store.go uses it: one SQL statement for each operation, over
-- the table `databases`, whose primary key is the name and whose user names are unique.
use sqliteproxy.Base.{◌≡◌, ◌≢◌, ◌↔◌, Text, List, Option, none, some, text_eq, In, if◌then◌else◌}
use sqliteproxy.Errors.{Error}
use sqliteproxy.Effect.{Result, ok}
use sqliteproxy.Storage.{Status, creating, ready}

-- A row of `databases`; `created_at` is stored as text.
pub record Row : Type 0 where
  pub name : Text
  pub label : Text
  pub username : Text
  pub password : Text
  pub status : Status
  pub created_at : Text

abbrev pub set_ready : Option Row → Option Row
set_ready none = none
set_ready (some r) = some (record r { status = ready })

-- A row whose status is `creating` is deleted, and a ready one stays.
abbrev pub keep_ready : Row → Status → Option Row
keep_ready r creating = none
keep_ready r ready = some r

abbrev pub drop_creating : Option Row → Option Row
drop_creating none = none
drop_creating (some r) = keep_ready r r.status

-- `row` reads the committed content, `tx_row` the content that an open transaction sees.
pub record Catalog : Type 1 where
  pub Db : Type 0
  pub Tx : Type 0
  pub row : Text → Db → Option Row
  pub tx_row : Text → Tx → Option Row
  pub begin : Db → Result Tx
  pub insert_row : Row → Tx → Result Tx
  pub mark_ready : Text → Tx → Result Tx
  pub commit : Tx → Db → Result Db
  pub select_creating : Db → Result (List Text)
  pub select_ready : Db → Result (List Row)
  pub delete_creating : Text → Db → Result Db
  pub close_catalog : Db → Option Error
  -- What the statements do to the rows, where they succeed.
  pub begin_rows : (d : Db) (t : Tx) (n : Text) → begin d ≡ ok t → tx_row n t ≡ row n d
  pub insert_rows :
      (r : Row) (t u : Tx) (n : Text)
      → insert_row r t ≡ ok u
      → tx_row n u ≡ (if text_eq r.name n then some r else tx_row n t)
  pub insert_fresh : (r : Row) (t u : Tx) → insert_row r t ≡ ok u → tx_row r.name t ≡ none
  pub insert_unique :
      (r s : Row) (t u : Tx) (n : Text)
      → insert_row r t ≡ ok u
      → tx_row n t ≡ some s
      → s.username ≢ r.username
  pub mark_ready_rows :
      (m : Text) (t u : Tx) (n : Text)
      → mark_ready m t ≡ ok u
      → tx_row n u ≡ (if text_eq m n then set_ready (tx_row n t) else tx_row n t)
  pub commit_rows : (t : Tx) (d e : Db) (n : Text) → commit t d ≡ ok e → row n e ≡ tx_row n t
  pub row_named : (d : Db) (n : Text) (r : Row) → row n d ≡ some r → r.name ≡ n
  -- `SELECT … WHERE status = ?` returns exactly the rows of that status.
  pub creating_rows :
      (d : Db) (ns : List Text) (n : Text)
      → select_creating d ≡ ok ns
      → In n ns ↔ ((r : Row) × (row n d ≡ some r) × (r.status ≡ creating))
  pub ready_rows :
      (d : Db) (rs : List Row) (r : Row)
      → select_ready d ≡ ok rs
      → In r rs ↔ ((row r.name d ≡ some r) × (r.status ≡ ready))
  -- `DELETE … WHERE name = ? AND status = 'creating'`
  pub delete_creating_rows :
      (m : Text) (d e : Db) (n : Text)
      → delete_creating m d ≡ ok e
      → row n e ≡ (if text_eq m n then drop_creating (row n d) else row n d)
