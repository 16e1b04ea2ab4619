-- ===== src/Server/Session.antt =====
-- server/session.go: the session of one client. A connection and a transaction are named by a number
-- and by what they came from.
pub mod Manager
pub mod Laws
use sqliteproxy.Base.{
  ℕ, Bool, true, false, not, ◌||◌, ◌&&◌, [], ◌∷◌, List, Text, codes, Option, none, some, is_empty,
  text_eq, if◌then◌else◌,
}
use sqliteproxy.Base.Dict.{Dict, lookup, insert, delete}
use sqliteproxy.Errors.{Error, message, nil_dereference, first_error}
use sqliteproxy.Storage.{Database}

-- `*sql.Conn`: taken from the pool with this handle.
pub record Conn : Type 0 where
  pub number : ℕ
  pub pool_handle : ℕ

-- `*sql.Tx`: begun on this connection.
pub record Tx : Type 0 where
  pub number : ℕ
  pub conn : Conn

pub record Session : Type 0 where
  pub id : Text
  pub username : Text
  pub database : Text
  pub connected_at : ℕ
  pub last_active_at : ℕ
  pub variables : Dict Text
  pub bound_db : Option Database
  pub in_transaction : Bool
  pub tx : Option Tx
  pub db : Option Conn

-- `NewSession`
abbrev pub new_session : Text → ℕ → Session
new_session id now = record {
  id = id;
  username = [];
  database = [];
  connected_at = now;
  last_active_at = now;
  variables = [];
  bound_db = none;
  in_transaction = false;
  tx = none;
  db = none;
}

abbrev bind_to : Option Database → Option Database → ℕ → Session → Option Error × Session
bind_to none none now s = (some nil_dereference, s)
bind_to (some old) none now s = (some nil_dereference, s)
bind_to (some old) (some db) now s = (
  if not (text_eq old.name db.name)
      then some (message (codes "session already bound to a different database"))
      else none,
  s,
)
bind_to none (some db) now s = (
  none,
  record s { bound_db = some db; username = db.username; database = db.name; last_active_at = now },
)

-- `Bind`; its argument is a pointer, and a nil one is dereferenced.
unfoldable pub bind : Option Database → ℕ → Session → Option Error × Session
bind db now s = bind_to s.bound_db db now s

-- `SetVariable` and `GetVariable`
unfoldable pub set_variable : Text → Text → ℕ → Session → Session
unfolding insert
set_variable key value now s = record s {
  variables = insert key value s.variables;
  last_active_at = now;
}

unfoldable pub get_variable : Text → Session → Option Text
unfolding lookup
get_variable key s = lookup key s.variables

-- `SetDatabase`
unfoldable pub set_database : Text → ℕ → Session → Session
set_database name now s = record s { database = name; last_active_at = now }

-- `BeginTransaction`
unfoldable pub begin_transaction : Tx → ℕ → Session → Session
begin_transaction t now s = record s { in_transaction = true; tx = some t; last_active_at = now }

abbrev end_with : Option Tx → Option Error → ℕ → Session → Option Error × Session
end_with none result now s = (some (message (codes "no active transaction")), s)
end_with (some t) result now s =
    (result, record s { tx = none; in_transaction = false; last_active_at = now })

-- `CommitTransaction`; `result` is what committing the transaction returns.
unfoldable pub commit_transaction : Option Error → ℕ → Session → Option Error × Session
commit_transaction result now s = end_with s.tx result now s

-- `RollbackTransaction`
unfoldable pub rollback_transaction : Option Error → ℕ → Session → Option Error × Session
rollback_transaction result now s = end_with s.tx result now s

-- `SetConnection`
unfoldable pub set_connection : Conn → Session → Session
set_connection c s = record s { db = some c }

abbrev drop_tx : Option Tx → Session → Session
drop_tx none s = s
drop_tx (some t) s = record s { tx = none; in_transaction = false }

abbrev when_some : {A : Type 0} → Option A → Option Error → Option Error
when_some none result = none
when_some (some a) result = result

-- `Close`; `rolled_back` and `released` are what rolling back and closing the connection return,
-- where there is a transaction and a connection.
unfoldable pub close : Option Error → Option Error → Session → Option Error × Session
close rolled_back released s = (
  first_error (when_some s.tx rolled_back) (when_some s.db released),
  record (drop_tx s.tx s) { db = none },
)
