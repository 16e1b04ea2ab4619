-- ===== src/Server/Binding.antt =====
-- server/auth.go: the state of one connection's handshake, and the credential provider.
pub mod Handshake
use sqliteproxy.Base.{
  ℕ, Bool, true, false, not, ◌||◌, ◌&&◌, [], ◌∷◌, List, Text, Option, none, some, is_empty, text_eq,
  if◌then◌else◌,
}
use sqliteproxy.Errors.{Error, db_access_denied, access_denied, is_not_found, not_found}
use sqliteproxy.Effect.{Result, ok, err}
use sqliteproxy.Storage.Registry.{get_by_username}
use sqliteproxy.Storage.{Database, Store}

-- `ConnectionBinding`
pub record Binding : Type 0 where
  pub requested_db : Text
  pub candidate : Option Database
  pub finalized : Bool
  pub database : Option Database

abbrev pub unbound : Binding
unbound = record { requested_db = []; candidate = none; finalized = false; database = none }

-- `d == nil || name != d.Name`
abbrev pub is_other : Text → Option Database → Bool
is_other name none = true
is_other name (some d) = not (text_eq name d.name)

-- `SetRequestedDB`
unfoldable pub set_requested_db : Text → Binding → Option Error × Binding
set_requested_db name b =
    if b.finalized
    then (if is_other name b.database then some (db_access_denied name) else none, b)
    else (none, record b { requested_db = name })

-- `SetCandidate`
unfoldable pub set_candidate : Database → Binding → Binding
set_candidate db b = record b { candidate = some db }

-- `Finalize` behind its first test, on the candidate.
abbrev pub finalize_candidate :
    Text → Option Database → Binding → Result (Option Database) × Binding
finalize_candidate username none b = (err access_denied, b)
finalize_candidate username (some db) b =
    if not (text_eq db.username username)
    then (err access_denied, b)
    else if not (is_empty b.requested_db) && not (text_eq b.requested_db db.name)
    then (err access_denied, b)
    else (ok (some db), record b { database = some db; finalized = true })

-- `Finalize`; a bound connection returns its database whatever the user name.
unfoldable pub finalize : Text → Binding → Result (Option Database) × Binding
finalize username b =
    if b.finalized then (ok b.database, b) else finalize_candidate username b.candidate b

-- `CheckUsername`; the program compares with `==`, and `GetByUsername` does not wrap the sentinel.
abbrev pub user_known : Result Database → Result Bool
user_known (ok _) = ok true
user_known (err e) = if is_not_found e then ok false else err e

unfoldable pub check_username : Store → Text → Result Bool
check_username s username = user_known (get_by_username username s)

-- `GetCredential`: the password, if the user is known and asked for no other database.
abbrev pub stage : Result Database → Binding → Result (Option Text) × Binding
stage (err e) b = (if is_not_found e then ok none else err e, b)
stage (ok db) b =
    if not (is_empty b.requested_db) && not (text_eq b.requested_db db.name)
    then (ok none, b)
    else (ok (some db.password), set_candidate db b)

unfoldable pub get_credential : Store → Text → Binding → Result (Option Text) × Binding
unfolding set_candidate
get_credential s username b = stage (get_by_username username s) b

-- What the MySQL library and the client may do to the binding of one connection, in any order.
pub data Event : Type 0 where
  requests : Text → Event
  looks_up : Text → Event
  finalizes : Text → Event

unfoldable pub step : Store → Event → Binding → Binding
unfolding set_requested_db get_credential finalize
step s (requests name) b = (set_requested_db name b).1
step s (looks_up username) b = (get_credential s username b).1
step s (finalizes username) b = (finalize username b).1

unfoldable pub run : Store → List Event → Binding → Binding
unfolding step
run s [] b = b
run s (e ∷ es) b = run s es (step s e b)
