-- ===== src/Server/Session/Laws.antt =====
-- server/session.go: what holds of a session over every sequence of calls.
use sqliteproxy.Base.{
  ℕ, ◌≡◌, ◌↔◌, refl, Bool, true, false, [], ◌∷◌, List, Text, text_eq_iff, Option, none, some, arith,
}
use sqliteproxy.Errors.{Error}
use sqliteproxy.Server.Session.{
  Session, Conn, Tx, new_session, bind, set_variable, set_database, begin_transaction,
  commit_transaction, rollback_transaction, set_connection, close,
}
use sqliteproxy.Storage.{Database}

-- A call that changes a session; the engine's results are part of the call.
pub data Call : Type 0 where
  binds : Option Database → Call
  sets_variable : Text → Text → Call
  sets_database : Text → Call
  begins : Tx → Call
  commits rolls_back : Option Error → Call
  sets_connection : Conn → Call
  closes : Option Error → Option Error → Call

unfoldable pub step : ℕ → Call → Session → Session
unfolding bind set_variable set_database begin_transaction commit_transaction rollback_transaction
    set_connection close
step now (binds db) s = (bind db now s).1
step now (sets_variable k v) s = set_variable k v now s
step now (sets_database name) s = set_database name now s
step now (begins t) s = begin_transaction t now s
step now (commits e) s = (commit_transaction e now s).1
step now (rolls_back e) s = (rollback_transaction e now s).1
step now (sets_connection k) s = set_connection k s
step now (closes a b) s = (close a b s).1

unfoldable pub run : List (ℕ × Call) → Session → Session
unfolding step
run [] s = s
run ((now, k) ∷ ks) s = run ks (step now k s)

abbrev has_tx : Option Tx → Bool
has_tx none = false
has_tx (some t) = true

-- The flag says whether there is a transaction, and a bound session has the user name of its
-- database.
pub record IsCoherent (s : Session) : Type 0 where
  pub flagged : s.in_transaction ≡ has_tx s.tx
  pub named : (d : Database) → s.bound_db ≡ some d → s.username ≡ d.username

step-IsCoherent : (now : ℕ) (k : Call) (s : Session) → IsCoherent s → IsCoherent (step now k s)
unfolding step
step-IsCoherent now (binds db) s v = record {
  flagged = ground (arith, v.flagged);
  named = λ d h. ground (arith, v.named d);
}
step-IsCoherent now (sets_variable k x) s v = record { flagged = v.flagged; named = v.named }
step-IsCoherent now (sets_database name) s v = record { flagged = v.flagged; named = v.named }
step-IsCoherent now (begins t) s v = record { flagged = refl; named = v.named }
step-IsCoherent now (commits e) s v = record {
  flagged = ground (arith, v.flagged);
  named = λ d h. ground (arith, v.named d);
}
step-IsCoherent now (rolls_back e) s v = record {
  flagged = ground (arith, v.flagged);
  named = λ d h. ground (arith, v.named d);
}
step-IsCoherent now (sets_connection k) s v = record { flagged = v.flagged; named = v.named }
step-IsCoherent now (closes a b) s v = record {
  flagged = ground (arith, v.flagged);
  named = λ d h. ground (arith, v.named d);
}

run_keeps : (ks : List (ℕ × Call)) (s : Session) → IsCoherent s → IsCoherent (run ks s)
unfolding run
run_keeps [] s v = v
run_keeps ((now, k) ∷ ks) s v = run_keeps ks (step now k s) (step-IsCoherent now k s v)

-- Over every sequence of calls from a new session, the transaction flag is set exactly when there is
-- a transaction, and a bound session carries the user name of its database.
pub run-IsCoherent :
    (id : Text) (start : ℕ) (ks : List (ℕ × Call)) → IsCoherent (run ks (new_session id start))
run-IsCoherent id start ks =
    run_keeps ks (new_session id start) (record { flagged = refl; named = λ d h. ground arith })

step_bound :
    (now : ℕ) (k : Call) (s : Session) (d : Database)
    → s.bound_db ≡ some d
    → (step now k s).bound_db ≡ some d
unfolding step
step_bound now (binds db) s d h = ground arith
step_bound now (sets_variable k x) s d h = h
step_bound now (sets_database name) s d h = h
step_bound now (begins t) s d h = h
step_bound now (commits e) s d h = ground arith
step_bound now (rolls_back e) s d h = ground arith
step_bound now (sets_connection k) s d h = h
step_bound now (closes a b) s d h = ground arith

run_bound :
    (ks : List (ℕ × Call)) (s : Session) (d : Database)
    → s.bound_db ≡ some d
    → (run ks s).bound_db ≡ some d
unfolding run
run_bound [] s d h = h
run_bound ((now, k) ∷ ks) s d h = run_bound ks (step now k s) d (step_bound now k s d h)

bind_again :
    (s : Session) (d e : Database) (now : ℕ)
    → s.bound_db ≡ some d
    → (((bind (some e) now s).0 ≡ none) ↔ (d.name ≡ e.name)) × ((bind (some e) now s).1 ≡ s)
unfolding bind
bind_again s d e now h = ground (arith, text_eq_iff d.name e.name)

-- A bound session keeps its database through every sequence of calls, and then binding it again is
-- accepted exactly for a database of that name and changes nothing.
pub run_bound-bind :
    (ks : List (ℕ × Call)) (s : Session) (d e : Database) (now : ℕ)
    → s.bound_db ≡ some d
    → ((run ks s).bound_db ≡ some d)
      × (((bind (some e) now (run ks s)).0 ≡ none) ↔ (d.name ≡ e.name))
      × ((bind (some e) now (run ks s)).1 ≡ run ks s)
run_bound-bind ks s d e now h =
    let kept = run_bound ks s d h in
    let again = bind_again (run ks s) d e now kept in (kept, again.0, again.1)
