-- ===== src/Server/Binding/Handshake.antt =====
-- server/auth.go: whom a connection can be bound to, over every sequence of handshake calls.
use sqliteproxy.Base.{
  ◌≡◌, refl, sym, subst, ◌⊎◌, Bool, true, false, [], ◌∷◌, List, Text, Option, none, some, text_eq,
  text_eq_iff, if◌then◌else◌, is_empty_iff, arith,
}
use sqliteproxy.Errors.{db_access_denied}
use sqliteproxy.Effect.{Result, ok, err}
use sqliteproxy.Server.Binding.{
  Binding, unbound, Event, requests, looks_up, finalizes, step, run, set_requested_db, finalize,
  stage, set_candidate, finalize_candidate,
}
use sqliteproxy.Storage.Consistency.{IsConsistent, get-get_by_username}
use sqliteproxy.Storage.Registry.{get_by_username}
use sqliteproxy.Storage.{Database, Store}

-- A database that the registry holds under its own user name.
abbrev pub IsRegistered : Store → Option Database → Type 0
IsRegistered s none = Unit
IsRegistered s (some db) = get_by_username db.username s ≡ ok db

abbrev pub is_bound : Option Database → Bool
is_bound none = false
is_bound (some db) = true

pub record IsSound (s : Store) (b : Binding) : Type 0 where
  pub staged : IsRegistered s b.candidate
  pub bound : IsRegistered s b.database
  pub complete : b.finalized ≡ is_bound b.database

stage-IsSound :
    (s : Store) (r : Result Database) (b : Binding)
    → ((db : Database) → r ≡ ok db → get_by_username db.username s ≡ ok db)
    → IsSound s b
    → IsSound s (stage r b).1
unfolding set_candidate
stage-IsSound s (err e) b found v = v
stage-IsSound s (ok db) b found v = ground (arith, found db refl)

found_registered :
    (s : Store) (c : IsConsistent s) (u : Text) (db : Database)
    → get_by_username u s ≡ ok db
    → get_by_username db.username s ≡ ok db
found_registered s c u db h =
    subst (λ n. get_by_username n s ≡ ok db) (sym ((get-get_by_username s c).1 u db h).0) h

finalize_candidate-IsSound :
    (s : Store) (u : Text) (o : Option Database) (b : Binding)
    → IsRegistered s o
    → IsSound s b
    → IsSound s (finalize_candidate u o b).1
finalize_candidate-IsSound s u none b r v = v
finalize_candidate-IsSound s u (some db) b r v = ground arith

if-IsSound :
    (s : Store) (test : Bool) (x y : Result (Option Database) × Binding)
    → IsSound s x.1
    → IsSound s y.1
    → IsSound s (if test then x else y).1
if-IsSound s true x y p q = p
if-IsSound s false x y p q = q

-- Each call keeps every database that the binding holds registered under its own user name, and the
-- binding finalized exactly when it holds one.
step-IsSound :
    (s : Store) (c : IsConsistent s) (e : Event) (b : Binding)
    → IsSound s b
    → IsSound s (step s e b)
unfolding step
step-IsSound s c (requests name) b v = ground arith
step-IsSound s c (looks_up u) b v =
    stage-IsSound s (get_by_username u s) b (found_registered s c u) v
step-IsSound s c (finalizes u) b v =
    if-IsSound s b.finalized _ _ v (finalize_candidate-IsSound s u b.candidate b v.staged v)

-- Over a consistent registry, every sequence of handshake calls from a sound binding leaves a sound
-- one: the databases it holds are registered under their own user names, and it is finalized exactly
-- when it is bound to one.
pub run-IsSound :
    (s : Store) (c : IsConsistent s) (es : List Event) (b : Binding)
    → IsSound s b
    → IsSound s (run s es b)
unfolding run
run-IsSound s c [] b v = v
run-IsSound s c (e ∷ es) b v = run-IsSound s c es (step s e b) (step-IsSound s c e b v)

finalize_named :
    (s : Store) (u : Text) (o : Option Database) (b : Binding) (r : Option Database)
    → IsRegistered s o
    → (finalize_candidate u o b).0 ≡ ok r
    → (db : Database) × (r ≡ some db)
      × (get_by_username u s ≡ ok db)
      × ((b.requested_db ≡ []) ⊎ (b.requested_db ≡ db.name))
finalize_named s u none b r registered h = absurd (ground arith)
finalize_named s u (some db) b r registered h =
    let same : db.username ≡ u = ground (arith, text_eq_iff db.username u) in
    (
      db,
      ground arith,
      subst (λ n. get_by_username n s ≡ ok db) same registered,
      ground (arith, text_eq_iff b.requested_db db.name, is_empty_iff b.requested_db),
    )

finalize_open :
    (s : Store) (u : Text) (b : Binding) (r : Option Database)
    → IsRegistered s b.candidate
    → b.finalized ≡ false
    → (finalize u b).0 ≡ ok r
    → (db : Database) × (r ≡ some db)
      × (get_by_username u s ≡ ok db)
      × ((b.requested_db ≡ []) ⊎ (b.requested_db ≡ db.name))
unfolding finalize
finalize_open s u b r registered fresh h =
    finalize_named s u b.candidate b r registered (ground arith)

-- Whatever handshake calls a connection has made, over a consistent registry: when an open binding
-- is finalized for a user, the registry has the bound database under that user's name, and it is
-- the database that the connection asked for if it asked for one.
pub finalize_isolates :
    (s : Store) (es : List Event) (u : Text) (r : Option Database)
    → IsConsistent s
    → (run s es unbound).finalized ≡ false
    → (finalize u (run s es unbound)).0 ≡ ok r
    → (db : Database) × (r ≡ some db)
      × (get_by_username u s ≡ ok db)
      × (((run s es unbound).requested_db ≡ []) ⊎ ((run s es unbound).requested_db ≡ db.name))
finalize_isolates s es u r c fresh h =
    let v = run-IsSound s c es unbound (record { staged = tt; bound = tt; complete = refl }) in
    finalize_open s u (run s es unbound) r v.staged fresh h

step_bound :
    (s : Store) (x : Event) (b : Binding) (db : Database)
    → b.finalized ≡ true
    → b.database ≡ some db
    → ((step s x b).finalized ≡ true) × ((step s x b).database ≡ some db)
unfolding step
step_bound s (requests name) b db f e = ground arith
step_bound s (looks_up u) b db f e = ground arith
step_bound s (finalizes u) b db f e = ground arith

-- A finalized binding keeps its database through every later call, and refuses a request for any
-- other database.
pub run_bound :
    (s : Store) (es : List Event) (b : Binding) (db : Database)
    → b.finalized ≡ true
    → b.database ≡ some db
    → ((run s es b).finalized ≡ true)
      × ((run s es b).database ≡ some db)
      × ((name : Text)
          → (set_requested_db name (run s es b)).0
            ≡ (if text_eq name db.name then none else some (db_access_denied name)))
unfolding run set_requested_db
run_bound s [] b db f e = (f, e, λ name. ground arith)
run_bound s (x ∷ es) b db f e =
    let kept = step_bound s x b db f e in run_bound s es (step s x b) db kept.0 kept.1
