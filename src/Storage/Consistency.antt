-- ===== src/Storage/Consistency.antt =====
-- storage/store.go: the laws of the registry and its two maps.
use sqliteproxy.Base.{
  ◌≡◌, inl, inr, false, List, Text, Option, none, some, text_eq, text_eq_iff, if◌then◌else◌, arith,
  Bool-cases,
}
use sqliteproxy.Base.Dict.{lookup, insert, lookup-insert}
use sqliteproxy.Errors.{Error, closed}
use sqliteproxy.Effect.{ok, err}
use sqliteproxy.Sqlite.Interface.{Host}
use sqliteproxy.Storage.Registry.{publish, get, get_by_username, export, list, close}
use sqliteproxy.Storage.{Database, Store}

-- Each map's entries stand under their own key, and in the other map too.
pub record IsConsistent (s : Store) : Type 0 where
  pub names :
      (n : Text) (db : Database)
      → lookup n s.by_name ≡ some db
      → (db.name ≡ n) × (lookup db.username s.by_user ≡ some db)
  pub users :
      (u : Text) (db : Database)
      → lookup u s.by_user ≡ some db
      → (db.username ≡ u) × (lookup db.name s.by_name ≡ some db)

-- What a successful `publishLocked` has done.
abbrev pub Published : Database → Store → Store → Type 0
Published db s t =
    (lookup db.name s.by_name ≡ none)
    × (lookup db.username s.by_user ≡ none)
    × (t ≡ record s {
      by_name = insert db.name db s.by_name;
      by_user = insert db.username db s.by_user;
    })

pub publish-Published : (db : Database) (s t : Store) → publish db s ≡ ok t → Published db s t
unfolding publish
publish-Published db s t h = ground arith

-- A successful `publishLocked` on a store whose two maps agree leaves a store whose maps agree.
pub publish-IsConsistent :
    (db : Database) (s t : Store) → publish db s ≡ ok t → IsConsistent s → IsConsistent t
publish-IsConsistent db s t h c =
    let (no_name, no_user, e) = publish-Published db s t h in
    rw e (record {
      names = λ n d found. ground (
        arith,
        lookup-insert db.name n db s.by_name,
        lookup-insert db.username d.username db s.by_user,
        text_eq_iff db.name n,
        text_eq_iff db.username d.username,
        c.names n d,
      );
      users = λ u d found. ground (
        arith,
        lookup-insert db.username u db s.by_user,
        lookup-insert db.name d.name db s.by_name,
        text_eq_iff db.username u,
        text_eq_iff db.name d.name,
        c.users u d,
      );
    })

-- After a successful `publishLocked` on an open store, `Get` and `GetByUsername` return the new
-- database under its own keys, and under any other key what they returned before.
pub get-publish :
    (db : Database) (s t : Store) (k : Text)
    → publish db s ≡ ok t
    → s.closed ≡ false
    → (get k t ≡ (if text_eq db.name k then ok db else get k s))
      × (get_by_username k t ≡ (if text_eq db.username k then ok db else get_by_username k s))
unfolding get get_by_username
get-publish db s t k h open_store =
    let (_, _, e) = publish-Published db s t h in
    rw e (
      ground (arith, lookup-insert db.name k db s.by_name),
      ground (arith, lookup-insert db.username k db s.by_user),
    )

-- In a consistent store a database that `Get` returns carries the name asked for, and
-- `GetByUsername` finds it by its user name; the same holds the other way round.
pub get-get_by_username :
    (s : Store)
    → IsConsistent s
    → ((n : Text) (db : Database)
        → get n s ≡ ok db
        → (db.name ≡ n) × (get_by_username db.username s ≡ ok db))
      × ((u : Text) (db : Database)
          → get_by_username u s ≡ ok db
          → (db.username ≡ u) × (get db.name s ≡ ok db))
unfolding get get_by_username
get-get_by_username s c =
    (λ n db h. ground (arith, c.names n db), λ u db h. ground (arith, c.users u db))

-- In a consistent store, a database that `Get` returns carries the name asked for, and
-- `GetByUsername` returns it for its own user name.
pub get-agrees :
    (s : Store) (n : Text) (db : Database)
    → IsConsistent s
    → get n s ≡ ok db
    → (db.name ≡ n) × (get_by_username db.username s ≡ ok db)
get-agrees s n db c h = (get-get_by_username s c).0 n db h

module _ (host : Host) (order : List Database → List Database) (result : Option Error) where
  -- After `Close` every lookup, `List` and `Export` fail with `ErrClosed`, and a second `Close`
  -- changes nothing and returns nil.
  pub close_closed :
      (s : Store) (h : host.State) (k : Text)
      → let (_, t, h') = close host order result s h in
        (get k t ≡ err closed)
        × (get_by_username k t ≡ err closed)
        × (export k t ≡ err closed)
        × (list order t ≡ err closed)
        × (close host order result t h' ≡ (none, t, h'))
  unfolding get get_by_username export list close
  close_closed s h k = ground arith

  pub close-IsConsistent :
      (s : Store) (h : host.State) → IsConsistent s → IsConsistent (close host order result s h).1
  unfolding close lookup
  close-IsConsistent s h c = elim (Bool-cases s.closed) [
    | inl done ↦ simp done c
    | inr live ↦ simp live (record { names = λ n d. ground arith; users = λ n d. ground arith })
  ]
