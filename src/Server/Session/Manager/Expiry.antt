-- ===== src/Server/Session/Manager/Expiry.antt =====
-- server/session.go, `SessionManager.Cleanup`: which sessions stay.
use sqliteproxy.Base.{
  ℕ, ◌≡◌, ◌+◌, refl, inl, inr, [], ◌∷◌, Text, text_eq_iff, Option, none, some, length, All, arith,
  Bool-cases, if◌then◌else◌,
}
use sqliteproxy.Base.Dict.{lookup}
use sqliteproxy.Server.Session.{Session, close}
use sqliteproxy.Server.Session.Manager.{Manager, cleanup, is_expired, count}

-- A map has one entry for a key.
abbrev pub HasUniqueKeys : Manager → Type 0
HasUniqueKeys [] = Unit
HasUniqueKeys ((k, s) ∷ sm) = (lookup k sm ≡ none) × HasUniqueKeys sm

-- What a clean-up leaves of the entry of a key.
abbrev pub unless_expired : ℕ → ℕ → Option Session → Option Session
unless_expired max_inactive now none = none
unless_expired max_inactive now (some s) = if is_expired max_inactive now s then none else some s

pub cleanup-none :
    (max_inactive now : ℕ) (id : Text) (sm : Manager)
    → lookup id sm ≡ none
    → lookup id (cleanup max_inactive now sm).2 ≡ none
unfolding cleanup lookup
cleanup-none m now id [] h = refl
cleanup-none m now id ((j, s) ∷ sm) h = ground (arith, cleanup-none m now id sm)

pub cleanup-lookup :
    (max_inactive now : ℕ) (sm : Manager)
    → HasUniqueKeys sm
    → (id : Text)
    → lookup id (cleanup max_inactive now sm).2 ≡ unless_expired max_inactive now (lookup id sm)
unfolding cleanup lookup
cleanup-lookup m now [] u id = refl
cleanup-lookup m now ((j, s) ∷ sm) u id =
    ground (arith, text_eq_iff j id, cleanup-lookup m now sm u.1 id, cleanup-none m now id sm, u.0)

-- A session that holds nothing of the engine.
abbrev pub IsReleased : Session → Type 0
IsReleased s = (s.tx ≡ none) × (s.db ≡ none)

close-IsReleased : (s : Session) → IsReleased (close none none s).1
unfolding close
close-IsReleased s = ground arith

cleanup-IsReleased :
    (max_inactive now : ℕ) (sm : Manager) → All IsReleased (cleanup max_inactive now sm).0
unfolding cleanup
cleanup-IsReleased m now [] = tt
cleanup-IsReleased m now ((j, s) ∷ sm) = elim (Bool-cases (is_expired m now s)) [
  | inl h ↦ rw (h, cleanup) (close-IsReleased s, cleanup-IsReleased m now sm)
  | inr h ↦ rw (h, cleanup) (cleanup-IsReleased m now sm)
]

cleanup-count :
    (max_inactive now : ℕ) (sm : Manager)
    → ((cleanup max_inactive now sm).1 + count (cleanup max_inactive now sm).2 ≡ count sm)
      × (length (cleanup max_inactive now sm).0 ≡ (cleanup max_inactive now sm).1)
unfolding cleanup
cleanup-count m now [] = (refl, refl)
cleanup-count m now ((j, s) ∷ sm) = ground (arith, cleanup-count m now sm)

-- A clean-up of a map with one entry for a key keeps exactly the sessions that have been active within
-- the bound, unchanged; the number that it returns is that of the sessions it removes, and each of
-- these is left with no transaction and no connection.
pub cleanup_keeps :
    (max_inactive now : ℕ) (sm : Manager)
    → HasUniqueKeys sm
    → ((id : Text)
        → lookup id (cleanup max_inactive now sm).2
          ≡ unless_expired max_inactive now (lookup id sm))
      × All IsReleased (cleanup max_inactive now sm).0
      × ((cleanup max_inactive now sm).1 + count (cleanup max_inactive now sm).2 ≡ count sm)
      × (length (cleanup max_inactive now sm).0 ≡ (cleanup max_inactive now sm).1)
cleanup_keeps m now sm u = (
  cleanup-lookup m now sm u,
  cleanup-IsReleased m now sm,
  (cleanup-count m now sm).0,
  (cleanup-count m now sm).1,
)
