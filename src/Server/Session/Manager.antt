-- ===== src/Server/Session/Manager.antt =====
-- server/session.go, `SessionManager`: the sessions by their ids. The manager drops the errors of
-- the sessions that it closes; they do not change what closing leaves.
pub mod Expiry
pub mod Contract
pub mod Refinement
use sqliteproxy.Base.{
  ℕ, ◌+◌, ◌-◌, Bool, true, false, not, [], ◌∷◌, List, Text, Option, none, some, length, ltb,
  if◌then◌else◌,
}
use sqliteproxy.Base.Dict.{Dict, lookup, insert, delete}
use sqliteproxy.Server.Session.{Session, new_session, close}

abbrev pub Manager : Type 0
Manager = Dict Session

-- `Create`
unfoldable pub create : Text → ℕ → Manager → Session × Manager
unfolding insert
create id now sm = (new_session id now, insert id (new_session id now) sm)

-- `Get`
unfoldable pub get : Text → Manager → Option Session
unfolding lookup
get id sm = lookup id sm

-- `Remove`: the session that it closes, as it is left, and the manager.
unfoldable pub remove : Text → Manager → Option Session × Manager
unfolding lookup delete close
remove id sm = elim (lookup id sm) [
  | none ↦ (none, sm)
  | some s ↦ (some (close none none s).1, delete id sm)
]

-- `Count`
abbrev pub count : Manager → ℕ
count sm = length sm

-- `now.Sub(session.LastActiveAt) > maxInactive`, for a bound that is not negative.
abbrev pub is_expired : ℕ → ℕ → Session → Bool
is_expired max_inactive now s = ltb max_inactive (now - s.last_active_at)

-- `Cleanup`: the sessions that it closes, as they are left, their number, and the manager. The
-- program goes through the map in any order; each entry is treated on its own.
unfoldable pub cleanup : ℕ → ℕ → Manager → List Session × ℕ × Manager
unfolding close
cleanup max_inactive now [] = ([], 0, [])
cleanup max_inactive now ((id, s) ∷ sm) =
    let (closed, removed, left) = cleanup max_inactive now sm in
    if is_expired max_inactive now s
    then ((close none none s).1 ∷ closed, removed + 1, left)
    else (closed, removed, (id, s) ∷ left)
