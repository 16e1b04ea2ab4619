-- ===== src/Server/Session/Manager/Contract.antt =====
-- server/session.go, `SessionManager`: its calls, and their contract, which is about a roster of what is
-- known of each session. A session that the map holds changes as its methods are called on the pointer
-- that `Create` or `Get` has returned.
use sqliteproxy.Base.{
  ℕ, ◌+◌, Bool, true, false, not, [], ◌∷◌, List, Text, Option, none, some, ltb, if◌then◌else◌,
}
use sqliteproxy.Base.Dict.{Dict, lookup, insert}
use sqliteproxy.Base.Dict.Entries.{keep, tally, other_than}
use sqliteproxy.Server.Session.{Session, Conn, Tx}
use sqliteproxy.Server.Session.Laws
use sqliteproxy.Server.Session.Laws.{
  step, binds, sets_variable, sets_database, begins, commits, rolls_back, sets_connection, closes,
}
use sqliteproxy.Server.Session.Manager.{Manager, create, get, remove, count, cleanup}

-- What the contract knows of a session.
pub record Item : Type 0 where
  pub last_active : ℕ
  pub bound : Bool
  pub tx : Option Tx
  pub conn : Option Conn

-- A call of the manager, or of a method of the session that it holds under an id, with the time where
-- the clock is read.
pub data Call : Type 0 where
  creates : Text → ℕ → Call
  gets : Text → Call
  acts : Text → ℕ → Laws.Call → Call
  removes : Text → Call
  counts : Call
  cleans : ℕ → ℕ → Call

-- What a call returns, a session as it is known; for a removal, as it is left.
pub data Answer : Type 0 where
  created : Item → Answer
  found : Option Item → Answer
  acted : Answer
  removed : Option Item → Answer
  counted : ℕ → Answer
  cleaned : ℕ → Answer

abbrev pub is_some {ℓ} : {A : Type ℓ} → Option A → Bool
is_some none = false
is_some (some a) = true

abbrev pub view : Session → Item
view s = record {
  last_active = s.last_active_at;
  bound = is_some s.bound_db;
  tx = s.tx;
  conn = s.db;
}

abbrev pub view_option : Option Session → Option Item
view_option none = none
view_option (some s) = some (view s)

unfoldable pub act_on : Option Session → Text → ℕ → Laws.Call → Manager → Manager
unfolding insert step
act_on none id now k sm = sm
act_on (some s) id now k sm = insert id (step now k s) sm

unfoldable pub call : Call → Manager → Answer × Manager
unfolding create get remove cleanup lookup act_on
call (creates id now) sm = let (s, after) = create id now sm in (created (view s), after)
call (gets id) sm = (found (view_option (get id sm)), sm)
call (acts id now k) sm = (acted, act_on (lookup id sm) id now k sm)
call (removes id) sm = let (s, after) = remove id sm in (removed (view_option s), after)
call counts sm = (counted (count sm), sm)
call (cleans max_inactive now) sm =
    let (closed, number, after) = cleanup max_inactive now sm in (cleaned number, after)

-- What a method makes of a session: a transaction and a connection are had and given up, and every call
-- that does its work counts as activity, but for those about the connection.
abbrev pub effect : ℕ → Laws.Call → Item → Item
effect now (binds none) i = i
effect now (binds (some d)) i = if i.bound then i else record i { bound = true; last_active = now }
effect now (sets_variable k v) i = record i { last_active = now }
effect now (sets_database name) i = record i { last_active = now }
effect now (begins t) i = record i { tx = some t; last_active = now }
effect now (commits e) i = if is_some i.tx then record i { tx = none; last_active = now } else i
effect now (rolls_back e) i = if is_some i.tx then record i { tx = none; last_active = now } else i
effect now (sets_connection c) i = record i { conn = some c }
effect now (closes a b) i = record i { tx = none; conn = none }

abbrev pub Contract : Type 0
Contract = Dict Item

-- A session is stale when more than the bound has passed since it was last active.
abbrev pub is_stale : ℕ → ℕ → Text → Item → Bool
is_stale max_inactive now id i = ltb (i.last_active + max_inactive) now

abbrev pub is_fresh : ℕ → ℕ → Text → Item → Bool
is_fresh max_inactive now id i = not (is_stale max_inactive now id i)

abbrev pub released : Option Item → Option Item
released none = none
released (some i) = some (record i { tx = none; conn = none })

unfoldable pub replaced : Option Item → Text → ℕ → Laws.Call → Contract → Contract
unfolding keep
replaced none id now k r = r
replaced (some i) id now k r = (id, effect now k i) ∷ keep (other_than id) r

unfoldable pub promise : Call → Contract → Answer × Contract
unfolding keep tally lookup replaced
promise (creates id now) r =
    let i : Item = record { last_active = now; bound = false; tx = none; conn = none } in
    (created i, (id, i) ∷ keep (other_than id) r)
promise (gets id) r = (found (lookup id r), r)
promise (acts id now k) r = (acted, replaced (lookup id r) id now k r)
promise (removes id) r = (removed (released (lookup id r)), keep (other_than id) r)
promise counts r = (counted (tally (λ k i. true) r), r)
promise (cleans max_inactive now) r =
    (cleaned (tally (is_stale max_inactive now) r), keep (is_fresh max_inactive now) r)

unfoldable pub answers : List Call → Manager → List Answer
unfolding call
answers [] sm = []
answers (k ∷ ks) sm = let (a, after) = call k sm in a ∷ answers ks after

unfoldable pub promises : List Call → Contract → List Answer
unfolding promise
promises [] r = []
promises (k ∷ ks) r = let (a, after) = promise k r in a ∷ promises ks after
