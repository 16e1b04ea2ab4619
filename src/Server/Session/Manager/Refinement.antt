-- ===== src/Server/Session/Manager/Refinement.antt =====
-- server/session.go, `SessionManager`: the map of sessions keeps the contract of the manager.
use sqliteproxy.Base.{
  ℕ, ◌≡◌, ◌∙◌, refl, sym, ap, subst, true, [], ◌∷◌, List, Text, Option, none, some, arith, inl, inr,
  Option-cases,
}
use sqliteproxy.Base.Dict.{lookup, insert, delete}
use sqliteproxy.Base.Dict.Entries.{
  keep, tally, other_than, SameEntries, SameEntries-keep, SameEntries-insert, delete-keep,
  keep-absent,
}
use sqliteproxy.Server.Session.{
  Session, new_session, close, bind, commit_transaction, rollback_transaction,
}
use sqliteproxy.Server.Session.Laws
use sqliteproxy.Server.Session.Laws.{
  step, binds, sets_variable, sets_database, begins, commits, rolls_back, sets_connection, closes,
}
use sqliteproxy.Server.Session.Manager.{Manager, create, get, remove, count, cleanup, is_expired}
use sqliteproxy.Server.Session.Manager.Contract.{
  Call, creates, gets, acts, removes, counts, cleans, found, removed, counted, cleaned, view,
  view_option, act_on, call, effect, Contract, is_stale, is_fresh, released, replaced, promise,
  answers, promises,
}

-- The map of sessions as the contract knows them.
abbrev viewed : Manager → Contract
viewed [] = []
viewed ((id, s) ∷ sm) = (id, view s) ∷ viewed sm

lookup-viewed : (id : Text) (sm : Manager) → lookup id (viewed sm) ≡ view_option (lookup id sm)
unfolding lookup
lookup-viewed id [] = refl
lookup-viewed id ((j, s) ∷ sm) = ground (arith, lookup-viewed id sm)

insert-viewed :
    (id : Text) (s : Session) (sm : Manager)
    → viewed (insert id s sm) ≡ insert id (view s) (viewed sm)
unfolding insert
insert-viewed id s [] = refl
insert-viewed id s ((j, t) ∷ sm) = ground (arith, insert-viewed id s sm)

delete-viewed : (id : Text) (sm : Manager) → viewed (delete id sm) ≡ delete id (viewed sm)
unfolding delete
delete-viewed id [] = refl
delete-viewed id ((j, t) ∷ sm) = ground (arith, delete-viewed id sm)

is_expired-is_stale :
    (m now : ℕ) (id : Text) (s : Session) → is_expired m now s ≡ is_stale m now id (view s)
is_expired-is_stale m now id s = ground arith

cleanup-viewed :
    (m now : ℕ) (sm : Manager)
    → (viewed (cleanup m now sm).2 ≡ keep (is_fresh m now) (viewed sm))
      × ((cleanup m now sm).1 ≡ tally (is_stale m now) (viewed sm))
unfolding cleanup keep tally
cleanup-viewed m now [] = (refl, refl)
cleanup-viewed m now ((j, s) ∷ sm) =
    ground (arith, is_expired-is_stale m now j s, cleanup-viewed m now sm)

count-viewed : (sm : Manager) → count sm ≡ tally (λ k i. true) (viewed sm)
unfolding tally
count-viewed [] = refl
count-viewed (e ∷ sm) = ground (arith, count-viewed sm)

view-step : (now : ℕ) (k : Laws.Call) (s : Session) → view (step now k s) ≡ effect now k (view s)
unfolding step bind commit_transaction rollback_transaction close
view-step now (binds none) s = ground arith
view-step now (binds (some d)) s = ground arith
view-step now (sets_variable k v) s = refl
view-step now (sets_database name) s = refl
view-step now (begins t) s = refl
view-step now (commits e) s = ground arith
view-step now (rolls_back e) s = ground arith
view-step now (sets_connection c) s = refl
view-step now (closes a b) s = ground arith

act_on-replaced :
    (o : Option Session) (id : Text) (now : ℕ) (k : Laws.Call) (sm : Manager) (r : Contract)
    → SameEntries (viewed sm) r
    → SameEntries (viewed (act_on o id now k sm)) (replaced (view_option o) id now k r)
unfolding act_on replaced
act_on-replaced none id now k sm r same = same
act_on-replaced (some s) id now k sm r same =
    rw (insert-viewed id (step now k s) sm, view-step now k s)
      (SameEntries-insert id (effect now k (view s)) (viewed sm) r same)

view-close : (s : Session) → some (view (close none none s).1) ≡ released (some (view s))
unfolding close
view-close s = ground arith

remove-viewed :
    (id : Text) (sm : Manager)
    → (view_option (remove id sm).0 ≡ released (lookup id (viewed sm)))
      × (viewed (remove id sm).1 ≡ keep (other_than id) (viewed sm))
unfolding remove
remove-viewed id sm = elim (Option-cases (lookup id sm)) [
  | inl h ↦
      let absent = lookup-viewed id sm ∙ ap view_option h in
      rw (absent, h, remove) (refl, sym (keep-absent id (viewed sm) absent))
  | inr (s, h) ↦
      let there = lookup-viewed id sm ∙ ap view_option h in
      rw (there, h, remove) (view-close s, delete-viewed id sm ∙ delete-keep id (viewed sm))
]

call-promise :
    (k : Call) (sm : Manager) (r : Contract)
    → SameEntries (viewed sm) r
    → ((call k sm).0 ≡ (promise k r).0) × SameEntries (viewed (call k sm).1) (promise k r).1
unfolding call promise create get
call-promise (creates id now) sm r same = (
  refl,
  rw (insert-viewed id (new_session id now) sm)
      (SameEntries-insert id (view (new_session id now)) (viewed sm) r same),
)
call-promise (gets id) sm r same = (ap found (sym (lookup-viewed id sm) ∙ same.lookups id), same)
call-promise (acts id now k) sm r same = (
  refl,
  subst (λ o. SameEntries (viewed (act_on (lookup id sm) id now k sm)) (replaced o id now k r))
      (sym (lookup-viewed id sm) ∙ same.lookups id)
      (act_on-replaced (lookup id sm) id now k sm r same),
)
call-promise (removes id) sm r same =
    let (left, after) = remove-viewed id sm in
    (
      ap removed (left ∙ ap released (same.lookups id)),
      rw after (SameEntries-keep (other_than id) (viewed sm) r same),
    )
call-promise counts sm r same = (ap counted (count-viewed sm ∙ same.tallies (λ k i. true)), same)
call-promise (cleans m now) sm r same =
    let (after, number) = cleanup-viewed m now sm in
    (
      ap cleaned (number ∙ same.tallies _),
      rw after (SameEntries-keep (is_fresh m now) (viewed sm) r same),
    )

answers-from :
    (ks : List Call) (sm : Manager) (r : Contract)
    → SameEntries (viewed sm) r
    → answers ks sm ≡ promises ks r
unfolding answers promises
answers-from [] sm r same = refl
answers-from (k ∷ ks) sm r same =
    let (a, after) = call-promise k sm r same in
    ap (λ x. x ∷ answers ks (call k sm).1) a
    ∙ ap (λ x. (promise k r).0 ∷ x) (answers-from ks (call k sm).1 (promise k r).1 after)

-- Over every sequence of calls from an empty manager, calls of the methods of its sessions among them,
-- `Create`, `Get`, `Remove`, `Count` and `Cleanup` return what the contract promises of a roster that
-- knows when a session was last active and whether it is bound, and its transaction and connection:
-- `Cleanup` drops, and counts, the sessions with more than the bound between their last activity and now,
-- and a removed session is left with neither transaction nor connection.
pub answers-promises : (ks : List Call) → answers ks [] ≡ promises ks []
answers-promises ks =
    answers-from ks [] []
      (record { left_map = tt; right_map = tt; lookups = λ k. refl; tallies = λ c. refl })
