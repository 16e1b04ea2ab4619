-- ===== src/Server/Handler/Isolation.antt =====
-- server/handler.go: the invariant that keeps a client within its tenant, and its rule for each
-- basic action.
use sqliteproxy.Base.{◌≡◌, refl, subst, Bool, true, false, Text, Option, none, some, All, arith}
use sqliteproxy.Errors.{Error}
use sqliteproxy.Effect.{Result, ok, err, Action}
use sqliteproxy.Server.Action.{pure, fail, ◌>>=◌}
use sqliteproxy.Server.Engine.{Engine, Target, reaches}
use sqliteproxy.Server.Handler.{
  Client, of_result, engine_call, issue, tenant, acquire_conn, require_db, set_session_conn,
  ensure_connection, session_target,
}
use sqliteproxy.Server.Session.{Conn, Tx}
use sqliteproxy.Storage.{Database}

abbrev OwnConn : Database → Option Conn → Type 0
OwnConn d none = Unit
OwnConn d (some k) = k.pool_handle ≡ d.pool.handle

abbrev OwnTx : Database → Option Tx → Type 0
OwnTx d none = Unit
OwnTx d (some t) = t.conn.pool_handle ≡ d.pool.handle

abbrev pub is_some {ℓ} : {A : Type ℓ} → Option A → Bool
is_some none = false
is_some (some a) = true

-- The client is bound to `d`, its connection and its transaction belong to the pool of `d`, the flag
-- says whether there is a transaction, and every statement so far has run on the pool of `d`.
pub record IsIsolated (E : Engine) (d : Database) (c : Client E) : Type 0 where
  pub bound : c.db ≡ some d
  pub own_conn : OwnConn d c.session.db
  pub own_tx : OwnTx d c.session.tx
  pub flagged : c.session.in_transaction ≡ is_some c.session.tx
  pub own_calls : All (λ k. reaches k.0 ≡ d.pool.handle) c.calls

-- The action keeps the client isolated, and a result that it returns is as `P` says.
pub record Ensures (E : Engine) (d : Database) {A : Type 0} (P : A → Type 0)
    (m : Action (Client E) A) : Type 0 where
  pub holds :
      (c : Client E) → IsIsolated E d c → IsIsolated E d (m c).1 × ((a : A) → (m c).0 ≡ ok a → P a)

abbrev pub Any : {A : Type 0} → A → Type 0
Any a = Unit

abbrev pub Own : Database → Target → Type 0
Own d t = reaches t ≡ d.pool.handle

module _ (E : Engine) (d : Database) where
  pub pure-Ensures : {A : Type 0} (P : A → Type 0) (a : A) → P a → Ensures E d P (pure a)
  unfolding pure
  pure-Ensures P a p = record { holds = λ c v. (v, λ b e. subst P (ground arith) p) }

  pub fail-Ensures : {A : Type 0} (P : A → Type 0) (e : Error) → Ensures E d P (fail e)
  unfolding fail
  fail-Ensures P e = record { holds = λ c v. (v, λ a h. absurd (ground arith)) }

  bind_from :
      {A B : Type 0} (Q : A → Type 0) (P : B → Type 0) (r : Result A) (c : Client E)
      (f : A → Action (Client E) B)
      → IsIsolated E d c
      → ((a : A) → r ≡ ok a → Q a)
      → ((a : A) → Q a → Ensures E d P (f a))
      → let after : Result B × Client E = elim r [ ok a ↦ f a c | err e ↦ (err e, c) ] in
        IsIsolated E d after.1 × ((b : B) → after.0 ≡ ok b → P b)
  bind_from Q P (ok a) c f v q rule = (rule a (q a refl)).holds c v
  bind_from Q P (err e) c f v q rule = (v, λ b h. absurd (ground arith))

  pub bind-Ensures :
      {A B : Type 0} (Q : A → Type 0) (P : B → Type 0) (m : Action (Client E) A)
      (f : A → Action (Client E) B)
      → Ensures E d Q m
      → ((a : A) → Q a → Ensures E d P (f a))
      → Ensures E d P (m >>= f)
  unfolding ◌>>=◌
  bind-Ensures Q P m f first rule = record {
    holds = λ c v. bind_from Q P (m c).0 (m c).1 f (first.holds c v).0 (first.holds c v).1 rule;
  }

  -- A statement on the tenant's pool.
  pub issue-Ensures :
      {A : Type 0} (t : Target) (sql : Text) (m : E.State → Result A × E.State)
      → Own d t
      → Ensures E d Any (issue E t sql m)
  unfolding issue
  issue-Ensures t sql m own = record {
    holds = λ c v. (
      record {
        bound = v.bound;
        own_conn = v.own_conn;
        own_tx = v.own_tx;
        flagged = v.flagged;
        own_calls = (own, v.own_calls);
      },
      λ a e. tt,
    );
  }

  pub engine_call-Ensures :
      {A : Type 0} (m : E.State → Result A × E.State) → Ensures E d Any (engine_call E m)
  unfolding engine_call
  engine_call-Ensures m = record {
    holds = λ c v. (
      record {
        bound = v.bound;
        own_conn = v.own_conn;
        own_tx = v.own_tx;
        flagged = v.flagged;
        own_calls = v.own_calls;
      },
      λ a e. tt,
    );
  }

  pub of_result-Ensures : {A : Type 0} (r : Result A) → Ensures E d Any (of_result E r)
  unfolding of_result
  of_result-Ensures r = record { holds = λ c v. (v, λ a e. tt) }

  pub tenant-Ensures : Ensures E d (λ x. x ≡ d) (tenant E)
  unfolding tenant
  tenant-Ensures = record { holds = λ c v. ground (arith, v) }

  pub session_target-Ensures : Ensures E d (Own d) (session_target E)
  unfolding session_target
  session_target-Ensures = record { holds = λ c v. (ground arith, λ a e. ground arith) }

  pub ensure_connection-Ensures : Ensures E d Any (ensure_connection E)
  unfolding ensure_connection acquire_conn ◌>>=◌ tenant require_db engine_call set_session_conn
  ensure_connection-Ensures = record { holds = λ c v. (ground arith, λ a e. tt) }
