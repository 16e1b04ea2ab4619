-- ===== src/Server/Handler/Commands.antt =====
-- server/handler.go and proxy.go: the rules for the commands, and sequences of commands.
use sqliteproxy.Base.{ℕ, Bool, [], ◌∷◌, List, Text, Option, none, some, arith}
use sqliteproxy.Effect.{Action}
use sqliteproxy.Server.Engine.{Engine}
use sqliteproxy.Server.Handler.Isolation.{
  IsIsolated, Ensures, Any, Own, pure-Ensures, fail-Ensures, bind-Ensures, issue-Ensures,
  engine_call-Ensures, session_target-Ensures, ensure_connection-Ensures,
}
use sqliteproxy.Server.Handler.{Client, Translator, engine_call}
use sqliteproxy.Server.Handler.Tenancy.{select_database-Ensures, if-Ensures}
use sqliteproxy.Server.Handler.Prepared.{
  stmt_prepare, stmt_execute, stmt_close, field_list, bound_only, count_columns, run_query,
  run_exec,
}
use sqliteproxy.Server.Handler.Protocol.{
  Command, com_query, com_prepare, com_execute, com_fields, com_init_db, com_close, com_other,
  command, serve, at_time, note_query,
}
use sqliteproxy.Server.Session
use sqliteproxy.Server.Session.{Session, Conn, Tx}
use sqliteproxy.Server.Statement.{Parser}
use sqliteproxy.Storage.{Database}
use sqliteproxy.Server.Handler.Statements.{handle_query-Ensures}

module _ (E : Engine) (d : Database) (tr : Translator) (parse : Parser) where
  bound_only-Ensures :
      {A : Type 0} (m : Action (Client E) A)
      → Ensures E d Any m
      → Ensures E d Any (bound_only E tr parse m)
  unfolding bound_only
  bound_only-Ensures m p = record { holds = λ c v. rw (v.bound, bound_only) (p.holds c v) }

  count_columns-Ensures :
      (test : Bool) (stmt : ℕ) → Ensures E d Any (count_columns E tr parse test stmt)
  unfolding count_columns engine_call
  count_columns-Ensures test stmt = record { holds = λ c v. (ground arith, λ a e. tt) }

  stmt_prepare-Ensures : (text : Text) → Ensures E d Any (stmt_prepare E tr parse text)
  unfolding stmt_prepare
  stmt_prepare-Ensures text = bound_only-Ensures _ (
      bind-Ensures E d Any Any _ _ (ensure_connection-Ensures E d) λ _ _.
        bind-Ensures E d Any Any _ _ (ensure_connection-Ensures E d) λ _ _.
          bind-Ensures E d (Own d) Any _ _ (session_target-Ensures E d) λ t own.
            bind-Ensures E d Any Any _ _ (issue-Ensures E d t _ _ own) λ stmt _.
              bind-Ensures E d Any Any _ _ (count_columns-Ensures _ stmt)
                λ _ _. pure-Ensures E d Any _ tt)

  run_query-Ensures : (stmt : ℕ) (args : E.Args) → Ensures E d Any (run_query E tr parse stmt args)
  unfolding run_query
  run_query-Ensures stmt args =
      bind-Ensures E d Any Any _ _ (engine_call-Ensures E d _) λ _ _. pure-Ensures E d Any _ tt

  run_exec-Ensures : (stmt : ℕ) (args : E.Args) → Ensures E d Any (run_exec E tr parse stmt args)
  unfolding run_exec
  run_exec-Ensures stmt args =
      bind-Ensures E d Any Any _ _ (engine_call-Ensures E d _) λ _ _. pure-Ensures E d Any _ tt

  stmt_execute-Ensures :
      (o : Option ℕ) (text : Text) (args : E.Args)
      → Ensures E d Any (stmt_execute E tr parse o text args)
  unfolding stmt_execute
  stmt_execute-Ensures none text args = fail-Ensures E d Any _
  stmt_execute-Ensures (some stmt) text args =
      if-Ensures E d _ _ _ (run_query-Ensures stmt args) (run_exec-Ensures stmt args)

  field_list-Ensures : (table : Text) → Ensures E d Any (field_list E tr parse table)
  unfolding field_list
  field_list-Ensures table = bound_only-Ensures _ (
      bind-Ensures E d Any Any _ _ (ensure_connection-Ensures E d) λ _ _.
        bind-Ensures E d (Own d) Any _ _ (session_target-Ensures E d) λ t own.
          bind-Ensures E d Any Any _ _ (issue-Ensures E d t _ _ own)
            λ _ _. pure-Ensures E d Any _ tt)

  stmt_close-Ensures : (o : Option ℕ) → Ensures E d Any (stmt_close E tr parse o)
  unfolding stmt_close
  stmt_close-Ensures none = record { holds = λ c v. (v, λ a e. tt) }
  stmt_close-Ensures (some stmt) = record { holds = λ c v. (ground arith, λ a e. tt) }

  command-Ensures : (k : Command E) → Ensures E d Any (command E tr parse k)
  unfolding command
  command-Ensures (com_query text) =
      bind-Ensures E d Any Any _ _ (handle_query-Ensures E d tr parse text)
        λ _ _. pure-Ensures E d Any tt tt
  command-Ensures (com_prepare text) =
      bind-Ensures E d Any Any _ _ (stmt_prepare-Ensures text) λ _ _. pure-Ensures E d Any tt tt
  command-Ensures (com_execute stmt text args) =
      bind-Ensures E d Any Any _ _ (stmt_execute-Ensures stmt text args)
        λ _ _. pure-Ensures E d Any tt tt
  command-Ensures (com_fields table) =
      bind-Ensures E d Any Any _ _ (field_list-Ensures table) λ _ _. pure-Ensures E d Any tt tt
  command-Ensures (com_close stmt) = stmt_close-Ensures stmt
  command-Ensures (com_other text) = fail-Ensures E d Any _
  command-Ensures (com_init_db name) = select_database-Ensures E d name

  note_query-IsIsolated :
      (stamp : Text) (c : Client E) → IsIsolated E d c → IsIsolated E d (note_query E stamp c)
  unfolding note_query
  note_query-IsIsolated stamp c v = record {
    bound = v.bound;
    own_conn = unfold Session.set_variable in v.own_conn;
    own_tx = unfold Session.set_variable in v.own_tx;
    flagged = unfold Session.set_variable in v.flagged;
    own_calls = v.own_calls;
  }

  at_time-IsIsolated :
      (now : ℕ) (c : Client E) → IsIsolated E d c → IsIsolated E d (at_time E now c)
  unfolding at_time
  at_time-IsIsolated now c v = record {
    bound = v.bound;
    own_conn = v.own_conn;
    own_tx = v.own_tx;
    flagged = v.flagged;
    own_calls = v.own_calls;
  }

  -- A client that is isolated on a database stays so under every sequence of commands: each
  -- statement whose text it sends to the engine goes to the pool of that database, its connection
  -- and its transaction are of that pool, and its transaction flag says whether it has a transaction.
  pub serve-IsIsolated :
      (stamp : ℕ → Text) (ks : List (ℕ × Command E)) (c : Client E)
      → IsIsolated E d c
      → IsIsolated E d (serve E tr parse stamp ks c)
  unfolding serve
  serve-IsIsolated stamp [] c v = v
  serve-IsIsolated stamp ((now, k) ∷ ks) c v = serve-IsIsolated stamp ks _ (
      note_query-IsIsolated (stamp now) _
        ((command-Ensures k).holds (at_time E now c) (at_time-IsIsolated now c v)).0)
