-- ===== src/Examples/Servers.antt =====
-- server/ and proxy.go: the theorems on the clients of one tenant.
use sqliteproxy.Server.Handler.Reconstruct.{rebuild}
use sqliteproxy.Errors.{external}
use sqliteproxy.Base.{
  ℕ, suc, ◌≡◌, ◌≢◌, refl, ◌⊎◌, true, [], ◌∷◌, List, Text, codes, text_eq, none, some, if◌then◌else◌,
  arith, ◌==◌, All,
}
use sqliteproxy.Effect.{Result, ok, err}
use sqliteproxy.Examples.Stores.{one, one-IsConsistent, tenant}
use sqliteproxy.Server.Binding
use sqliteproxy.Server.Binding.{
  Binding, Event, requests, looks_up, finalizes, unbound, set_requested_db,
}
use sqliteproxy.Server.Binding.Handshake.{finalize_isolates, run-IsSound, IsSound}
use sqliteproxy.Server.Connection.Isolation.{handle_connection-isolates}
use sqliteproxy.Server.Connection.{handle_connection}
use sqliteproxy.Server.Engine.{Engine, ColumnInfo, Cell}
use sqliteproxy.Server.Handler.Commands.{serve-IsIsolated}
use sqliteproxy.Server.Handler.Isolation.{IsIsolated}
use sqliteproxy.Server.Handler.Marker.Modify.{HasNoBlank}
use sqliteproxy.Server.Handler.Reconstruct.Ignored.{modify_ignored}
use sqliteproxy.Server.Handler.Reconstruct.{rebuild}
use sqliteproxy.Server.Handler.Marker.{Parts, parse_marker, reconstruct_marker}
use sqliteproxy.Server.Handler.Protocol.{
  Command, com_query, com_prepare, com_init_db, com_fields, serve,
}
use sqliteproxy.Server.Handler.{Client, Translator}
use sqliteproxy.Server.Session.Laws
use sqliteproxy.Server.Session.Laws.{
  IsCoherent, run-IsCoherent, run_bound-bind, begins, rolls_back, binds, closes, Call,
}
use sqliteproxy.Server.Session.Manager.{Manager}
use sqliteproxy.Server.Session.{Session, new_session, Tx}
use sqliteproxy.Server.Statement.{Parser, begin_stmt}
use sqliteproxy.Storage.Registry.{get_by_username}
use sqliteproxy.Storage.{Database}

-- An engine on which every statement succeeds, and which counts what it hands out.
abbrev pub engine : Engine
engine = record {
  State = ℕ;
  ResultSet = List (List Cell);
  Args = List Text;
  acquire = λ h s. (ok s, suc s);
  begin_tx = λ k s. (ok s, suc s);
  commit_tx = λ t s. (none, s);
  rollback_tx = λ t s. (none, s);
  close_conn = λ k s. (none, s);
  query = λ t sql s. (ok [], s);
  exec = λ t sql s. (ok (1, 0), s);
  prepare = λ t sql s. (ok s, suc s);
  column_count = λ n s. (ok 1, s);
  stmt_query = λ n args s. (ok [], s);
  stmt_exec = λ n args s. (ok (1, 0), s);
  stmt_close = λ n s. (none, s);
  table_info = λ t sql s. (ok [], s);
  names = λ t sql s. (ok [], s);
  count_rows = λ t sql name s. (ok 0, s);
  build = λ columns cells. ok cells;
}

abbrev translator : Translator
translator = record { translate = λ t. t; translate_restored = λ t. t }

-- A parser that takes every text for BEGIN.
abbrev parser : Parser
parser t = ok (record { kind = begin_stmt; text = t; restored = ok t } ∷ [])

abbrev stamp : ℕ → Text
stamp now = codes "t"

abbrev handshake : List Event
handshake = requests (codes "db_1a") ∷ looks_up (codes "u_1b") ∷ []

abbrev commands : List (ℕ × Command engine)
commands =
    (4, com_query (codes "BEGIN"))
    ∷ (5, com_prepare (codes "SELECT ?"))
    ∷ (6, com_init_db (codes "other"))
    ∷ (7, com_fields (codes "users"))
    ∷ []

abbrev connected : Result (Unit {0}) × Client engine
connected =
    handle_connection engine translator parser stamp one handshake (codes "1") (codes "u_1b") 3
      commands 0

handle_connection-isolates_example :
    (d : Database) × (get_by_username (codes "u_1b") one ≡ ok d)
    × (((Binding.run one handshake unbound).requested_db ≡ [])
        ⊎ ((Binding.run one handshake unbound).requested_db ≡ d.name))
    × IsIsolated engine d connected.1
unfolding handle_connection Binding.run get_by_username text_eq sqliteproxy.Server.Handler.finalize
    sqliteproxy.Server.Connection.new_client
handle_connection-isolates_example =
    handle_connection-isolates engine translator parser stamp one handshake (codes "1")
      (codes "u_1b") 3 commands 0 one-IsConsistent refl refl

abbrev pub client : Client engine
client = record {
  session = new_session (codes "1") 3;
  binding = unbound;
  db = some tenant;
  engine = 0;
  clock = 3;
  calls = [];
}

client-IsIsolated : IsIsolated engine tenant client
client-IsIsolated = record {
  bound = refl;
  own_conn = tt;
  own_tx = tt;
  flagged = refl;
  own_calls = tt;
}

serve-IsIsolated_example :
    IsIsolated engine tenant (serve engine translator parser stamp commands client)
serve-IsIsolated_example =
    serve-IsIsolated engine tenant translator parser stamp commands client client-IsIsolated

finalize_isolates_example :
    (db : Database) × (some tenant ≡ some db)
    × (get_by_username (codes "u_1b") one ≡ ok db)
    × (((Binding.run one handshake unbound).requested_db ≡ [])
        ⊎ ((Binding.run one handshake unbound).requested_db ≡ db.name))
unfolding Binding.run get_by_username text_eq
finalize_isolates_example =
    finalize_isolates one handshake (codes "u_1b") (some tenant) one-IsConsistent refl refl

abbrev bound : Binding
bound = record {
  requested_db = [];
  candidate = some tenant;
  finalized = true;
  database = some tenant;
}

run-IsSound_example : IsSound one (Binding.run one handshake unbound)
run-IsSound_example =
    run-IsSound one one-IsConsistent handshake unbound
      (record { staged = tt; bound = tt; complete = refl })

abbrev columns : List ColumnInfo
columns =
    record {
      name = codes "id";
      type = codes "INTEGER";
      not_null = 1;
      default = none;
      primary_key = 1;
    }
    ∷ record {
      name = codes "name";
      type = codes "TEXT";
      not_null = 0;
      default = some (codes "'x'");
      primary_key = 0;
    }
    ∷ []

no_blank : HasNoBlank (codes "users")
no_blank = ground arith

no_modify : All (λ i. i.name ≢ codes "MODIFY") columns
no_modify = (λ h. absurd (ground arith), (λ h. absurd (ground arith), tt))

modify_ignored_example :
    (p q : Parts) × (parse_marker
        (reconstruct_marker (codes "users") (codes "name") (codes "VARCHAR(9)"))
      ≡ some p)
    × (parse_marker (reconstruct_marker (codes "users") (codes "id") (codes "TEXT")) ≡ some q)
    × (rebuild engine translator 1 p columns ≡ rebuild engine translator 1 q columns)
modify_ignored_example =
    modify_ignored engine translator 1 (codes "users") (codes "name") (codes "VARCHAR(9)")
      (codes "id") (codes "TEXT") columns no_blank no_modify

abbrev tx : Tx
tx = record { number = 1; conn = record { number = 0; pool_handle = 1 } }

abbrev session_calls : List (ℕ × Call)
session_calls = (4, binds (some tenant)) ∷ (5, begins tx) ∷ (6, rolls_back none) ∷ []

run-IsCoherent_example : IsCoherent (Laws.run session_calls (new_session (codes "1") 3))
run-IsCoherent_example = run-IsCoherent (codes "1") 3 session_calls

abbrev owned : Session
owned = record (new_session (codes "1") 3) { bound_db = some tenant }

abbrev manager : Manager
manager = (codes "1", owned) ∷ (codes "2", new_session (codes "2") 90) ∷ []

-- An engine that executes one statement, and refuses the others.
abbrev pub refusing : Engine
refusing = record engine {
  exec = λ t sql s. if s == 0 then (ok (1, 0), 1) else (err (external (codes "disk full")), s);
}

abbrev refused_client : Client refusing
refused_client = record {
  session = new_session (codes "1") 3;
  binding = unbound;
  db = some tenant;
  engine = 0;
  clock = 3;
  calls = [];
}

abbrev change : Parts
change = record {
  table_name = codes "users";
  column_name = codes "name";
  column_def = codes "TEXT";
}
