-- ===== src/Commands/Terminal/Screen.antt =====
-- cmd/sqlite-client/main.go: the texts of the client, its completions, and what a session prints.
use sqliteproxy.Base.{
  Text, codes, Option, List, [], ◌∷◌, ◌++◌, is_empty, has_prefix, to_upper, to_lower, trim_space,
  if◌then◌else◌,
}
use sqliteproxy.Base.Int.{ℤ, format_int}
use sqliteproxy.Commands.Terminal.{
  Command, quits, helps, versions, statuses, uses, executes, Input, Prompt, prompt_loop,
}
use sqliteproxy.Commands.Terminal.Layout.{Rows, execute_query}
use sqliteproxy.Effect.{Result}

-- The keywords that the completer knows.
abbrev pub keywords : List Text
keywords =
    codes "SELECT"
    ∷ codes "INSERT"
    ∷ codes "UPDATE"
    ∷ codes "DELETE"
    ∷ codes "CREATE"
    ∷ codes "DROP"
    ∷ codes "ALTER"
    ∷ codes "SHOW TABLES"
    ∷ codes "DESCRIBE"
    ∷ codes "FROM"
    ∷ codes "WHERE"
    ∷ codes "AND"
    ∷ codes "OR"
    ∷ codes "ORDER BY"
    ∷ codes "GROUP BY"
    ∷ codes "HAVING"
    ∷ codes "LIMIT"
    ∷ codes "OFFSET"
    ∷ codes "JOIN"
    ∷ codes "LEFT JOIN"
    ∷ codes "RIGHT JOIN"
    ∷ codes "INNER JOIN"
    ∷ codes "ON"
    ∷ codes "AS"
    ∷ codes "SET"
    ∷ codes "VALUES"
    ∷ codes "INTO"
    ∷ codes "BEGIN"
    ∷ codes "COMMIT"
    ∷ codes "ROLLBACK"
    ∷ codes "SAVEPOINT"
    ∷ codes "help"
    ∷ codes "quit"
    ∷ codes "exit"
    ∷ codes "status"
    ∷ codes "version"
    ∷ []

unfoldable pub completions_in : List Text → Text → List Text
unfolding has_prefix to_upper
completions_in [] prefix = []
completions_in (w ∷ ws) prefix =
    let rest = completions_in ws prefix in
    if has_prefix (to_upper prefix) (to_upper w) then w ∷ rest else rest

-- The completer: every keyword that starts with the line, whatever the case of its letters.
unfoldable pub completions : Text → List Text
unfolding to_lower trim_space
completions line = completions_in keywords (to_lower (trim_space line))

abbrev pub version_line : Text
version_line = codes "sqlite-client 1.0.0"

-- `printUsage`
abbrev pub print_usage : List Text
print_usage =
    codes "Usage: sqlite-client [options] [database]"
    ∷ codes ""
    ∷ codes "Options:"
    ∷ codes "  -h, --host HOST      Server host (default: 127.0.0.1)"
    ∷ codes "  -P, --port PORT      Server port (default: 3306)"
    ∷ codes "  -u, --user USER      Username (default: root)"
    ∷ codes "  -p, --password PASS  Password"
    ∷ codes "  --debug              Show query execution time"
    ∷ codes "  -V, --version        Show version"
    ∷ codes "  --help               Show this help"
    ∷ codes ""
    ∷ codes "Examples:"
    ∷ codes "  sqlite-client -h 127.0.0.1 -P 3306 -u admin -p secret mydb"
    ∷ codes "  sqlite-client --debug -u admin mydb"
    ∷ []

-- `printHelp`
abbrev pub print_help : List Text
print_help =
    codes "Commands:"
    ∷ codes "  help, \\h        Show this help"
    ∷ codes "  quit, exit, \\q  Exit the client"
    ∷ codes "  version, \\v     Show version"
    ∷ codes "  status, \\s      Show connection status"
    ∷ codes "  show tables, \\t List all tables"
    ∷ codes "  DESCRIBE table   Show table structure"
    ∷ codes "  USE database     Change current database"
    ∷ codes ""
    ∷ codes "Features:"
    ∷ codes "  Arrow keys       Edit current line (left/right)"
    ∷ codes "  Up/Down arrows   Navigate command history"
    ∷ codes "  Tab              Auto-complete SQL keywords"
    ∷ codes "  Ctrl+C           Cancel current input"
    ∷ codes "  \\ at end of line Continue on next line"
    ∷ codes ""
    ∷ codes "History is saved to ~/.sqlite_history"
    ∷ []

-- `db.Stats()`, as far as the client reads it.
pub record Stats : Type 0 where
  pub open_connections : ℤ
  pub in_use : ℤ
  pub idle : ℤ

-- `printStatus`
unfoldable pub print_status : Text → Stats → List Text
unfolding format_int
print_status history_file stats =
    (codes "Connection:     OK")
    ∷ ((codes "Open conns:     " ++ format_int stats.open_connections)
        ∷ ((codes "In use:         " ++ format_int stats.in_use)
            ∷ ((codes "Idle:           " ++ format_int stats.idle)
                ∷ (if is_empty history_file
                    then []
                    else (codes "History file:   " ++ history_file) ∷ []))))

module _ (query : Text → Result Rows) (exec : Text → Result ℤ) (elapsed : Option Text)
    (history_file : Text) (stats : Stats) where
  -- What a command prints.
  unfoldable pub perform : Command → List Text
  unfolding print_status execute_query
  perform quits = codes "Bye!" ∷ []
  perform helps = print_help
  perform versions = version_line ∷ []
  perform statuses = print_status history_file stats
  perform (uses name) = (codes "Database changed to '" ++ (name ++ codes "'")) ∷ []
  perform (executes statement) = execute_query query exec elapsed statement

  unfoldable pub perform_all : List Command → List Text
  unfolding perform
  perform_all [] = []
  perform_all (c ∷ cs) = perform c ++ perform_all cs

  -- What the commands of a session print, in order.
  unfoldable pub print_session : List Input → Prompt → List Text
  unfolding prompt_loop
  print_session is p = perform_all (prompt_loop is p).0
