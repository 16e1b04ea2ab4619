-- ===== src/Commands/Terminal.antt =====
-- cmd/sqlite-client/main.go: the client on a terminal. This file is about the command line and the loop of
-- the prompt; the children are about the statements that it sends and the table of their rows.
pub mod Lines
pub mod Runes
pub mod Layout
pub mod Screen
use sqliteproxy.Base.{
  ℕ, Bool, true, false, not, ◌&&◌, ◌||◌, Text, codes, Option, none, some, List, [], ◌∷◌, ◌++◌,
  text_eq, is_empty, has_prefix, has_suffix, to_lower, trim_space, trim_of, take, length, drop, ◌-◌,
  ◌==◌, if◌then◌else◌,
}
use sqliteproxy.Base.Int.{ℤ, pos}
use sqliteproxy.Commands.Numbers.{sscan_int}

pub record Options : Type 0 where
  pub host : Text
  pub port : ℤ
  pub user : Text
  pub password : Text
  pub database : Text
  pub debug : Bool

unfoldable pub default_options : Options
default_options = record {
  host = codes "127.0.0.1";
  port = pos 3306;
  user = codes "root";
  password = [];
  database = [];
  debug = false;
}

-- What an argument is, by the `switch` of `main`.
pub data Argument : Type 0 where
  host_arg : Argument
  port_arg : Argument
  user_arg : Argument
  password_arg : Argument
  debug_arg : Argument
  version_arg : Argument
  help_arg : Argument
  other_arg : Argument

abbrev is_either : Text → Text → Text → Bool
unfolding text_eq
is_either a b s = text_eq s a || text_eq s b

unfoldable pub argument : Text → Argument
unfolding text_eq
argument s =
    if is_either (codes "-h") (codes "--host") s
    then host_arg
    else if is_either (codes "-P") (codes "--port") s
    then port_arg
    else if is_either (codes "-u") (codes "--user") s
    then user_arg
    else if is_either (codes "-p") (codes "--password") s
    then password_arg
    else if text_eq s (codes "--debug")
    then debug_arg
    else if is_either (codes "-V") (codes "--version") s
    then version_arg
    else if text_eq s (codes "--help")
    then help_arg
    else other_arg

-- `Sscanf` leaves the port as it is where it finds no number.
unfoldable pub with_port : Text → Options → Options
unfolding sscan_int
with_port v o = elim (sscan_int v) [ some n ↦ record o { port = n } | none ↦ o ]

-- The first argument that no option takes is the database.
unfoldable pub with_other : Text → Options → Options
unfolding has_prefix
with_other s o =
    if is_empty o.database && not (has_prefix (codes "-") s) then record o { database = s } else o

-- How the command line ends: a version or a usage is printed and the program exits, or it connects.
pub data Start : Type 0 where
  prints_version : Start
  prints_usage : Start
  connects : Options → Start

-- The loop over the arguments; `taken` is the option that waits for its value.
unfoldable pub scan_args : Option Argument → List Text → Options → Start
unfolding argument with_port with_other
scan_args taken [] o = connects o
scan_args (some host_arg) (v ∷ args) o = scan_args none args (record o { host = v })
scan_args (some port_arg) (v ∷ args) o = scan_args none args (with_port v o)
scan_args (some user_arg) (v ∷ args) o = scan_args none args (record o { user = v })
scan_args (some password_arg) (v ∷ args) o = scan_args none args (record o { password = v })
scan_args (some _) (v ∷ args) o = scan_args none args o
scan_args none (a ∷ args) o = elim (argument a) [
  | debug_arg ↦ scan_args none args (record o { debug = true })
  | version_arg ↦ prints_version
  | help_arg ↦ prints_usage
  | other_arg ↦ scan_args none args (with_other a o)
  | valued ↦ scan_args (some valued) args o
]

-- What the line editor returns: a line, or `ErrPromptAborted`; any other error ends the inputs.
pub data Input : Type 0 where
  typed : Text → Input
  aborted : Input

-- What a line asks for. `executes` is `executeQuery` with a statement, `uses` the change of `database`.
pub data Command : Type 0 where
  quits : Command
  helps : Command
  versions : Command
  statuses : Command
  uses : Text → Command
  executes : Text → Command

abbrev is_quote : ℕ → Bool
is_quote c = c == b'`' || c == b'"' || c == b'\''

unfoldable pub described : ℕ → Text → Command
unfolding trim_space trim_of
described n input = executes (codes "DESCRIBE " ++ trim_of is_quote (trim_space (drop n input)))

-- The `switch` on the lower case of the line.
unfoldable pub command_of : Text → Command
unfolding described to_lower text_eq has_prefix trim_space
command_of input =
    let lower = to_lower input in
    if text_eq lower (codes "quit") || text_eq lower (codes "exit") || text_eq lower (codes "\\q")
    then quits
    else if is_either (codes "help") (codes "\\h") lower
    then helps
    else if is_either (codes "version") (codes "\\v") lower
    then versions
    else if is_either (codes "status") (codes "\\s") lower
    then statuses
    else if has_prefix (codes "use ") lower
    then uses (trim_space (drop 4 input))
    else if is_either (codes "show tables") (codes "\\t") lower
    then executes (codes "SHOW TABLES")
    else if has_prefix (codes "describe ") lower
    then described 9 input
    else if has_prefix (codes "desc ") lower
    then described 5 input
    else executes input

-- The variables of the loop, and the history of the line editor.
pub record Prompt : Type 0 where
  pub multiline_buffer : Text
  pub database : Text
  pub history : List Text

-- The prompt that the next line is read at.
unfoldable pub prompt_text : Prompt → Text
prompt_text p = if is_empty p.multiline_buffer then codes "sqlite> " else codes "    -> "

abbrev pub run_command : Command → Prompt → Prompt
run_command (uses name) p = record p { database = name }
run_command _ p = p

-- A complete line.
unfoldable pub submit : Text → Prompt → Option Command × Prompt
unfolding command_of
submit line p =
    let input = p.multiline_buffer ++ line in
    (
      some (command_of input),
      run_command (command_of input)
          (record p { multiline_buffer = []; history = input ∷ p.history }),
    )

-- `strings.TrimSuffix(input, "\\")` of a text that has the suffix.
abbrev pub without_last : Text → Text
without_last s = take (length s - 1) s

-- One turn of the loop, on a line that is trimmed.
unfoldable pub read_line : Text → Prompt → Option Command × Prompt
unfolding submit has_suffix
read_line input p =
    if is_empty input
    then (none, p)
    else if has_suffix (codes "\\") input
    then (
      none,
      record p { multiline_buffer = p.multiline_buffer ++ (without_last input ++ codes " ") },
    )
    else submit input p

unfoldable pub turn : Input → Prompt → Option Command × Prompt
unfolding read_line trim_space
turn aborted p = (none, record p { multiline_buffer = [] })
turn (typed s) p = read_line (trim_space s) p

-- What is left of the loop is not run after `quit`.
abbrev pub continue_with : Option Command → Prompt → List Command × Prompt → List Command × Prompt
continue_with none p rest = rest
continue_with (some quits) p rest = (quits ∷ [], p)
continue_with (some c) p rest = (c ∷ rest.0, rest.1)

-- The loop: the commands it runs, in order, up to the end of the inputs or to `quit`, and how it leaves
-- the variables and the history.
unfoldable pub prompt_loop : List Input → Prompt → List Command × Prompt
unfolding turn
prompt_loop [] p = ([], p)
prompt_loop (i ∷ is) p = let t = turn i p in continue_with t.0 t.1 (prompt_loop is t.1)
