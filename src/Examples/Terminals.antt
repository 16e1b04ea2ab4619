-- ===== src/Examples/Terminals.antt =====
-- The commands of cmd/ at concrete inputs.
use sqliteproxy.Base.{
  ℕ, suc, ◌+◌, ◌≤◌, Bool, true, false, Text, codes, Option, none, some, List, [], ◌∷◌, ◌++◌, ◌≡◌,
  refl, map, arith, concat, trim_space,
}
use sqliteproxy.Base.Int.{pos, negsuc}
use sqliteproxy.Commands.{proxy_config, port_flag, wal_flag, service_config}
use sqliteproxy.Commands.Numbers.{atoi, sscan_int, parse_bool}
use sqliteproxy.Commands.Precedence.{proxy_config_lem, over, base_config}
use sqliteproxy.Commands.Terminal.{
  prompt_text, turn, Options, default_options, connects, prints_version, scan_args, typed, aborted,
  quits, uses, executes, Prompt, prompt_loop, turn,
}
use sqliteproxy.Commands.Terminal.Layout.{
  column_widths, print_table, bytes, null, execute_query, is_query,
}
use sqliteproxy.Commands.Terminal.Layout.Aligned.{print_table-IsWide, IsWide, total}
use sqliteproxy.Commands.Terminal.Lines.{prompt_loop-Continued, run_from, piece}
use sqliteproxy.Commands.Terminal.Screen.{completions, print_session}
use sqliteproxy.Config.{default_file_config}
use sqliteproxy.Effect.{ok, err}
use sqliteproxy.Errors.{external}

atoi_minus : atoi (codes "-12") ≡ some (negsuc 11)
unfolding atoi
atoi_minus = refl

atoi_rest : atoi (codes "12x") ≡ none
unfolding atoi
atoi_rest = refl

sscan_int_rest : sscan_int (codes " +12x") ≡ some (pos 12)
unfolding sscan_int
sscan_int_rest = refl

parse_bool_word : parse_bool (codes "TRUE") ≡ some true
unfolding parse_bool
parse_bool_word = refl

args_port :
    scan_args none (codes "-P" ∷ codes "13306" ∷ codes "shop" ∷ codes "-p" ∷ []) default_options
    ≡ connects (record default_options { port = pos 13306; database = codes "shop" })
unfolding scan_args default_options
args_port = refl

args_version : scan_args none (codes "x" ∷ codes "-V" ∷ []) default_options ≡ prints_version
unfolding scan_args default_options
args_version = refl

service_port : (service_config (λ name. codes "abc")).port ≡ pos 3306
unfolding service_config
service_port = refl

proxy_config_lem_example :
    proxy_config
      (λ name. (default_file_config, none))
      (codes "proxy.json")
      (port_flag (pos 1) ∷ wal_flag false ∷ port_flag (pos 2) ∷ [])
    ≡ over
        (port_flag (pos 1) ∷ wal_flag false ∷ port_flag (pos 2) ∷ [])
        (base_config (λ name. (default_file_config, none)) (codes "proxy.json"))
proxy_config_lem_example =
    proxy_config_lem (λ name. (default_file_config, none)) (codes "proxy.json")
      (port_flag (pos 1) ∷ wal_flag false ∷ port_flag (pos 2) ∷ [])

abbrev fresh_prompt : Prompt
fresh_prompt = record { multiline_buffer = []; database = []; history = [] }

prompt_texts :
    (prompt_text fresh_prompt ≡ codes "sqlite> ")
    × (prompt_text (turn (typed (codes "a\\")) fresh_prompt).1 ≡ codes "    -> ")
unfolding prompt_text turn
prompt_texts = (refl, refl)

loop_commands :
    (prompt_loop
      (typed (codes "SELECT \\")
        ∷ typed (codes " 1 ")
        ∷ typed (codes "a\\")
        ∷ aborted
        ∷ typed (codes "desc `t`")
        ∷ typed (codes "quit")
        ∷ typed (codes "x")
        ∷ [])
      fresh_prompt).0
    ≡ executes (codes "SELECT  1") ∷ executes (codes "DESCRIBE t") ∷ quits ∷ []
unfolding prompt_loop
loop_commands = refl

prompt_loop-Continued_example :
    prompt_loop (map typed (codes "SELECT \\" ∷ []) ++ (typed (codes "1") ∷ [])) fresh_prompt
    ≡ run_from
        ([] ++ (concat (map piece (codes "SELECT \\" ∷ [])) ++ trim_space (codes "1")))
        []
        fresh_prompt
unfolding trim_space sqliteproxy.Base.has_suffix
prompt_loop-Continued_example =
    prompt_loop-Continued (codes "SELECT \\" ∷ []) (codes "1") [] fresh_prompt (refl, tt)
      (refl, refl)

-- What is sent after `use` is the same, and nothing is sent for it.
use_sends_nothing :
    prompt_loop (typed (codes "use shop") ∷ typed (codes "SELECT 1") ∷ []) fresh_prompt ≡ (
      uses (codes "shop") ∷ executes (codes "SELECT 1") ∷ [],
      record {
        multiline_buffer = [];
        database = codes "shop";
        history = codes "SELECT 1" ∷ codes "use shop" ∷ [];
      },
    )
unfolding prompt_loop
use_sends_nothing = refl

two_rows :
    execute_query
      (λ q. ok (record {
        columns = ok (codes "id" ∷ []);
        scans = ok (bytes (codes "abc") ∷ []) ∷ ok (null ∷ []) ∷ [];
        failure = none;
      }))
      (λ q. err (external (codes "no")))
      none
      (codes "select 1")
    ≡ codes "+------+"
      ∷ codes "| id   |"
      ∷ codes "+------+"
      ∷ codes "| abc  |"
      ∷ codes "| NULL |"
      ∷ codes "+------+"
      ∷ codes "2 rows in set"
      ∷ []
unfolding execute_query sqliteproxy.Commands.Terminal.Layout.print_columns
    sqliteproxy.Commands.Terminal.Layout.print_scanned
two_rows = refl

complete_describe : completions (codes "de") ≡ codes "DELETE" ∷ codes "DESCRIBE" ∷ []
unfolding completions sqliteproxy.Commands.Terminal.Screen.completions_in
complete_describe = refl

session_lines :
    print_session
      (λ q. err (external (codes "gone")))
      (λ q. ok (pos 3))
      none
      []
      (record { open_connections = pos 1; in_use = pos 0; idle = pos 1 })
      (typed (codes "delete from t") ∷ typed (codes "use a") ∷ typed (codes "show x") ∷ [])
      fresh_prompt
    ≡ codes "Query OK, 3 row(s) affected"
      ∷ codes "Database changed to 'a'"
      ∷ codes "ERROR: gone"
      ∷ []
unfolding print_session sqliteproxy.Commands.Terminal.Screen.perform_all
    sqliteproxy.Commands.Terminal.Layout.error_line
session_lines = refl

abbrev names : List Text
names = codes "id" ∷ codes "name" ∷ []

-- The name of the second row has two runes of two bytes.
abbrev table : List (List Text)
table = (codes "1" ∷ codes "abc" ∷ []) ∷ ((codes "2" ∷ (195 ∷ 169 ∷ 195 ∷ 169 ∷ []) ∷ []) ∷ [])

print_table-IsWide_example :
    IsWide (suc (total (column_widths names table))) (print_table names table)
unfolding column_widths
print_table-IsWide_example =
    print_table-IsWide names table (refl, (refl, tt)) (omega arith, (omega arith, tt))
