-- ===== src/Examples/Proxies.antt =====
-- A proxy from its start to the end of `Stop`, its configuration, and its sessions.
use sqliteproxy.Base.{List, [], ◌∷◌, ◌≡◌, ◌≤◌, refl, codes, In, inl, false, none}
use sqliteproxy.Base.Int.{is_nonpositive}
use sqliteproxy.Config.{default_file_config, default_config, to_config, with_limits, store_config}
use sqliteproxy.Config.Defaults.{with_limits-bounds}
use sqliteproxy.Proxy.{
  Proxy, holding, started, accept, accept_error, register, spawn, read_command, answer_command,
  mark, cancel, close_listener, shut_http, sweep, http_end, close_store, running, drained,
}
use sqliteproxy.Proxy.Draining.{stays, goes, works_on, weight, Moves-bound}
use sqliteproxy.Proxy.Shutdown.{IsQuiet, Reach-closed, Reach-IsQuiet}
use sqliteproxy.Proxy.Steps
use sqliteproxy.Proxy.Steps.{
  Reach, starts, spawns, reads, steps, works, stops, accepts, fails, registers, serves, marks,
  cancels, unlistens, shuts, sweeps, drains,
}
use sqliteproxy.Server.Session.{Tx}
use sqliteproxy.Server.Session.Laws.{begins}
use sqliteproxy.Server.Session.Manager.Contract.{
  Call, creates, gets, acts, counts, cleans, created, found, acted, counted, cleaned, answers,
  promises,
}
use sqliteproxy.Server.Session.Manager.Refinement.{answers-promises}
use sqliteproxy.Storage.Boot.{with_defaults}

-- The default configuration of the file is that of the program.
defaults_agree : to_config default_file_config ≡ default_config
unfolding to_config default_file_config default_config
defaults_agree = refl

with_limits-bounds_example :
    (is_nonpositive (with_limits (to_config default_file_config)).max_conns ≡ false)
    × (is_nonpositive (with_limits (to_config default_file_config)).busy_timeout ≡ false)
    × (with_defaults (store_config (with_limits (to_config default_file_config)))
        ≡ store_config (with_limits (to_config default_file_config)))
with_limits-bounds_example = with_limits-bounds default_file_config

-- `Stop` closes the connections while the accept loop has one in its hands.
abbrev met : Proxy
met = accept started

abbrev stopped : Proxy → Proxy
stopped p = sweep (shut_http none (close_listener (cancel (mark p))))

met-Reach : Reach met
unfolding started
met-Reach = steps starts (works (accepts started refl refl))

stopped-Reach : (p : Proxy) → Reach p → p.stage ≡ running → Reach (stopped p)
unfolding mark cancel close_listener shut_http
stopped-Reach p r h =
    let a = steps r (stops (marks p h)) in
    let b = steps a (stops (cancels _ refl)) in
    let c = steps b (stops (unlistens _ refl)) in
    let d = steps c (stops (shuts _ none refl)) in steps d (stops (sweeps _ refl))

Reach-closed_example :
    ((stopped met).accept_loop ≡ holding 0) × ¬ In 0 (register 0 (stopped met)).live
unfolding accept started sweep shut_http close_listener cancel mark
Reach-closed_example =
    Reach-closed (stopped met) 0 (stopped-Reach met met-Reach refl) refl (inl refl)

abbrev over : Proxy
over = close_store drained (http_end (accept_error (stopped started)))

over-Reach : Reach over
unfolding started sweep shut_http close_listener cancel mark accept_error http_end
over-Reach =
    let a = stopped-Reach started starts refl in
    let b = steps a (works (fails (stopped started) refl)) in
    let c = steps b (works (serves (accept_error (stopped started)) refl refl)) in
    steps c (stops (drains (http_end (accept_error (stopped started))) refl refl))

Reach-IsQuiet_example : IsQuiet over
unfolding close_store
Reach-IsQuiet_example = Reach-IsQuiet over over-Reach refl

-- `Stop` closes a connection whose handler executes a command.
abbrev busy : Proxy
busy = read_command 0 (spawn 0 (register 0 met))

busy-Reach : Reach busy
unfolding accept started register spawn
busy-Reach =
    let a = steps met-Reach (works (registers met 0 refl)) in
    let b = steps a (works (spawns (register 0 met) 0 refl)) in
    steps b (works (reads (spawn 0 (register 0 met)) 0 (inl refl) (inl refl)))

Moves-bound_example : 1 ≤ weight (stopped busy)
unfolding accept started register spawn read_command sweep shut_http close_listener cancel mark
Moves-bound_example =
    Moves-bound (stopped busy) (answer_command 0 (stopped busy)) 1
      (stopped-Reach busy busy-Reach refl) refl
      (goes (works_on (Steps.answers (stopped busy) 0 (inl refl))) (stays _))

abbrev tx : Tx
tx = record { number = 1; conn = record { number = 0; pool_handle = 1 } }

-- A session that begins a transaction is active, and later it is not.
abbrev manager_calls : List Call
manager_calls =
    creates (codes "1") 5
    ∷ acts (codes "1") 15 (begins tx)
    ∷ cleans 10 20
    ∷ counts
    ∷ cleans 10 30
    ∷ gets (codes "1")
    ∷ []

manager_answers :
    answers manager_calls []
    ≡ created (record { last_active = 5; bound = false; tx = none; conn = none })
      ∷ acted
      ∷ cleaned 0
      ∷ counted 1
      ∷ cleaned 1
      ∷ found none
      ∷ []
unfolding answers sqliteproxy.Base.text_eq
manager_answers = refl

answers-promises_example : answers manager_calls [] ≡ promises manager_calls []
answers-promises_example = answers-promises manager_calls
