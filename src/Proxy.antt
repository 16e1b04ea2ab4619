-- ===== src/Proxy.antt =====
-- proxy.go: the goroutines of a running proxy. Its accept loop, the handlers of its connections and
-- `Stop` run side by side; each function here is what one of them does without being interrupted.
pub mod Creation
pub mod Members
pub mod Steps
pub mod Invariant
pub mod Connections
pub mod Shutdown
pub mod Draining
use sqliteproxy.Base.{
  ℕ, zero, suc, ◌+◌, ◌-◌, Bool, true, false, not, [], ◌∷◌, List, Option, ◌==◌, if◌then◌else◌,
}
use sqliteproxy.Errors.{Error}

-- Where the accept loop is: in `Accept`, with a connection that it has not looked at, with one that is
-- in the map and whose handler is not started, or ended.
pub data Loop : Type 0 where
  waiting : Loop
  holding : ℕ → Loop
  registered : ℕ → Loop
  ended : Loop

-- How far `Stop` is: `drained` and `timed_out` are the two ways in which its wait ends.
pub data Stage : Type 0 where
  running marked cancelled unlistened shut swept : Stage
  drained timed_out : Stage

-- A connection is named by a number. The handlers are those that wait for their client, in the handshake
-- or in the read of `HandleCommand`, those that execute a command, those that have closed their
-- connection, and those that have also taken it out of the map.
pub record Proxy : Type 0 where
  pub stage : Stage
  -- `p.stopping`, whether `p.ctx` is not done, and whether the listener and the management server are open
  pub stopping : Bool
  pub active : Bool
  pub listening : Bool
  pub http_open : Bool
  pub http_running : Bool
  pub accept_loop : Loop
  -- `p.conns`, and the connections that are open
  pub conns : List ℕ
  pub live : List ℕ
  pub serving : List ℕ
  pub executing : List ℕ
  pub leaving : List ℕ
  pub finishing : List ℕ
  -- the counter of `p.wg`
  pub wg : ℕ
  pub next : ℕ
  pub store_open : Bool

-- `delete(p.conns, conn)`, and closing a connection
unfoldable pub without : ℕ → List ℕ → List ℕ
without c [] = []
without c (x ∷ xs) = let rest = without c xs in if x == c then rest else x ∷ rest

unfoldable pub without_all : List ℕ → List ℕ → List ℕ
unfolding without
without_all [] xs = xs
without_all (c ∷ cs) xs = without_all cs (without c xs)

-- One handler less.
unfoldable pub take_out : ℕ → List ℕ → List ℕ
take_out c [] = []
take_out c (x ∷ xs) = let rest = take_out c xs in if x == c then xs else x ∷ rest

-- `Start`, when both listeners are open.
unfoldable pub started : Proxy
started = record {
  stage = running;
  stopping = false;
  active = true;
  listening = true;
  http_open = true;
  http_running = true;
  accept_loop = waiting;
  conns = [];
  live = [];
  serving = [];
  executing = [];
  leaving = [];
  finishing = [];
  wg = 2;
  next = 0;
  store_open = true;
}

-- `Accept` returns a connection.
unfoldable pub accept : Proxy → Proxy
accept p = record p { accept_loop = holding p.next; live = p.next ∷ p.live; next = p.next + 1 }

-- `Accept` returns an error: the loop goes on, or ends with its `wg.Done`.
unfoldable pub accept_error : Proxy → Proxy
accept_error p = if p.active then p else record p { accept_loop = ended; wg = p.wg - 1 }

-- The part under `connMu`, for the connection that has been accepted.
unfoldable pub register : ℕ → Proxy → Proxy
unfolding without
register c p =
    if p.stopping
    then record p { accept_loop = waiting; live = without c p.live }
    else record p { accept_loop = registered c; conns = c ∷ p.conns }

-- `p.wg.Add(1)` and the start of the handler.
unfoldable pub spawn : ℕ → Proxy → Proxy
spawn c p = record p { accept_loop = waiting; serving = c ∷ p.serving; wg = p.wg + 1 }

-- `HandleCommand` has read a command; it has executed and answered it, and the loop goes round.
unfoldable pub read_command : ℕ → Proxy → Proxy
unfolding take_out
read_command c p = record p { serving = take_out c p.serving; executing = c ∷ p.executing }

unfoldable pub answer_command : ℕ → Proxy → Proxy
unfolding take_out
answer_command c p = record p { executing = take_out c p.executing; serving = c ∷ p.serving }

-- `HandleCommand` fails after it has read a command, and `handleConnection` returns.
unfoldable pub break_off : ℕ → Proxy → Proxy
unfolding take_out without
break_off c p = record p {
  executing = take_out c p.executing;
  leaving = c ∷ p.leaving;
  live = without c p.live;
}

-- `handleConnection` returns as it waits for its client, which closes the connection.
unfoldable pub close_conn : ℕ → Proxy → Proxy
unfolding take_out without
close_conn c p = record p {
  serving = take_out c p.serving;
  leaving = c ∷ p.leaving;
  live = without c p.live;
}

-- The deferred `delete`, and the deferred `wg.Done`
unfoldable pub forget : ℕ → Proxy → Proxy
unfolding take_out without
forget c p = record p {
  leaving = take_out c p.leaving;
  finishing = c ∷ p.finishing;
  conns = without c p.conns;
}

unfoldable pub finish : ℕ → Proxy → Proxy
unfolding take_out
finish c p = record p { finishing = take_out c p.finishing; wg = p.wg - 1 }

-- `Serve` returns to the management goroutine.
unfoldable pub http_end : Proxy → Proxy
http_end p = record p { http_running = false; wg = p.wg - 1 }

-- `Stop`: the flag, the context, the listener, the management server, the connections, and the end of
-- the wait with the store's `Close` behind it. `Shutdown` closes the listener of the management server
-- before it waits for its requests; whether five seconds are enough for them, its error is dropped.
unfoldable pub mark : Proxy → Proxy
mark p = record p { stage = marked; stopping = true }

unfoldable pub cancel : Proxy → Proxy
cancel p = record p { stage = cancelled; active = false }

unfoldable pub close_listener : Proxy → Proxy
close_listener p = record p { stage = unlistened; listening = false }

unfoldable pub shut_http : Option Error → Proxy → Proxy
shut_http failure p = record p { stage = shut; http_open = false }

unfoldable pub sweep : Proxy → Proxy
unfolding without_all
sweep p = record p { stage = swept; live = without_all p.conns p.live }

unfoldable pub close_store : Stage → Proxy → Proxy
close_store how p = record p { stage = how; store_open = false }
