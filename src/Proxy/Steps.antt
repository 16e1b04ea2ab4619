-- ===== src/Proxy/Steps.antt =====
-- proxy.go: the steps of the accept loop, the handlers and `Stop`, in any order.
use sqliteproxy.Base.{ℕ, Option, ◌≡◌, true, false, In}
use sqliteproxy.Errors.{Error}
use sqliteproxy.Proxy.{
  Proxy, waiting, holding, registered, running, marked, cancelled, unlistened, shut, swept, drained,
  timed_out, started, accept, accept_error, register, spawn, read_command, answer_command,
  break_off, close_conn, forget, finish, http_end, mark, cancel, close_listener, shut_http, sweep,
  close_store,
}

-- A step of the accept loop, of a handler or of the management goroutine. `Accept` can fail at any time,
-- and returns a connection only while the listener is open; `Serve` returns after `Shutdown`, or because
-- it fails. A read from a closed connection fails, and one from an open connection returns a command or
-- waits; a command that is executed ends, with success or with an error.
pub data Work : Proxy → Proxy → Type 0 where
  accepts : (p : Proxy) → p.accept_loop ≡ waiting → p.listening ≡ true → Work p (accept p)
  fails : (p : Proxy) → p.accept_loop ≡ waiting → Work p (accept_error p)
  registers : (p : Proxy) (c : ℕ) → p.accept_loop ≡ holding c → Work p (register c p)
  spawns : (p : Proxy) (c : ℕ) → p.accept_loop ≡ registered c → Work p (spawn c p)
  reads : (p : Proxy) (c : ℕ) → In c p.serving → In c p.live → Work p (read_command c p)
  answers : (p : Proxy) (c : ℕ) → In c p.executing → Work p (answer_command c p)
  breaks : (p : Proxy) (c : ℕ) → In c p.executing → Work p (break_off c p)
  closes : (p : Proxy) (c : ℕ) → In c p.serving → ¬ In c p.live → Work p (close_conn c p)
  forgets : (p : Proxy) (c : ℕ) → In c p.leaving → Work p (forget c p)
  finishes : (p : Proxy) (c : ℕ) → In c p.finishing → Work p (finish c p)
  serves : (p : Proxy) → p.http_running ≡ true → p.http_open ≡ false → Work p (http_end p)
  serve_fails : (p : Proxy) → p.http_running ≡ true → Work p (http_end p)

-- A client goes away or is refused: its handler returns, whether or not the connection is open.
pub data Peer : Proxy → Proxy → Type 0 where
  hangs_up : (p : Proxy) (c : ℕ) → In c p.serving → Peer p (close_conn c p)

-- A step of `Stop`. It waits for the counter to be zero, or for ten seconds.
pub data Stopping : Proxy → Proxy → Type 0 where
  marks : (p : Proxy) → p.stage ≡ running → Stopping p (mark p)
  cancels : (p : Proxy) → p.stage ≡ marked → Stopping p (cancel p)
  unlistens : (p : Proxy) → p.stage ≡ cancelled → Stopping p (close_listener p)
  shuts :
      (p : Proxy) (failure : Option Error) → p.stage ≡ unlistened → Stopping p (shut_http failure p)
  sweeps : (p : Proxy) → p.stage ≡ shut → Stopping p (sweep p)
  drains : (p : Proxy) → p.stage ≡ swept → p.wg ≡ 0 → Stopping p (close_store drained p)
  gives_up : (p : Proxy) → p.stage ≡ swept → Stopping p (close_store timed_out p)

pub data Step (p q : Proxy) : Type 0 where
  works : Work p q → Step p q
  departs : Peer p q → Step p q
  stops : Stopping p q → Step p q

pub data Reach : Proxy → Type 0 where
  starts : Reach started
  steps : {p q : Proxy} → Reach p → Step p q → Reach q
