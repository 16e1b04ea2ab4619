-- ===== src/Proxy/Invariant.antt =====
-- proxy.go: what holds of a proxy after every step.
use sqliteproxy.Base.{
  ℕ, ◌+◌, ◌<◌, ◌≡◌, Bool, true, false, not, In, ◌⊎◌, refl, arith, length, if◌then◌else◌, ltb,
}
use sqliteproxy.Proxy.{
  Proxy, Loop, waiting, holding, registered, ended, Stage, running, marked, cancelled, unlistened,
  shut, swept, drained, timed_out, accept, accept_error, register, spawn, close_conn, forget,
  finish, http_end, read_command, answer_command, break_off, mark, cancel, close_listener,
  shut_http, sweep, close_store,
}
use sqliteproxy.Proxy.Members.{length-take_out}
use sqliteproxy.Proxy.Steps.{
  Work, accepts, fails, registers, spawns, reads, answers, breaks, closes, Peer, hangs_up, forgets,
  finishes, serves, serve_fails, Stopping, marks, cancels, unlistens, shuts, sweeps, drains,
  gives_up,
}

-- How far `Stop` is, as numbers.
abbrev pub rank : Stage → ℕ
rank running = 0
rank marked = 1
rank cancelled = 2
rank unlistened = 3
rank shut = 4
rank swept = 5
rank drained = 6
rank timed_out = 6

abbrev pub is_past : ℕ → Stage → Bool
is_past n s = ltb n (rank s)

abbrev pub loop_count : Loop → ℕ
loop_count ended = 0
loop_count waiting = 1
loop_count (holding c) = 1
loop_count (registered c) = 1

abbrev pub http_count : Bool → ℕ
http_count true = 1
http_count false = 0

-- The number of goroutines that the wait group waits for.
abbrev pub goroutines : Proxy → ℕ
goroutines p =
    loop_count p.accept_loop
    + http_count p.http_running
    + length p.serving
    + length p.executing
    + length p.leaving
    + length p.finishing

-- The switches of the proxy, by the stage of `Stop`.
abbrev pub Flags : Proxy → Type 0
Flags p =
    (p.stopping ≡ is_past 0 p.stage)
    × (p.active ≡ not (is_past 1 p.stage))
    × (p.listening ≡ not (is_past 2 p.stage))
    × (p.http_open ≡ not (is_past 3 p.stage))
    × (p.store_open ≡ not (is_past 5 p.stage))

-- A branch of the program.
pub if-holds :
    (P : Proxy → Type 0) (b : Bool) (q r : Proxy)
    → (b ≡ true → P q)
    → (b ≡ false → P r)
    → P (if b then q else r)
if-holds P true q r h k = h refl
if-holds P false q r h k = k refl

pub Work-Flags : (p q : Proxy) → Work p q → Flags p → Flags q
unfolding accept accept_error register spawn read_command answer_command break_off close_conn forget
    finish http_end
Work-Flags p _ (accepts _ w l) f = f
Work-Flags p _ (fails _ w) f = if-holds Flags p.active p _ (λ _. f) (λ _. f)
Work-Flags p _ (registers _ c h) f = if-holds Flags p.stopping _ _ (λ _. f) (λ _. f)
Work-Flags p _ (spawns _ c h) f = f
Work-Flags p _ (reads _ c h l) f = f
Work-Flags p _ (answers _ c h) f = f
Work-Flags p _ (breaks _ c h) f = f
Work-Flags p _ (closes _ c h n) f = f
Work-Flags p _ (forgets _ c h) f = f
Work-Flags p _ (finishes _ c h) f = f
Work-Flags p _ (serves _ a b) f = f
Work-Flags p _ (serve_fails _ a) f = f

pub Peer-Flags : (p q : Proxy) → Peer p q → Flags p → Flags q
unfolding close_conn
Peer-Flags p _ (hangs_up _ c h) f = f

pub stop-Flags : (p q : Proxy) → Stopping p q → Flags p → Flags q
unfolding mark cancel close_listener shut_http sweep close_store
stop-Flags p _ (marks _ h) f = ground (arith, h, f)
stop-Flags p _ (cancels _ h) f = ground (arith, h, f)
stop-Flags p _ (unlistens _ h) f = ground (arith, h, f)
stop-Flags p _ (shuts _ e h) f = ground (arith, h, f)
stop-Flags p _ (sweeps _ h) f = ground (arith, h, f)
stop-Flags p _ (drains _ h n) f = ground (arith, h, f)
stop-Flags p _ (gives_up _ h) f = ground (arith, h, f)

-- The counter of the wait group.
abbrev pub Counts : Proxy → Type 0
Counts p = p.wg ≡ goroutines p

pub Work-Counts : (p q : Proxy) → Work p q → Counts p → Counts q
unfolding accept accept_error register spawn read_command answer_command break_off close_conn forget
    finish http_end
Work-Counts p _ (accepts _ w l) n = ground (arith, w, n)
Work-Counts p _ (fails _ w) n = if-holds Counts p.active p _ (λ _. n) (λ _. ground (arith, w, n))
Work-Counts p _ (registers _ c h) n =
    if-holds Counts p.stopping _ _ (λ _. ground (arith, h, n)) (λ _. ground (arith, h, n))
Work-Counts p _ (spawns _ c h) n = ground (arith, h, n)
Work-Counts p _ (reads _ c h l) n = ground (arith, length-take_out c p.serving h, n)
Work-Counts p _ (answers _ c h) n = ground (arith, length-take_out c p.executing h, n)
Work-Counts p _ (breaks _ c h) n = ground (arith, length-take_out c p.executing h, n)
Work-Counts p _ (closes _ c h l) n = ground (arith, length-take_out c p.serving h, n)
Work-Counts p _ (forgets _ c h) n = ground (arith, length-take_out c p.leaving h, n)
Work-Counts p _ (finishes _ c h) n = ground (arith, length-take_out c p.finishing h, n)
Work-Counts p _ (serves _ a b) n = ground (arith, a, n)
Work-Counts p _ (serve_fails _ a) n = ground (arith, a, n)

pub Peer-Counts : (p q : Proxy) → Peer p q → Counts p → Counts q
unfolding close_conn
Peer-Counts p _ (hangs_up _ c h) n = ground (arith, length-take_out c p.serving h, n)

pub stop-Counts : (p q : Proxy) → Stopping p q → Counts p → Counts q
unfolding mark cancel close_listener shut_http sweep close_store
stop-Counts p _ (marks _ h) n = n
stop-Counts p _ (cancels _ h) n = n
stop-Counts p _ (unlistens _ h) n = n
stop-Counts p _ (shuts _ e h) n = n
stop-Counts p _ (sweeps _ h) n = n
stop-Counts p _ (drains _ h m) n = n
stop-Counts p _ (gives_up _ h) n = n

-- The connection that the accept loop has, and the connections that handlers have, are older than the
-- next one; those of handlers that have closed theirs are not open; no handler has the one that the loop holds; and an
-- open connection is in the map
-- or is the one that the loop holds, which is all that `Stop` leaves.
pub record Conns (p : Proxy) : Type 0 where
  pub known : (x : ℕ) → In x p.live → In x p.conns ⊎ (p.accept_loop ≡ holding x)
  pub old_live : (x : ℕ) → In x p.live → x < p.next
  pub old_held : (x : ℕ) → p.accept_loop ≡ holding x → x < p.next
  pub old_registered : (x : ℕ) → p.accept_loop ≡ registered x → x < p.next
  pub old_serving : (x : ℕ) → In x p.serving → x < p.next
  pub old_executing : (x : ℕ) → In x p.executing → x < p.next
  pub old_leaving : (x : ℕ) → In x p.leaving → x < p.next
  pub apart : (x : ℕ) → In x p.leaving → ¬ In x p.live
  pub held_alone : (x : ℕ) → p.accept_loop ≡ holding x → ¬ In x p.serving × ¬ In x p.executing
  pub left : is_past 4 p.stage ≡ true → (x : ℕ) → In x p.live → p.accept_loop ≡ holding x
