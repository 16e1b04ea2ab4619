-- ===== src/Proxy/Draining.antt =====
-- proxy.go, `Stop`: how long the goroutines go on.
use sqliteproxy.Base.{ℕ, suc, ◌+◌, ◌<◌, ◌≤◌, ◌*◌, ◌≡◌, true, false, In, ◌∙◌, ap, arith, length}
use sqliteproxy.Proxy.{
  Proxy, Loop, waiting, holding, registered, ended, accept, accept_error, register, spawn,
  close_conn, read_command, answer_command, break_off, forget, finish, http_end,
}
use sqliteproxy.Proxy.Members.{length-take_out}
use sqliteproxy.Proxy.Steps.{
  Work, accepts, fails, registers, spawns, reads, answers, breaks, closes, Peer, hangs_up, forgets,
  finishes, serves, serve_fails, Reach,
}
use sqliteproxy.Proxy.Invariant.{Conns, http_count, is_past}
use sqliteproxy.Proxy.Shutdown.{
  Invariant, Work-Invariant, Work-stage, Peer-Invariant, Peer-stage, Reach-Invariant,
}

abbrev loop_weight : Loop → ℕ
loop_weight ended = 0
loop_weight waiting = 1
loop_weight (holding c) = 2
loop_weight (registered c) = 5

-- A bound on the steps that are left once `Stop` has closed the connections.
abbrev pub weight : Proxy → ℕ
weight p =
    loop_weight p.accept_loop
    + http_count p.http_running
    + 3 * length p.serving
    + 4 * length p.executing
    + 2 * length p.leaving
    + length p.finishing

-- `n` steps of one kind after the other.
pub data Sequence (R : Proxy → Proxy → Type 0) : ℕ → Proxy → Proxy → Type 0 where
  stays : (p : Proxy) → Sequence R 0 p p
  goes : {n : ℕ} {p q r : Proxy} → R p q → Sequence R n q r → Sequence R (suc n) p r

fails-weight :
    (p : Proxy) → p.accept_loop ≡ waiting → p.active ≡ false → weight (accept_error p) < weight p
unfolding accept_error
fails-weight p w a = ground (arith, w, a)

registers-weight :
    (p : Proxy) (c : ℕ)
    → p.accept_loop ≡ holding c
    → p.stopping ≡ true
    → weight (register c p) < weight p
unfolding register
registers-weight p c h s = ground (arith, h, s)

-- The connection of a handler that waits for its client is closed.
closed_to :
    (p : Proxy) (c : ℕ) → Conns p → is_past 4 p.stage ≡ true → In c p.serving → ¬ In c p.live
closed_to p c v h m l = (v.held_alone c (v.left h c l)).0 m

Work-weight :
    (p q : Proxy) → Work p q → Invariant p → is_past 4 p.stage ≡ true → weight q < weight p
unfolding accept spawn read_command answer_command break_off close_conn forget finish http_end
Work-weight p _ (accepts _ w l) v h = absurd (let f = v.flags in ground (arith, h, l, f.2))
Work-weight p _ (fails _ w) v h = fails-weight p w (let f = v.flags in ground (arith, h, f.1))
Work-weight p _ (registers _ c e) v h =
    registers-weight p c e (let f = v.flags in ground (arith, h, f.0))
Work-weight p _ (spawns _ c e) v h = ground (arith, e)
Work-weight p _ (reads _ c m l) v h = absurd (closed_to p c v.connections h m l)
Work-weight p _ (answers _ c m) v h = omega (arith, length-take_out c p.executing m)
Work-weight p _ (breaks _ c m) v h = omega (arith, length-take_out c p.executing m)
Work-weight p _ (closes _ c m l) v h = omega (arith, length-take_out c p.serving m)
Work-weight p _ (forgets _ c m) v h = omega (arith, length-take_out c p.leaving m)
Work-weight p _ (finishes _ c m) v h = omega (arith, length-take_out c p.finishing m)
Work-weight p _ (serves _ a b) v h = ground (arith, a)
Work-weight p _ (serve_fails _ a) v h = ground (arith, a)

Peer-weight : (p q : Proxy) → Peer p q → weight q < weight p
unfolding close_conn
Peer-weight p _ (hangs_up _ c m) = omega (arith, length-take_out c p.serving m)

-- A step that is not one of `Stop`.
pub data Move (p q : Proxy) : Type 0 where
  works_on : Work p q → Move p q
  loses : Peer p q → Move p q

Move-weight :
    (p q : Proxy)
    → Move p q
    → Invariant p
    → is_past 4 p.stage ≡ true
    → (weight q < weight p) × Invariant q × (q.stage ≡ p.stage)
Move-weight p q (works_on w) v h = (Work-weight p q w v h, Work-Invariant p q w v, Work-stage p q w)
Move-weight p q (loses d) v h = (Peer-weight p q d, Peer-Invariant p q d v, Peer-stage p q d)

Moves-weight :
    (n : ℕ) (p q : Proxy)
    → Sequence Move n p q
    → Invariant p
    → is_past 4 p.stage ≡ true
    → n + weight q ≤ weight p
Moves-weight _ p _ (stays _) v h = omega arith
Moves-weight _ p r (goes {n} {q} w ws) v h =
    let (l, kept, same) = Move-weight p q w v h in
    let m = Moves-weight n q r ws kept (ap (is_past 4) same ∙ h) in omega (arith, l, m)

-- From every state that a proxy can reach once `Stop` has closed the connections of the map, the accept
-- loop, the handlers with the loop over their commands, and the management goroutine take no more steps
-- than the weight of the state, in whatever order they take them and whichever clients go away.
pub Moves-bound :
    (p q : Proxy) (n : ℕ) → Reach p → is_past 4 p.stage ≡ true → Sequence Move n p q → n ≤ weight p
Moves-bound p q n r h ws = let m = Moves-weight n p q ws (Reach-Invariant p r) h in omega (arith, m)

data Place (l : Loop) : Type 0 where
  over : l ≡ ended → Place l
  inside : l ≡ waiting → Place l
  unseen : (c : ℕ) → l ≡ holding c → Place l
  seen : (c : ℕ) → l ≡ registered c → Place l
