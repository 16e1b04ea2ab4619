-- ===== src/Proxy/Shutdown.antt =====
-- proxy.go, `Stop`: the connections and the goroutines that it leaves.
use sqliteproxy.Base.{
  ℕ, ◌≡◌, Bool, true, false, [], ◌∷◌, List, In, inl, ◌∙◌, sym, refl, subst, arith, length,
  if◌then◌else◌,
}
use sqliteproxy.Proxy.{
  Proxy, Loop, waiting, holding, registered, ended, drained, started, accept, accept_error,
  register, spawn, read_command, answer_command, break_off, close_conn, forget, finish, http_end,
  mark, cancel, close_listener, shut_http, sweep, close_store, without,
}
use sqliteproxy.Proxy.Members.{In-without}
use sqliteproxy.Proxy.Steps.{
  Work, accepts, fails, registers, spawns, reads, answers, breaks, closes, Peer, hangs_up, forgets,
  finishes, serves, serve_fails, Stopping, marks, cancels, unlistens, shuts, sweeps, drains,
  gives_up, works, stops, departs, Reach, starts, steps,
}
use sqliteproxy.Proxy.Connections.{Work-Conns, Peer-Conns, stop-Conns}
use sqliteproxy.Proxy.Invariant.{
  Conns, Flags, Counts, goroutines, loop_count, is_past, Work-Flags, Peer-Flags, stop-Flags,
  Work-Counts, Peer-Counts, stop-Counts,
}

pub record Invariant (p : Proxy) : Type 0 where
  pub flags : Flags p
  pub counts : Counts p
  pub connections : Conns p
  pub quiet : p.stage ≡ drained → p.wg ≡ 0

not_empty : (c : ℕ) (xs : List ℕ) → In c xs → length xs ≡ 0 → ⊥
not_empty c [] i e = i
not_empty c (x ∷ xs) i e = omega (arith, e)

-- No goroutine is left to do anything.
idle : (p q : Proxy) → Work p q → goroutines p ≡ 0 → ⊥
idle p _ (accepts _ w l) e = ground (arith, w, e)
idle p _ (fails _ w) e = ground (arith, w, e)
idle p _ (registers _ c h) e = ground (arith, h, e)
idle p _ (spawns _ c h) e = ground (arith, h, e)
idle p _ (reads _ c h l) e = not_empty c p.serving h (omega (arith, e))
idle p _ (answers _ c h) e = not_empty c p.executing h (omega (arith, e))
idle p _ (breaks _ c h) e = not_empty c p.executing h (omega (arith, e))
idle p _ (closes _ c h l) e = not_empty c p.serving h (omega (arith, e))
idle p _ (forgets _ c h) e = not_empty c p.leaving h (omega (arith, e))
idle p _ (finishes _ c h) e = not_empty c p.finishing h (omega (arith, e))
idle p _ (serves _ a b) e = ground (arith, a, e)
idle p _ (serve_fails _ a) e = ground (arith, a, e)

pub Work-stage : (p q : Proxy) → Work p q → q.stage ≡ p.stage
unfolding accept accept_error register spawn read_command answer_command break_off close_conn forget
    finish http_end
Work-stage p _ (accepts _ w l) = refl
Work-stage p _ (fails _ w) = ground arith
Work-stage p _ (registers _ c h) = ground arith
Work-stage p _ (spawns _ c h) = refl
Work-stage p _ (reads _ c h l) = refl
Work-stage p _ (answers _ c h) = refl
Work-stage p _ (breaks _ c h) = refl
Work-stage p _ (closes _ c h l) = refl
Work-stage p _ (forgets _ c h) = refl
Work-stage p _ (finishes _ c h) = refl
Work-stage p _ (serves _ a b) = refl
Work-stage p _ (serve_fails _ a) = refl

pub Work-Invariant : (p q : Proxy) → Work p q → Invariant p → Invariant q
Work-Invariant p q w v = record {
  flags = Work-Flags p q w v.flags;
  counts = Work-Counts p q w v.counts;
  connections = Work-Conns p q w v.flags v.connections;
  quiet = λ h. absurd (idle p q w (sym v.counts ∙ v.quiet (sym (Work-stage p q w) ∙ h)));
}

pub Peer-stage : (p q : Proxy) → Peer p q → q.stage ≡ p.stage
unfolding close_conn
Peer-stage p _ (hangs_up _ c h) = refl

waited_for : (p q : Proxy) → Peer p q → goroutines p ≡ 0 → ⊥
waited_for p _ (hangs_up _ c h) e = not_empty c p.serving h (omega (arith, e))

pub Peer-Invariant : (p q : Proxy) → Peer p q → Invariant p → Invariant q
Peer-Invariant p q d v = record {
  flags = Peer-Flags p q d v.flags;
  counts = Peer-Counts p q d v.counts;
  connections = Peer-Conns p q d v.connections;
  quiet = λ h. absurd (waited_for p q d (sym v.counts ∙ v.quiet (sym (Peer-stage p q d) ∙ h)));
}

stop-quiet : (p q : Proxy) → Stopping p q → q.stage ≡ drained → q.wg ≡ 0
unfolding mark cancel close_listener shut_http sweep close_store
stop-quiet p _ (marks _ h) e = absurd (ground (arith, e))
stop-quiet p _ (cancels _ h) e = absurd (ground (arith, e))
stop-quiet p _ (unlistens _ h) e = absurd (ground (arith, e))
stop-quiet p _ (shuts _ f h) e = absurd (ground (arith, e))
stop-quiet p _ (sweeps _ h) e = absurd (ground (arith, e))
stop-quiet p _ (drains _ h n) e = n
stop-quiet p _ (gives_up _ h) e = absurd (ground (arith, e))

started-Invariant : Invariant started
unfolding started
started-Invariant = record {
  flags = (refl, refl, refl, refl, refl);
  counts = refl;
  connections = record {
    known = λ x i. absurd i;
    old_live = λ x i. absurd i;
    old_held = λ x e. absurd (ground (arith, e));
    old_registered = λ x e. absurd (ground (arith, e));
    old_serving = λ x i. absurd i;
    old_executing = λ x i. absurd i;
    held_alone = λ x e. absurd (ground (arith, e));
    old_leaving = λ x i. absurd i;
    apart = λ x i. absurd i;
    left = λ h. absurd (ground (arith, h));
  };
  quiet = λ e. absurd (ground (arith, e));
}

pub Reach-Invariant : (p : Proxy) → Reach p → Invariant p
Reach-Invariant _ starts = started-Invariant
Reach-Invariant q (steps {p} r (works w)) = Work-Invariant p q w (Reach-Invariant p r)
Reach-Invariant q (steps {p} r (departs d)) = Peer-Invariant p q d (Reach-Invariant p r)
Reach-Invariant q (steps {p} r (stops s)) =
    let v = Reach-Invariant p r in
    record {
      flags = stop-Flags p q s v.flags;
      counts = stop-Counts p q s v.counts;
      connections = stop-Conns p q s v.connections;
      quiet = stop-quiet p q s;
    }

-- The two branches of `register`.
abbrev branches : Proxy → ℕ → Bool → Proxy
branches p c b =
    if b
    then record p { accept_loop = waiting; live = without c p.live }
    else record p { accept_loop = registered c; conns = c ∷ p.conns }

no_member : (xs : List ℕ) → ((x : ℕ) → ¬ In x xs) → xs ≡ []
no_member [] n = refl
no_member (x ∷ xs) n = absurd (n x (inl refl))

no_length : (xs : List ℕ) → length xs ≡ 0 → xs ≡ []
no_length [] e = refl
no_length (x ∷ xs) e = absurd (omega (arith, e))

no_loop : (l : Loop) → loop_count l ≡ 0 → l ≡ ended
no_loop ended e = refl
no_loop waiting e = absurd (omega (arith, e))
no_loop (holding c) e = absurd (omega (arith, e))
no_loop (registered c) e = absurd (omega (arith, e))

-- In every state that a proxy can reach once `Stop` has closed the connections of the map, whatever the
-- order of the steps, a connection that is still open is the one that the accept loop has in its
-- hands, and the loop's next step closes it.
pub Reach-closed :
    (p : Proxy) (x : ℕ)
    → Reach p
    → is_past 4 p.stage ≡ true
    → In x p.live
    → (p.accept_loop ≡ holding x) × ¬ In x (register x p).live
unfolding register
Reach-closed p x r h i =
    let v = Reach-Invariant p r in
    let s : p.stopping ≡ true = ground (arith, h, v.flags.0) in
    (
      v.connections.left h x i,
      λ j. (In-without x x p.live (subst (λ b. In x (branches p x b).live) s j)).1 refl,
    )

pub record IsQuiet (p : Proxy) : Type 0 where
  pub loop_ended : p.accept_loop ≡ ended
  pub http_ended : p.http_running ≡ false
  pub none_serving : p.serving ≡ []
  pub none_executing : p.executing ≡ []
  pub none_leaving : p.leaving ≡ []
  pub none_finishing : p.finishing ≡ []
  pub none_live : p.live ≡ []

-- In every state that a proxy can reach, the end of the wait for the goroutines, with the store closed
-- behind it, leaves the accept loop and the management server ended, no handler and no open
-- connection, unless the ten seconds of the wait have run out.
pub Reach-IsQuiet : (p : Proxy) → Reach p → p.stage ≡ drained → IsQuiet p
Reach-IsQuiet p r h =
    let v = Reach-Invariant p r in
    let none_left : goroutines p ≡ 0 = sym v.counts ∙ v.quiet h in
    let loop : p.accept_loop ≡ ended = no_loop p.accept_loop (omega (arith, none_left)) in
    let past : is_past 4 p.stage ≡ true = ground (arith, h) in
    record {
      loop_ended = loop;
      http_ended = ground (arith, none_left);
      none_serving = no_length p.serving (omega (arith, none_left));
      none_executing = no_length p.executing (omega (arith, none_left));
      none_leaving = no_length p.leaving (omega (arith, none_left));
      none_finishing = no_length p.finishing (omega (arith, none_left));
      none_live =
          no_member p.live λ x i. let k = v.connections.left past x i in ground (arith, k, loop);
    }
