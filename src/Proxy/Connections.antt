-- ===== src/Proxy/Connections.antt =====
-- proxy.go: the connections of a proxy after every step.
mod Handlers
use sqliteproxy.Base.{
  ℕ, ◌≡◌, true, false, ◌∷◌, List, In, inl, inr, ◌∙◌, ap, sym, refl, subst, arith,
}
use sqliteproxy.Proxy.{
  Proxy, waiting, holding, registered, drained, timed_out, accept, accept_error, register, spawn,
  close_conn, forget, finish, http_end, read_command, answer_command, break_off, mark, cancel,
  close_listener, shut_http, sweep, close_store, without,
}
use sqliteproxy.Proxy.Members.{In-without, without-In, In-without_all, In-take_out}
use sqliteproxy.Proxy.Steps.{
  Work, accepts, fails, registers, spawns, reads, answers, breaks, closes, Peer, hangs_up, forgets,
  finishes, serves, serve_fails, Stopping, marks, cancels, unlistens, shuts, sweeps, drains,
  gives_up,
}
use sqliteproxy.Proxy.Connections.Handlers.{
  close_conn-Conns, read_command-Conns, answer_command-Conns, break_off-Conns, forget-Conns,
}
use sqliteproxy.Proxy.Invariant.{Conns, Flags, is_past, if-holds}

same_held : (c x : ℕ) → holding c ≡ holding x → x ≡ c
same_held c x e = ground (arith, e)

accept-Conns :
    (p : Proxy)
    → p.accept_loop ≡ waiting
    → p.listening ≡ true
    → Flags p
    → Conns p
    → Conns (accept p)
unfolding accept
accept-Conns p w l f v = record {
  known = λ x i. elim i [
    | inl e ↦ inr (ground (arith, e))
    | inr j ↦ elim (v.known x j) [ inl k ↦ inl k | inr h ↦ absurd (ground (arith, w, h)) ]
  ];
  old_live = λ x i. elim i [ inl e ↦ omega (arith, e) | inr j ↦ omega (arith, v.old_live x j) ];
  old_held = λ x h. ground (arith, h);
  old_registered = λ x h. absurd (ground (arith, h));
  old_serving = λ x i. omega (arith, v.old_serving x i);
  old_executing = λ x i. omega (arith, v.old_executing x i);
  old_leaving = λ x i. omega (arith, v.old_leaving x i);
  apart = λ x i j. elim j [ inl e ↦ omega (arith, e, v.old_leaving x i) | inr k ↦ v.apart x i k ];
  held_alone = λ x h.
      let newest : x ≡ p.next = ground (arith, h) in
      (
        λ i. omega (arith, newest, v.old_serving x i),
        λ i. omega (arith, newest, v.old_executing x i),
      );
  left = λ h x i. absurd (ground (arith, h, l, f));
}

accept_error-Conns : (p : Proxy) → p.accept_loop ≡ waiting → Conns p → Conns (accept_error p)
unfolding accept_error
accept_error-Conns p w v =
    if-holds Conns p.active p _ (λ _. v)
      λ _. record {
        known = λ x i. elim (v.known x i) [ inl k ↦ inl k | inr h ↦ absurd (ground (arith, w, h)) ];
        old_live = v.old_live;
        old_held = λ x h. absurd (ground (arith, h));
        old_registered = λ x h. absurd (ground (arith, h));
        old_serving = v.old_serving;
        old_executing = v.old_executing;
        old_leaving = v.old_leaving;
        apart = v.apart;
        held_alone = λ x h. absurd (ground (arith, h));
        left = λ h x i. absurd (let k = v.left h x i in ground (arith, w, k));
      }

register-Conns :
    (p : Proxy) (c : ℕ) → p.accept_loop ≡ holding c → Flags p → Conns p → Conns (register c p)
unfolding register
register-Conns p c h f v = if-holds Conns p.stopping _ _ (λ _. closed) (λ r. added r)
  where
    closed : Conns (record p { accept_loop = waiting; live = without c p.live })
    closed = record {
      known = λ x i.
          let (j, n) = In-without c x p.live i in
          elim (v.known x j) [ inl k ↦ inl k | inr k ↦ absurd (n (same_held c x (sym h ∙ k))) ];
      old_live = λ x i. v.old_live x (In-without c x p.live i).0;
      old_held = λ x k. absurd (ground (arith, k));
      old_registered = λ x k. absurd (ground (arith, k));
      old_serving = v.old_serving;
      old_executing = v.old_executing;
      old_leaving = v.old_leaving;
      held_alone = λ x k. absurd (ground (arith, k));
      apart = λ x i j. v.apart x i (In-without c x p.live j).0;
      left = λ s x i.
          let (j, n) = In-without c x p.live i in absurd (n (same_held c x (sym h ∙ v.left s x j)));
    }

    added :
        p.stopping ≡ false → Conns (record p { accept_loop = registered c; conns = c ∷ p.conns })
    added r = record {
      known = λ x i. elim (v.known x i) [
        | inl k ↦ inl (inr k)
        | inr k ↦ inl (inl (same_held c x (sym h ∙ k)))
      ];
      old_live = v.old_live;
      old_held = λ x k. absurd (ground (arith, k));
      old_registered =
          λ x k. v.old_held x (h ∙ ap holding (let e : c ≡ x = ground (arith, k) in e));
      old_serving = v.old_serving;
      old_executing = v.old_executing;
      old_leaving = v.old_leaving;
      held_alone = λ x k. absurd (ground (arith, k));
      apart = v.apart;
      left = λ s x i. absurd (ground (arith, r, s, f));
    }

spawn-Conns : (p : Proxy) (c : ℕ) → p.accept_loop ≡ registered c → Conns p → Conns (spawn c p)
unfolding spawn
spawn-Conns p c h v = record {
  known = λ x i. elim (v.known x i) [ inl k ↦ inl k | inr k ↦ absurd (ground (arith, h, k)) ];
  old_live = v.old_live;
  old_held = λ x k. absurd (ground (arith, k));
  old_registered = λ x k. absurd (ground (arith, k));
  old_serving =
      λ x i. elim i [ inl e ↦ omega (arith, e, v.old_registered c h) | inr j ↦ v.old_serving x j ];
  old_executing = v.old_executing;
  held_alone = λ x k. absurd (ground (arith, k));
  old_leaving = v.old_leaving;
  apart = v.apart;
  left = λ s x i. absurd (let k = v.left s x i in ground (arith, h, k));
}

sweep-Conns : (p : Proxy) → Conns p → Conns (sweep p)
unfolding sweep
sweep-Conns p v = record {
  known = λ x i. v.known x (In-without_all p.conns x p.live i).0;
  old_live = λ x i. v.old_live x (In-without_all p.conns x p.live i).0;
  old_held = v.old_held;
  old_registered = v.old_registered;
  old_serving = v.old_serving;
  old_executing = v.old_executing;
  held_alone = v.held_alone;
  old_leaving = v.old_leaving;
  apart = λ x i j. v.apart x i (In-without_all p.conns x p.live j).0;
  left = λ s x i.
      let (j, n) = In-without_all p.conns x p.live i in
      elim (v.known x j) [ inl k ↦ absurd (n k) | inr k ↦ k ];
}

-- Only the stage, the switches, the counter or the management server changes.
same-Conns :
    (p q : Proxy)
    → Conns p
    → q.live ≡ p.live
    → q.conns ≡ p.conns
    → q.accept_loop ≡ p.accept_loop
    → q.next ≡ p.next
    → q.serving ≡ p.serving
    → q.executing ≡ p.executing
    → q.leaving ≡ p.leaving
    → (is_past 4 q.stage ≡ true → is_past 4 p.stage ≡ true)
    → Conns q
same-Conns p q v a b c d e k f g = record {
  known = rw (a, b, c) v.known;
  old_live = rw (a, d) v.old_live;
  old_held = rw (c, d) v.old_held;
  old_registered = rw (c, d) v.old_registered;
  old_serving = rw (e, d) v.old_serving;
  old_executing = rw (k, d) v.old_executing;
  held_alone = rw (c, e, k) v.held_alone;
  old_leaving = rw (f, d) v.old_leaving;
  apart = rw (f, a) v.apart;
  left = λ s. rw (a, c) (v.left (g s));
}

pub Work-Conns : (p q : Proxy) → Work p q → Flags p → Conns p → Conns q
unfolding finish http_end
Work-Conns p _ (accepts _ w l) f v = accept-Conns p w l f v
Work-Conns p _ (fails _ w) f v = accept_error-Conns p w v
Work-Conns p _ (registers _ c h) f v = register-Conns p c h f v
Work-Conns p _ (spawns _ c h) f v = spawn-Conns p c h v
Work-Conns p _ (reads _ c h l) f v = read_command-Conns p c h v
Work-Conns p _ (answers _ c h) f v = answer_command-Conns p c h v
Work-Conns p _ (breaks _ c h) f v = break_off-Conns p c h v
Work-Conns p _ (closes _ c h l) f v = close_conn-Conns p c h v
Work-Conns p _ (forgets _ c h) f v = forget-Conns p c h v
Work-Conns p _ (finishes _ c h) f v =
    same-Conns p (finish c p) v refl refl refl refl refl refl refl (λ s. s)
Work-Conns p _ (serves _ a b) f v =
    same-Conns p (http_end p) v refl refl refl refl refl refl refl (λ s. s)
Work-Conns p _ (serve_fails _ a) f v =
    same-Conns p (http_end p) v refl refl refl refl refl refl refl (λ s. s)

pub Peer-Conns : (p q : Proxy) → Peer p q → Conns p → Conns q
Peer-Conns p _ (hangs_up _ c h) v = close_conn-Conns p c h v

pub stop-Conns : (p q : Proxy) → Stopping p q → Conns p → Conns q
unfolding mark cancel close_listener shut_http close_store
stop-Conns p _ (marks _ h) v =
    same-Conns p (mark p) v refl refl refl refl refl refl refl (λ s. absurd (ground (arith, s)))
stop-Conns p _ (cancels _ h) v =
    same-Conns p (cancel p) v refl refl refl refl refl refl refl (λ s. absurd (ground (arith, s)))
stop-Conns p _ (unlistens _ h) v =
    same-Conns p (close_listener p) v refl refl refl refl refl refl refl
      (λ s. absurd (ground (arith, s)))
stop-Conns p _ (shuts _ e h) v =
    same-Conns p (shut_http e p) v refl refl refl refl refl refl refl
      (λ s. absurd (ground (arith, s)))
stop-Conns p _ (sweeps _ h) v = sweep-Conns p v
stop-Conns p _ (drains _ h n) v =
    same-Conns p (close_store drained p) v refl refl refl refl refl refl refl
      (λ s. ground (arith, h))
stop-Conns p _ (gives_up _ h) v =
    same-Conns p (close_store timed_out p) v refl refl refl refl refl refl refl
      (λ s. ground (arith, h))
