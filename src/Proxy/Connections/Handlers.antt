-- ===== src/Proxy/Connections/Handlers.antt =====
-- proxy.go: the connections of a proxy after a step of a handler.
use sqliteproxy.Base.{ℕ, ◌≡◌, List, In, inl, inr, sym, subst, arith}
use sqliteproxy.Proxy.{Proxy, close_conn, forget, read_command, answer_command, break_off}
use sqliteproxy.Proxy.Members.{In-without, without-In, In-take_out}
use sqliteproxy.Proxy.Invariant.{Conns}

member : (x y : ℕ) (xs : List ℕ) → x ≡ y → In y xs → In x xs
member x y xs e i = subst (λ z. In z xs) (sym e) i

pub close_conn-Conns : (p : Proxy) (c : ℕ) → In c p.serving → Conns p → Conns (close_conn c p)
unfolding close_conn
close_conn-Conns p c m v = record {
  known = λ x i. v.known x (In-without c x p.live i).0;
  old_live = λ x i. v.old_live x (In-without c x p.live i).0;
  old_held = v.old_held;
  old_registered = v.old_registered;
  old_serving = λ x i. v.old_serving x (In-take_out c x p.serving i);
  old_executing = v.old_executing;
  held_alone =
      λ x k. (λ i. (v.held_alone x k).0 (In-take_out c x p.serving i), (v.held_alone x k).1);
  old_leaving =
      λ x i. elim i [ inl e ↦ omega (arith, e, v.old_serving c m) | inr j ↦ v.old_leaving x j ];
  apart = λ x i j. elim i [
    | inl e ↦ (In-without c x p.live j).1 e
    | inr k ↦ v.apart x k (In-without c x p.live j).0
  ];
  left = λ s x i. v.left s x (In-without c x p.live i).0;
}

pub read_command-Conns : (p : Proxy) (c : ℕ) → In c p.serving → Conns p → Conns (read_command c p)
unfolding read_command
read_command-Conns p c m v = record {
  known = v.known;
  old_live = v.old_live;
  old_held = v.old_held;
  old_registered = v.old_registered;
  old_serving = λ x i. v.old_serving x (In-take_out c x p.serving i);
  old_executing =
      λ x i. elim i [ inl e ↦ omega (arith, e, v.old_serving c m) | inr j ↦ v.old_executing x j ];
  old_leaving = v.old_leaving;
  apart = v.apart;
  held_alone = λ x k. (
    λ i. (v.held_alone x k).0 (In-take_out c x p.serving i),
    λ i. elim i [
      | inl e ↦ (v.held_alone x k).0 (member x c p.serving e m)
      | inr j ↦ (v.held_alone x k).1 j
    ],
  );
  left = v.left;
}

pub answer_command-Conns :
    (p : Proxy) (c : ℕ) → In c p.executing → Conns p → Conns (answer_command c p)
unfolding answer_command
answer_command-Conns p c m v = record {
  known = v.known;
  old_live = v.old_live;
  old_held = v.old_held;
  old_registered = v.old_registered;
  old_serving =
      λ x i. elim i [ inl e ↦ omega (arith, e, v.old_executing c m) | inr j ↦ v.old_serving x j ];
  old_executing = λ x i. v.old_executing x (In-take_out c x p.executing i);
  old_leaving = v.old_leaving;
  apart = v.apart;
  held_alone = λ x k. (
    λ i. elim i [
      | inl e ↦ (v.held_alone x k).1 (member x c p.executing e m)
      | inr j ↦ (v.held_alone x k).0 j
    ],
    λ i. (v.held_alone x k).1 (In-take_out c x p.executing i),
  );
  left = v.left;
}

pub break_off-Conns : (p : Proxy) (c : ℕ) → In c p.executing → Conns p → Conns (break_off c p)
unfolding break_off
break_off-Conns p c m v = record {
  known = λ x i. v.known x (In-without c x p.live i).0;
  old_live = λ x i. v.old_live x (In-without c x p.live i).0;
  old_held = v.old_held;
  old_registered = v.old_registered;
  old_serving = v.old_serving;
  old_executing = λ x i. v.old_executing x (In-take_out c x p.executing i);
  old_leaving =
      λ x i. elim i [ inl e ↦ omega (arith, e, v.old_executing c m) | inr j ↦ v.old_leaving x j ];
  apart = λ x i j. elim i [
    | inl e ↦ (In-without c x p.live j).1 e
    | inr k ↦ v.apart x k (In-without c x p.live j).0
  ];
  held_alone =
      λ x k. ((v.held_alone x k).0, λ i. (v.held_alone x k).1 (In-take_out c x p.executing i));
  left = λ s x i. v.left s x (In-without c x p.live i).0;
}

pub forget-Conns : (p : Proxy) (c : ℕ) → In c p.leaving → Conns p → Conns (forget c p)
unfolding forget
forget-Conns p c m v = record {
  known = λ x i. elim (v.known x i) [
    | inl k ↦ inl (without-In c x p.conns k (λ e. v.apart c m (member c x p.live (sym e) i)))
    | inr k ↦ inr k
  ];
  old_live = v.old_live;
  old_held = v.old_held;
  old_registered = v.old_registered;
  old_serving = v.old_serving;
  old_executing = v.old_executing;
  held_alone = v.held_alone;
  old_leaving = λ x i. v.old_leaving x (In-take_out c x p.leaving i);
  apart = λ x i. v.apart x (In-take_out c x p.leaving i);
  left = v.left;
}
