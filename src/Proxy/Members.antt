-- ===== src/Proxy/Members.antt =====
-- proxy.go: the members of the lists of connections.
use sqliteproxy.Base.{
  ℕ, ◌+◌, ◌≡◌, ◌≢◌, Bool, true, false, [], ◌∷◌, List, In, inl, inr, ◌⊎◌, sym, refl, subst, arith,
  length, Bool-cases, if◌then◌else◌, ◌==◌,
}
use sqliteproxy.Proxy.{without, without_all, take_out}

In-if :
    (b : Bool) (x y : ℕ) (xs ys : List ℕ)
    → In x (if b then xs else y ∷ ys)
    → ((b ≡ true) × In x xs) ⊎ ((b ≡ false) × In x (y ∷ ys))
In-if true x y xs ys i = inl (refl, i)
In-if false x y xs ys i = inr (refl, i)

In-then :
    (b : Bool) (x y : ℕ) (xs ys : List ℕ) → b ≡ true → In x xs → In x (if b then xs else y ∷ ys)
In-then b x y xs ys e i = subst (λ t. In x (if t then xs else y ∷ ys)) (sym e) i

In-else :
    (b : Bool) (x y : ℕ) (xs ys : List ℕ)
    → b ≡ false
    → In x (y ∷ ys)
    → In x (if b then xs else y ∷ ys)
In-else b x y xs ys e i = subst (λ t. In x (if t then xs else y ∷ ys)) (sym e) i

pub In-without : (c x : ℕ) (xs : List ℕ) → In x (without c xs) → In x xs × (x ≢ c)
unfolding without
In-without c x [] i = absurd i
In-without c x (y ∷ xs) i = elim (In-if (y == c) x y (without c xs) (without c xs) i) [
  | inl h ↦ let (j, n) = In-without c x xs h.1 in (inr j, n)
  | inr h ↦ elim h.1 [
    | inl e ↦ (inl e, λ f. ground (arith, h.0, e, f))
    | inr j ↦ let (k, n) = In-without c x xs j in (inr k, n)
  ]
]

pub without-In : (c x : ℕ) (xs : List ℕ) → In x xs → x ≢ c → In x (without c xs)
unfolding without
without-In c x [] i n = absurd i
without-In c x (y ∷ xs) i n = elim (Bool-cases (y == c)) [
  | inl e ↦ elim i [
    | inl f ↦ absurd (n (ground (arith, e, f)))
    | inr j ↦ In-then (y == c) x y _ (without c xs) e (without-In c x xs j n)
  ]
  | inr e ↦ elim i [
    | inl f ↦ In-else (y == c) x y (without c xs) _ e (inl f)
    | inr j ↦ In-else (y == c) x y (without c xs) _ e (inr (without-In c x xs j n))
  ]
]

pub In-without_all :
    (cs : List ℕ) (x : ℕ) (xs : List ℕ) → In x (without_all cs xs) → In x xs × ¬ In x cs
unfolding without_all
In-without_all [] x xs i = (i, λ j. absurd j)
In-without_all (d ∷ cs) x xs i =
    let (j, n) = In-without_all cs x (without d xs) i in
    let (k, m) = In-without d x xs j in (k, λ h. elim h [ inl e ↦ m e | inr l ↦ n l ])

pub length-take_out : (c : ℕ) (xs : List ℕ) → In c xs → length (take_out c xs) + 1 ≡ length xs
unfolding take_out
length-take_out c [] i = absurd i
length-take_out c (x ∷ xs) (inl e) = ground (arith, e)
length-take_out c (x ∷ xs) (inr i) = ground (arith, length-take_out c xs i)

pub In-take_out : (c x : ℕ) (xs : List ℕ) → In x (take_out c xs) → In x xs
unfolding take_out
In-take_out c x [] i = i
In-take_out c x (y ∷ xs) i = elim (In-if (y == c) x y xs (take_out c xs) i) [
  | inl h ↦ inr h.1
  | inr h ↦ elim h.1 [ inl e ↦ inl e | inr j ↦ inr (In-take_out c x xs j) ]
]
