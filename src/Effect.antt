-- ===== src/Effect.antt =====
-- A Go function that returns `(value, error)` and changes a state: it takes the state and returns
-- the result with the new state, also where it fails.
use sqliteproxy.Base.{Text, Option, none, some, ◌≡◌, refl, ◌⊎◌, inl, inr}
use sqliteproxy.Errors.{Error, wrapped}

pub data Result {ℓ} (A : Type ℓ) : Type ℓ where
  ok : A → Result A
  err : Error → Result A

abbrev pub wrap_result {ℓ} : {A : Type ℓ} → Text → Result A → Result A
wrap_result t (ok a) = ok a
wrap_result t (err e) = err (wrapped t e)

abbrev pub Action : Type 0 → Type 0 → Type 0
Action W A = W → Result A × W

abbrev pub pure : {W A : Type 0} → A → Action W A
pure a w = (ok a, w)

abbrev pub fail : {W A : Type 0} → Error → Action W A
fail e w = (err e, w)

infixl 5 ◌>>=◌ ◌>>◌
abbrev pub ◌>>=◌ : {W A B : Type 0} → Action W A → (A → Action W B) → Action W B
◌>>=◌ m f w = elim (m w).0 [ ok a ↦ f a (m w).1 | err e ↦ (err e, (m w).1) ]

abbrev pub ◌>>◌ : {W B : Type 0} → Action W (Unit {0}) → Action W B → Action W B
m >> k = m >>= λ _. k

-- A call that returns only an error; `none` is `nil`.
abbrev pub attempt : {W : Type 0} → (W → Option Error × W) → Action W (Unit {0})
attempt f w = elim (f w).0 [ none ↦ (ok tt, (f w).1) | some e ↦ (err e, (f w).1) ]

-- `if err != nil { cleanup; return fmt.Errorf("text: %w", err) }`
abbrev pub or_cleanup : {W A : Type 0} → Action W A → (W → W) → (Error → Error) → Action W A
or_cleanup m cleanup wrap w = elim (m w).0 [
  | ok a ↦ (ok a, (m w).1)
  | err e ↦ (err (wrap e), cleanup (m w).1)
]

-- A call that cannot fail.
abbrev pub run_unit : {W : Type 0} → (W → W) → Action W (Unit {0})
run_unit f w = (ok tt, f w)

pub Result-cases {ℓ} :
    {A : Type ℓ} (r : Result A) → ((a : A) × (r ≡ ok a)) ⊎ ((e : Error) × (r ≡ err e))
Result-cases (ok a) = inl (a, refl)
Result-cases (err e) = inr (e, refl)
