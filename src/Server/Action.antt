-- ===== src/Server/Action.antt =====
-- Sequencing of the handler's actions, shut so that proofs follow its shape.
use sqliteproxy.Errors.{Error}
use sqliteproxy.Effect.{ok, err, Action}

infixl 5 ◌>>=◌ ◌>>◌
unfoldable pub ◌>>=◌ : {W A B : Type 0} → Action W A → (A → Action W B) → Action W B
◌>>=◌ m f w = elim (m w).0 [ ok a ↦ f a (m w).1 | err e ↦ (err e, (m w).1) ]

abbrev pub ◌>>◌ : {W B : Type 0} → Action W (Unit {0}) → Action W B → Action W B
m >> k = m >>= λ _. k

unfoldable pub pure : {W A : Type 0} → A → Action W A
pure a w = (ok a, w)

unfoldable pub fail : {W A : Type 0} → Error → Action W A
fail e w = (err e, w)
