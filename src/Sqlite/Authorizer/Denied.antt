-- ===== src/Sqlite/Authorizer/Denied.antt =====
-- sqlite/pool.go: what the authorizer of the restricted driver denies.
use sqliteproxy.Base.{
  ◌≡◌, ◌≢◌, ◌↔◌, refl, Bool, true, false, List, [], ◌∷◌, Text, String, codes, text_eq_iff, to_lower,
  if◌then◌else◌, All, arith,
}
use sqliteproxy.Sqlite.Authorizer.{
  Operation, attach, detach, pragma, function, other, allow, deny, is_one_of, allowed_pragmas,
  authorize,
}

-- The operations that a tenant's connection must not perform.
abbrev pub IsForbidden : Operation → Type 0
IsForbidden attach = Unit
IsForbidden detach = Unit
IsForbidden (pragma name) = All (λ s. to_lower name ≢ codes s) allowed_pragmas
IsForbidden (function name) = to_lower name ≡ codes "load_extension"
IsForbidden other = ⊥

is_one_of_iff : (t : Text) (ss : List String) → (is_one_of t ss ≡ false) ↔ All (λ s. t ≢ codes s) ss
is_one_of_iff t [] = (λ h. tt, λ h. refl)
is_one_of_iff t (s ∷ ss) =
    let rest = is_one_of_iff t ss in
    let same = text_eq_iff t (codes s) in
    (λ h. ground (arith, same, rest), λ h. ground (arith, same, rest))

pragma_verdict : (b : Bool) → ((if b then allow else deny) ≡ deny) ↔ (b ≡ false)
pragma_verdict true = (λ h. absurd (ground arith), λ h. absurd (ground arith))
pragma_verdict false = (λ h. refl, λ h. refl)

-- The authorizer denies ATTACH and DETACH, every PRAGMA whose name in lower case is not on the list,
-- and the SQL function load_extension in any case; it allows everything else.
pub authorize-IsForbidden : (op : Operation) → (authorize op ≡ deny) ↔ IsForbidden op
unfolding authorize to_lower
authorize-IsForbidden attach = (λ h. tt, λ h. refl)
authorize-IsForbidden detach = (λ h. tt, λ h. refl)
authorize-IsForbidden (pragma name) =
    let listed = is_one_of_iff (to_lower name) allowed_pragmas in
    let verdict = pragma_verdict (is_one_of (to_lower name) allowed_pragmas) in
    (λ h. listed.0 (verdict.0 h), λ h. verdict.1 (listed.1 h))
authorize-IsForbidden (function name) =
    ground (arith, text_eq_iff (to_lower name) (codes "load_extension"))
authorize-IsForbidden other = (λ h. absurd (ground arith), λ h. absurd h)
