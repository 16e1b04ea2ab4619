-- ===== src/Config/Defaults.antt =====
-- config.go and proxy.go: what the configuration of the storage is after the defaults of `New`.
use sqliteproxy.Base.{
  ℕ, ◌*◌, ◌≤◌, ◌<◌, ◌≡◌, refl, false, arith, if◌then◌else◌, Bool-cases, inl, inr,
}
use sqliteproxy.Base.Int.{ℤ, pos, is_nonpositive}
use sqliteproxy.Config.{FileConfig, to_config, with_limits, store_config, milliseconds}
use sqliteproxy.Storage.Boot.{with_defaults}

milliseconds-exact : (n : ℕ) → n ≤ 9_223_372_036_854 → milliseconds (pos n) ≡ pos (n * 1_000_000)
unfolding milliseconds
milliseconds-exact n h = ground (arith, h)

positive : (m : ℕ) → 0 < m → is_nonpositive (pos m) ≡ false
positive m h = ground (arith, h)

-- A busy timeout in the file from 1 to 9223372036854 milliseconds is kept, with no overflow.
pub exact_timeout :
    (fc : FileConfig) (n : ℕ)
    → fc.storage.busy_timeout ≡ pos n
    → 0 < n
    → n ≤ 9_223_372_036_854
    → (with_limits (to_config fc)).busy_timeout ≡ pos (n * 1_000_000)
unfolding with_limits to_config
exact_timeout fc n e p h =
    let more : is_nonpositive (pos (n * 1_000_000)) ≡ false =
      positive (n * 1_000_000) (omega (arith, p)) in
    rw (e, milliseconds-exact n h, more) refl

filled :
    (z d : ℤ)
    → is_nonpositive d ≡ false
    → is_nonpositive (if is_nonpositive z then d else z) ≡ false
filled z d h = elim (Bool-cases (is_nonpositive z)) [
  | inl e ↦ rw (e, h) refl
  | inr e ↦ rw (e, e) refl
]

-- Whatever the configuration file says, `New` opens the storage with at least one connection and with a
-- positive busy timeout, so that the defaults of `Open` change nothing more.
pub with_limits-bounds :
    (fc : FileConfig)
    → (is_nonpositive (with_limits (to_config fc)).max_conns ≡ false)
      × (is_nonpositive (with_limits (to_config fc)).busy_timeout ≡ false)
      × (with_defaults (store_config (with_limits (to_config fc)))
          ≡ store_config (with_limits (to_config fc)))
unfolding with_limits
with_limits-bounds fc =
    let a = filled (to_config fc).max_conns (pos 10) refl in
    let b = filled (to_config fc).busy_timeout (pos 5_000_000_000) refl in (a, b, rw (a, b) refl)
