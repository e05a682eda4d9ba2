-- ===== src/Base/Words.antt =====
-- Saturating and wrapping arithmetic on `u64` and `u128`. A release build of the canisters has no
-- overflow checks, so a plain `+` or `*` wraps.
use Prim.Native.Nat.{ℕ, ◌+◌, ◌-◌, min}

abbrev pub u64_max : ℕ
u64_max = 18446744073709551615

abbrev pub u64_mod : ℕ
u64_mod = 18446744073709551616

abbrev pub u128_mod : ℕ
u128_mod = 340282366920938463463374607431768211456

-- `u64::saturating_add`
abbrev pub sat_add64 : ℕ → ℕ → ℕ
sat_add64 a b = min (a + b) u64_max

-- `u128::saturating_add`
abbrev pub sat_add128 : ℕ → ℕ → ℕ
sat_add128 a b = min (a + b) (u128_mod - 1)
