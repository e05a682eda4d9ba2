-- ===== src/Hedging/Split.antt =====
-- `get_split_order_count` and `split_amount` of src/strategies/self_hedging/src/lib.rs. The
-- arithmetic is on `u128` and wraps in a release build.
pub mod Total
use Prim.Native.Nat.{max}
use hunter_fi.Base.{
  ℕ, zero, suc, ◌+◌, ◌-◌, ◌*◌, ◌/◌, ◌%◌, List, [], ◌∷◌, leb, eqb, ◌||◌, if◌then◌else◌,
}
use hunter_fi.Base.Words.{u128_mod}

-- At the time `now`, between 3 and 10.
unfoldable pub get_split_order_count : ℕ → ℕ
get_split_order_count now = now % 8 + 3

-- The pseudo-random percentage of order number `i`.
unfoldable pub random_factor : ℕ → ℕ → ℕ
random_factor seed i = (seed + i * 7919 + seed % (i + 1) * 104729) % u128_mod % 101

-- One round of the loop: the amount of order number `i`, when `remaining_amount` is left for
-- it and `later` orders after it.
unfoldable pub next_amount : ℕ → ℕ → ℕ → ℕ → ℕ → ℕ
unfolding random_factor
next_amount seed min_amount i remaining_amount later =
    let max_for_current = remaining_amount - min_amount * later % u128_mod in
    if leb max_for_current min_amount
    then min_amount
    else (min_amount + random_factor seed i * (max_for_current - min_amount) % u128_mod / 100)
      % u128_mod

-- The loop from order number `i` on, with `later` orders after the last that it fills; the last
-- order gets what remains.
unfoldable pub split_from : ℕ → ℕ → ℕ → ℕ → ℕ → List ℕ
unfolding next_amount
split_from seed min_amount i remaining_amount zero = remaining_amount ∷ []
split_from seed min_amount i remaining_amount (suc later) =
    let amount = next_amount seed min_amount i remaining_amount (suc later) in
    amount ∷ split_from seed min_amount (i + 1) (remaining_amount - amount) later

-- 10 percent of the average, and 1 at least
unfoldable pub min_order : ℕ → ℕ → ℕ
min_order total_amount split_count = max 1 (total_amount / split_count * 10 % u128_mod / 100)

unfoldable pub split_amount : ℕ → ℕ → ℕ → List ℕ
unfolding split_from min_order
split_amount now total_amount split_count =
    if leb split_count 1 || eqb total_amount 0
    then total_amount ∷ []
    else split_from now (min_order total_amount split_count) 0 total_amount (split_count - 1)
