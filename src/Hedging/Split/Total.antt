-- ===== src/Hedging/Split/Total.antt =====
-- The amounts of a split order: how many there are, and what they add up to.
use native.Mathlib.Nat.{
  mul-le-mul, div-eq_of_lt, mul-le-mul_right, div-le_of_le-mul, mod-eq_of_lt, div-mul-le_self,
}
use Prim.Native.Nat.{max}
use hunter_fi.Base.{
  ℕ, zero, suc, ◌+◌, ◌-◌, ◌*◌, ◌/◌, ◌%◌, ◌≤◌, ◌<◌, ◌≡◌, leb, arith, length, sum, Bool-cases, inl,
  inr, refl,
}
use hunter_fi.Base.Words.{u128_mod}
use hunter_fi.Hedging.Split.{random_factor, next_amount, split_from, min_order, split_amount}

random_factor-le : (seed i : ℕ) → random_factor seed i ≤ 100
unfolding random_factor
random_factor-le seed i = omega arith

-- What a random order adds to the minimum is at most what is there to share.
share-le :
    (factor range : ℕ)
    → factor ≤ 100
    → range * 100 < u128_mod
    → factor * range % u128_mod / 100 ≤ range
share-le factor range few fits =
    let bound : factor * range ≤ 100 * range = mul-le-mul_right range few in
    div-le_of_le-mul 100 (omega (arith, bound))

module _ (seed min_amount : ℕ) (pos : 1 ≤ min_amount) where
  -- An order takes no less than the minimum, and leaves the minimum for each of the later ones.
  next_amount-le :
      (i remaining later : ℕ)
      → min_amount * suc later ≤ remaining
      → remaining * 100 < u128_mod
      → (min_amount ≤ next_amount seed min_amount i remaining (suc later))
        × (next_amount seed min_amount i remaining (suc later) + min_amount * later ≤ remaining)
  unfolding next_amount random_factor
  next_amount-le i remaining later room fits =
      let step : min_amount * suc later ≡ min_amount + min_amount * later = omega arith in
      let unwrapped : min_amount * suc later % u128_mod ≡ min_amount * suc later =
        mod-eq_of_lt (omega arith) in
      elim (Bool-cases (leb (remaining - min_amount * suc later % u128_mod) min_amount)) [
        | inl little ↦ rw little (omega arith, omega (arith, step))
        | inr enough ↦
            let range = remaining - min_amount * suc later % u128_mod - min_amount in
            let share =
              share-le (random_factor seed i) range (random_factor-le seed i) (omega arith) in
            rw enough
              (ground (arith, share, step, unwrapped), ground (arith, share, step, unwrapped))
      ]

  split_from-sum :
      (i remaining later : ℕ)
      → min_amount * later ≤ remaining
      → remaining * 100 < u128_mod
      → (sum (split_from seed min_amount i remaining later) ≡ remaining)
        × (length (split_from seed min_amount i remaining later) ≡ suc later)
  unfolding split_from
  split_from-sum i remaining zero room fits = (omega arith, refl)
  split_from-sum i remaining (suc later) room fits =
      let taken = next_amount-le i remaining later room fits in
      let rest =
        split_from-sum (i + 1) (remaining - next_amount seed min_amount i remaining (suc later))
          later (omega (arith, taken)) (omega (arith, taken)) in
      (omega (arith, taken, rest), omega (arith, rest))

-- The minimum leaves room for all orders.
min_order-room :
    (total count : ℕ)
    → 2 ≤ count
    → count ≤ total + 1
    → total * 100 < u128_mod
    → (1 ≤ min_order total count) × (min_order total count * (count - 1) ≤ total)
unfolding min_order
min_order-room total count many room fits =
    let tenth = total / count * 10 % u128_mod / 100 in
    let small : tenth ≤ total / count = omega arith in
    let spread : tenth * (count - 1) ≤ total / count * count = mul-le-mul small (omega arith) in
    let whole : total / count * count ≤ total = div-mul-le_self total count in
    elim (Bool-cases (leb tenth 1)) [
      | inl little ↦
          let one : max 1 tenth ≡ 1 = ground arith in (ground arith, rw one (ground arith))
      | inr enough ↦
          let same : max 1 tenth ≡ tenth = ground arith in (ground arith, rw same (omega arith))
    ]

-- If a positive total has a unit for every order but the last and a hundred times the total fits a `u128`, the
-- amounts of a split order add up to the total, and there are as many as asked for.
pub split_amount-sum :
    (now total count : ℕ)
    → 1 ≤ total
    → 1 ≤ count
    → count ≤ total + 1
    → total * 100 < u128_mod
    → (sum (split_amount now total count) ≡ total) × (length (split_amount now total count) ≡ count)
unfolding split_amount
split_amount-sum now total count pos some_order room fits = elim (Bool-cases (leb count 1)) [
  | inl single ↦ rw single (omega arith, ground arith)
  | inr several ↦
      let order = min_order-room total count (ground arith) room fits in
      let parts =
        split_from-sum now (min_order total count) order.0 0 total (count - 1) order.1 fits in
      (ground (arith, parts), ground (arith, parts))
]

-- With a minimum of one and too little for one unit each, every order but the last takes a unit.
split_from-short :
    (seed i remaining later : ℕ)
    → remaining ≤ later
    → later < u128_mod
    → sum (split_from seed 1 i remaining later) ≡ later
unfolding split_from next_amount
split_from-short seed i remaining zero short fits = omega arith
split_from-short seed i remaining (suc later) short fits =
    ground (arith, split_from-short seed (i + 1) (remaining - 1) later)

-- If a positive total is less than the number of orders less one, and that number is a `u128`, the
-- amounts add up to the number of orders less one, which is more than the total.
pub split_amount_exceeds :
    (now total count : ℕ)
    → 1 ≤ total
    → total + 1 < count
    → count ≤ u128_mod
    → sum (split_amount now total count) ≡ count - 1
unfolding split_amount min_order
split_amount_exceeds now total count pos short fits =
    let none_each : total / count ≡ 0 = div-eq_of_lt (omega arith) in
    ground (arith, none_each, split_from-short now 0 total (count - 1) (omega arith) (omega arith))
