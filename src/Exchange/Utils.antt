-- ===== src/Exchange/Utils.antt =====
-- src/exchange/src/utils.rs.
pub mod Subaccount
use hunter_fi.Base.{
  ℕ, zero, suc, ◌+◌, ◌-◌, ◌*◌, ◌/◌, ◌%◌, ◌^◌, Bool, true, false, Option, none, some, List, [], ◌∷◌,
  ltb, eqb, leb, if◌then◌else◌, ◌||◌, Result, ok, err, length,
}
use hunter_fi.Common.Types.{Principal, Float, nan, pos, neg, inf, neg_inf, one, gt_units}
use hunter_fi.Exchange.Types.{TradeParams, ExchangeError, invalid_amount, invalid_parameters, plain}
use hunter_fi.Exchange.Requests.{Platform}

-- The loop that copies the bytes into an array, from index `i` on, while the index is below 31.
-- `room` is what is left of the array.
unfoldable pub copy_bytes : ℕ → List ℕ → List ℕ
copy_bytes zero bytes = []
copy_bytes (suc room) [] = 0 ∷ copy_bytes room []
copy_bytes (suc room) (b ∷ bytes) = b ∷ copy_bytes room bytes

-- An array of 32 bytes: the length, as a `u8`, and the bytes.
unfoldable pub principal_to_subaccount : List ℕ → List ℕ
unfolding copy_bytes
principal_to_subaccount bytes = length bytes % 256 ∷ copy_bytes 31 bytes

module _ (io : Platform) where
  unfoldable pub calculate_slippage : ℕ → ℕ → Float
  calculate_slippage expected actual =
      if eqb expected 0
      then pos 0
      else (let expected_f = io.to_float expected in
          let actual_f = io.to_float actual in
          if float_le expected_f actual_f
          then pos 0
          else io.times (io.over (io.minus expected_f actual_f) expected_f) (io.to_float 100))
    where
      -- `<=` on `f64`
      float_le : Float → Float → Bool
      float_le nan _ = false
      float_le _ nan = false
      float_le neg_inf _ = true
      float_le _ neg_inf = false
      float_le _ inf = true
      float_le inf _ = false
      float_le (neg m) (neg n) = leb n m
      float_le (neg m) (pos n) = true
      float_le (pos m) (neg n) = eqb m 0
      float_le (pos m) (pos n) = leb m n

-- `current_timestamp_secs`, at the time `now`
unfoldable pub current_timestamp_secs : ℕ → ℕ
current_timestamp_secs now = now / 1000000000

-- `x < 0.0`
abbrev below_zero : Float → Bool
below_zero nan = false
below_zero (pos n) = false
below_zero (neg n) = ltb 0 n
below_zero inf = false
below_zero neg_inf = true

abbrev has_passed : ℕ → Option ℕ → Bool
has_passed now none = false
has_passed now (some deadline) = ltb deadline now

-- Every token standard is compatible, so the two checks of `validate_token_standard` pass.
unfoldable pub validate_trade_params : ℕ → TradeParams → Result ExchangeError (Unit {0})
unfolding current_timestamp_secs
validate_trade_params now params =
    if eqb params.amount 0
    then err invalid_amount
    else if below_zero params.slippage_tolerance || gt_units (100 * one) params.slippage_tolerance
    then err (invalid_parameters (plain "Slippage tolerance must be between 0 and 100"))
    else if has_passed (current_timestamp_secs now) params.deadline_secs
    then err (invalid_parameters (plain "Deadline has passed"))
    else ok tt
