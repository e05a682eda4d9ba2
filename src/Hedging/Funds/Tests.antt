-- ===== src/Hedging/Funds/Tests.antt =====
-- The strategy's funds at a concrete exchange.
use hunter_fi.Base.{false, ℕ, ◌+◌, ◌≤◌, ◌≡◌, refl, Bool, true, some, ok, err, nat_eq}
use hunter_fi.Common.Types.{running}
use hunter_fi.Exchange.Requests.{Network, Session}
use hunter_fi.Exchange.Samples.{answer, platform, session}
use hunter_fi.Exchange.Calls.{
  get_pool_canister, pool_args, is_zero_for_one, token_to_icpswap_token, standard_text, reply_of,
  to_u128, call_withdraw, call_get_user_unused_balance,
}
use hunter_fi.Exchange.Deposits.{withdraw_token, get_unused_balance, amount_args, transfer_fee}
use hunter_fi.Factory.Samples.{hedge}
use hunter_fi.Hedging.State.{
  SelfHedgingState, Hedging, not_owner, verify_owner, update_unused_balance, set_cell,
}
use hunter_fi.Hedging.Lifecycle.{initial, check_icpswap_balance}
use hunter_fi.Hedging.Funds.{
  Letters, Side, side_of, on_side, verified, check_balance, unused_of, create_trade_params,
  create_token_info, token_standard_from_string, exchange, deposit_to_exchange,
  withdraw_from_exchange, withdraw_side, withdraw_covered,
}
use hunter_fi.Hedging.Funds.Guarded.{funds-Refused, withdraw_from_exchange-covered}

-- A stable memory that always grows, and texts that are in one case already.
abbrev always : SelfHedgingState → Bool
always _ = true

abbrev letters : Letters
letters = record { to_uppercase = λ s. s; to_lowercase = λ s. s }

-- Every call is answered after a second, and changes nothing of the canister.
abbrev quiet_venue : Network (Hedging × ℕ)
quiet_venue = record { ask = λ q w. (ok (answer q), (w.0, w.1 + 1000000000)); now = λ w. w.1 }

-- A message from the principal `caller`.
abbrev message : ℕ → Session (Hedging × ℕ)
message caller = record {
  connector = session.connector;
  caller = caller;
  id = 50;
  io = platform;
  net = quiet_venue;
}

abbrev world : Hedging × ℕ
world = (
  record {
    cell = record (initial 7 hedge) { status = running };
    in_progress = false;
    timer = some 60;
  },
  5000000000,
)

funds-Refused_example :
    (deposit_to_exchange letters always 99 (message 8) "base" 3 world ≡ (err not_owner, world))
    × (withdraw_from_exchange letters always 99 (message 8) "base" 3 world ≡ (err not_owner, world))
unfolding nat_eq
funds-Refused_example = funds-Refused letters always 99 (message 8) "base" 3 world refl refl

withdrawal_of_base :
    withdraw_from_exchange letters always 99 (message 7) "base" 3 world
    ≡ (ok tt, (withdraw_from_exchange letters always 99 (message 7) "base" 3 world).1)
unfolding withdraw_from_exchange verified verify_owner withdraw_side withdraw_covered check_balance
    unused_of create_trade_params create_token_info token_standard_from_string side_of
    get_unused_balance get_pool_canister pool_args is_zero_for_one token_to_icpswap_token
    standard_text reply_of call_get_user_unused_balance to_u128 check_icpswap_balance
    update_unused_balance set_cell withdraw_token amount_args transfer_fee call_withdraw nat_eq
    exchange
withdrawal_of_base = refl

withdraw_from_exchange-covered_example :
    (side : Side) × (balances : ℕ × ℕ) × (side_of letters "base" ≡ ok side)
    × ((check_balance letters always 99 (message 7) world).0 ≡ ok balances)
    × (3 ≤ on_side side balances.0 balances.1)
withdraw_from_exchange-covered_example =
    withdraw_from_exchange-covered letters always 99 (message 7) "base" 3 world
      (withdraw_from_exchange letters always 99 (message 7) "base" 3 world).1 withdrawal_of_base
