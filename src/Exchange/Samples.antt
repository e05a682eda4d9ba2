-- ===== src/Exchange/Samples.antt =====
-- A venue that answers every call of the connector, and trades on it.
use hunter_fi.Base.{String, ℕ, ◌+◌, none, some, [], ◌∷◌, ok, ltb}
use hunter_fi.Common.Types.{Principal, Float, pos}
use hunter_fi.Exchange.Types.{
  exchange_type_eq, icp_swap, TokenStandard, icrc1, icrc2, TokenInfo, sell, TradeParams,
}
use hunter_fi.Exchange.Requests.{
  Request, get_pool, quote, swap, deposit, deposit_from, withdraw, get_user_unused_balance,
  icrc1_transfer, icp_transfer, dip20_approve, ext_approve, icrc2_approve, icrc1_balance_of,
  account_balance, Reply, Network, Platform, Session,
}

-- A venue with one pool, canister 77, that swaps any amount for 490.
abbrev pub answer : (q : Request) → Reply q
answer (get_pool _ args) = ok (record {
  fee = 3000;
  key = "pool";
  token0 = args.token0;
  token1 = args.token1;
  canister_id = 77;
})
answer (quote _ _) = ok 500
answer (swap _ _) = ok 490
answer (deposit _ args) = ok args.amount
answer (deposit_from _ args) = ok args.amount
answer (withdraw _ args) = ok args.amount
answer (get_user_unused_balance _ _) = ok (record { balance0 = 5; balance1 = 6 })
answer (icrc1_transfer _ _) = ok 1
answer (icp_transfer _) = ok 1
answer (dip20_approve _ _ _) = ok tt
answer (ext_approve _ _ _) = ok tt
answer (icrc2_approve _ _ _) = ok 1
answer (icrc1_balance_of _ _) = 9
answer (account_balance _) = 9

-- Time passes by a second with every call.
abbrev pub venue : Network ℕ
venue = record { ask = λ q t. (ok (answer q), t + 1000000000); now = λ t. t }

abbrev pub units : Float → ℕ
units (pos n) = n
units _ = 0

abbrev pub platform : Platform
platform = record {
  as_slice = λ p. p ∷ [];
  text_before = ltb;
  to_float = pos;
  to_u128 = units;
  minus = λ a b. a;
  times = λ a b. a;
  over = λ a b. a;
  quote_fee_rate = pos 0;
}

abbrev pub session : Session ℕ
session = record {
  connector = record {
    config = record {
      exchange_type = icp_swap;
      canister_id = 99;
      default_slippage = pos 1;
      max_slippage = pos 2;
      timeout_secs = 60;
      retry_count = 3;
    };
    factory_canister_id = 99;
  };
  caller = 7;
  id = 8;
  io = platform;
  net = venue;
}

abbrev pub token : Principal → String → TokenStandard → TokenInfo
token canister symbol standard = record {
  canister_id = canister;
  symbol = symbol;
  decimals = canister;
  standard = standard;
}

abbrev pub sale : TokenStandard → TradeParams
sale standard = record {
  pair = record {
    base_token = token 20 "BASE" standard;
    quote_token = token 10 "QUOTE" icrc2;
    exchange = icp_swap;
  };
  direction = sell;
  amount = 1000;
  slippage_tolerance = pos 1;
  deadline_secs = none;
}

abbrev pub late_sale : TradeParams
late_sale = record (sale icrc1) { deadline_secs = some 1 }
