-- ===== src/Exchange/Tests.antt =====
-- The theorems at the venue of Exchange/Samples.
use hunter_fi.Base.{
  ◌/◌, ℕ, ◌≡◌, refl, true, false, some, List, [], ◌∷◌, ◌++◌, ok, arith, if◌then◌else◌,
}
use hunter_fi.Exchange.Utils.{
  validate_trade_params, current_timestamp_secs, principal_to_subaccount,
}
use hunter_fi.Exchange.Calls.{
  get_pool_canister, pool_args, is_zero_for_one, token_to_icpswap_token, standard_text, reply_of,
  call_quote, call_swap, call_deposit, call_deposit_from, call_withdraw, to_u64, to_u128,
}
use hunter_fi.Exchange.Tokens.{
  transfer_token_to_pool_subaccount, transfer_by, approve_token, approve_by,
}
use hunter_fi.Exchange.Trades.{
  execute_batch_trade, batch_loop, execute_icpswap_trade, get_quote_internal, quote_result,
  swap_args, price_of, minimum_output, fund_and_swap, workflow, workflow1, workflow2, deposit_args,
  withdraw_args, token_fee, trade_result,
}
use hunter_fi.Exchange.Pools.{get_pool_info}
use hunter_fi.Exchange.Deposits.{
  deposit_token, deposit_by, deposit_approved, amount_args, transfer_fee, withdraw_token,
}
use hunter_fi.Common.Types.{pos, one}
use hunter_fi.Exchange.Types.{exchange_type_eq, PoolInfo, icrc1, icrc2, TradeParams, TradeResult}
use hunter_fi.Exchange.Requests.{canonical, IcpSwapPoolData, Request, get_pool}
use hunter_fi.Exchange.Trace.{
  withdrawing, swapping, depositing_from, approving, quoting, getting_pool, Follows, Logged, logged,
}
use hunter_fi.Exchange.Calls.{to_u128}
use hunter_fi.Exchange.Trades.{execute_batch_trade, batch_loop, execute_icpswap_trade}
use hunter_fi.Exchange.Utils.Subaccount.{subaccount_bytes, principal_to_subaccount-round_trip}
use hunter_fi.Exchange.Calls.Pairs.{get_pool_canister-symmetric}
use hunter_fi.Exchange.Trades.Direction.{swap_args-pool_args}
use hunter_fi.Exchange.Trades.Order.{execute_icpswap_trade-Follows}
use hunter_fi.Exchange.Trades.Delivered.{Delivered}
use hunter_fi.Exchange.Trades.Delivery.{execute_icpswap_trade-Delivered}
use hunter_fi.Exchange.Trades.Batch.{trade_each, all_ok, execute_batch_trade-each}
use hunter_fi.Exchange.Deposits.Requested.{
  IsWithdrawn, IsDeposited, deposit_token-requests, withdraw_token-requests,
}
use hunter_fi.Exchange.Pools.Labels.{get_pool_info-labels}
use hunter_fi.Exchange.Samples.{session, token, sale, late_sale}

abbrev start : Logged ℕ
start = ([], 5000000000)

abbrev sold : TradeResult
sold = record {
  input_amount = 1000;
  output_amount = 490;
  fee_amount = 1000;
  price = pos 490;
  timestamp = 11;
  transaction_id = some (record { pool = 77; nanoseconds = 11000000000 });
}

sale_of_icrc1 :
    execute_icpswap_trade (logged session) (sale icrc1) start
    ≡ (ok sold, (execute_icpswap_trade (logged session) (sale icrc1) start).1)
unfolding execute_icpswap_trade validate_trade_params current_timestamp_secs get_pool_canister
    pool_args is_zero_for_one token_to_icpswap_token standard_text reply_of get_quote_internal
    quote_result swap_args price_of minimum_output fund_and_swap workflow workflow1 workflow2
    deposit_args withdraw_args token_fee transfer_token_to_pool_subaccount transfer_by approve_token
    approve_by call_quote call_swap call_deposit call_deposit_from call_withdraw to_u64 to_u128
    trade_result one
sale_of_icrc1 = refl

execute_icpswap_trade-Delivered_example :
    (asked : List Request) × ((execute_icpswap_trade (logged session) (sale icrc1) start).1.0
      ≡ [] ++ asked)
    × Delivered session (sale icrc1) 5000000000 sold asked
execute_icpswap_trade-Delivered_example =
    execute_icpswap_trade-Delivered session (sale icrc1) start
      (execute_icpswap_trade (logged session) (sale icrc1) start).1 sold sale_of_icrc1

execute_icpswap_trade-Follows_example :
    Follows []
      (getting_pool ∷ quoting ∷ approving ∷ depositing_from ∷ swapping ∷ withdrawing ∷ [])
      (execute_icpswap_trade (logged session) (sale icrc2) start)
execute_icpswap_trade-Follows_example = execute_icpswap_trade-Follows session (sale icrc2) start

-- The second of these trades is late.
abbrev batch : List TradeParams
batch = sale icrc1 ∷ late_sale ∷ []

execute_batch_trade-each_example :
    execute_batch_trade session (record { trades = batch; require_all_success = false }) 5000000000
    ≡ (
      ok (record {
        results = (trade_each session batch 5000000000).0;
        all_succeeded = all_ok (trade_each session batch 5000000000).0;
        timestamp = (trade_each session batch 5000000000).1 / 1000000000;
      }),
      (trade_each session batch 5000000000).1,
    )
unfolding current_timestamp_secs
execute_batch_trade-each_example = execute_batch_trade-each session batch 5000000000

batch_of_one :
    execute_batch_trade session
      (record { trades = sale icrc1 ∷ []; require_all_success = true })
      5000000000
    ≡ (ok (record { results = ok sold ∷ []; all_succeeded = true; timestamp = 11 }), 11000000000)
unfolding execute_icpswap_trade validate_trade_params current_timestamp_secs get_pool_canister
    pool_args is_zero_for_one token_to_icpswap_token standard_text reply_of get_quote_internal
    quote_result swap_args price_of minimum_output fund_and_swap workflow workflow1 workflow2
    deposit_args withdraw_args token_fee transfer_token_to_pool_subaccount transfer_by approve_token
    approve_by call_quote call_swap call_deposit call_deposit_from call_withdraw to_u64 to_u128
    trade_result one execute_batch_trade batch_loop
batch_of_one = refl

deposit_of_icrc2 :
    deposit_token (logged session) (sale icrc2) (token 20 "BASE" icrc2) 300 start
    ≡ (ok 300, (deposit_token (logged session) (sale icrc2) (token 20 "BASE" icrc2) 300 start).1)
unfolding deposit_token deposit_by deposit_approved amount_args transfer_fee get_pool_canister
    pool_args is_zero_for_one token_to_icpswap_token standard_text reply_of approve_token approve_by
    call_deposit_from to_u128
deposit_of_icrc2 = refl

deposit_token-requests_example :
    (asked : List Request) × ((deposit_token
        (logged session)
        (sale icrc2)
        (token 20 "BASE" icrc2)
        300
        start).1.0
      ≡ [] ++ asked)
    × IsDeposited session (sale icrc2) (token 20 "BASE" icrc2) 300 5000000000 300 asked
deposit_token-requests_example =
    deposit_token-requests session (sale icrc2) (token 20 "BASE" icrc2) 300 300 start
      (deposit_token (logged session) (sale icrc2) (token 20 "BASE" icrc2) 300 start).1
      deposit_of_icrc2

withdrawal_of_icrc2 :
    withdraw_token (logged session) (sale icrc2) (token 20 "BASE" icrc2) 300 start
    ≡ (ok 300, (withdraw_token (logged session) (sale icrc2) (token 20 "BASE" icrc2) 300 start).1)
unfolding withdraw_token amount_args transfer_fee get_pool_canister pool_args is_zero_for_one
    token_to_icpswap_token standard_text reply_of call_withdraw to_u128
withdrawal_of_icrc2 = refl

withdraw_token-requests_example :
    (asked : List Request) × ((withdraw_token
        (logged session)
        (sale icrc2)
        (token 20 "BASE" icrc2)
        300
        start).1.0
      ≡ [] ++ asked)
    × IsWithdrawn session (sale icrc2) (token 20 "BASE" icrc2) 300 5000000000 300 asked
withdraw_token-requests_example =
    withdraw_token-requests session (sale icrc2) (token 20 "BASE" icrc2) 300 300 start
      (withdraw_token (logged session) (sale icrc2) (token 20 "BASE" icrc2) 300 start).1
      withdrawal_of_icrc2

principal_to_subaccount-round_trip_example :
    subaccount_bytes (principal_to_subaccount (4 ∷ 0 ∷ 9 ∷ [])) ≡ 4 ∷ 0 ∷ 9 ∷ []
principal_to_subaccount-round_trip_example =
    principal_to_subaccount-round_trip (4 ∷ 0 ∷ 9 ∷ []) (omega arith)

swap_args-pool_args_example :
    ((pool_args session (token 20 "BASE" icrc1) (token 10 "QUOTE" icrc2)).token0
      ≡ token_to_icpswap_token (
          if (swap_args session (sale icrc1) 9).zero_for_one
          then token 20 "BASE" icrc1
          else token 10 "QUOTE" icrc2))
    × ((pool_args session (token 20 "BASE" icrc1) (token 10 "QUOTE" icrc2)).token1
        ≡ token_to_icpswap_token (
            if (swap_args session (sale icrc1) 9).zero_for_one
            then token 10 "QUOTE" icrc2
            else token 20 "BASE" icrc1))
swap_args-pool_args_example = swap_args-pool_args session (sale icrc1) 9 refl

get_pool_canister-symmetric_example :
    get_pool_canister session (token 20 "BASE" icrc1) (token 10 "QUOTE" icrc2) 0
    ≡ get_pool_canister session (token 10 "QUOTE" icrc2) (token 20 "BASE" icrc1) 0
get_pool_canister-symmetric_example =
    get_pool_canister-symmetric session (token 20 "BASE" icrc1) (token 10 "QUOTE" icrc2) 0 refl

-- The venue's pool of a pair whose base token is its second.
abbrev pool_of_pair : IcpSwapPoolData
pool_of_pair = record {
  fee = 3000;
  key = "pool";
  token0 = record { address = canonical 10; standard = "ICRC2" };
  token1 = record { address = canonical 20; standard = "ICRC1" };
  canister_id = 77;
}

answer_of_pair :
    session.net.ask
      (get_pool 99 (pool_args session (token 20 "BASE" icrc1) (token 10 "QUOTE" icrc2)))
      0
    ≡ (ok (ok pool_of_pair), 1000000000)
unfolding pool_args is_zero_for_one token_to_icpswap_token standard_text
answer_of_pair = refl

first_of_pair :
    pool_of_pair.token0
    ≡ (pool_args session (token 20 "BASE" icrc1) (token 10 "QUOTE" icrc2)).token0
unfolding pool_args is_zero_for_one token_to_icpswap_token standard_text
first_of_pair = refl

second_of_pair :
    pool_of_pair.token1
    ≡ (pool_args session (token 20 "BASE" icrc1) (token 10 "QUOTE" icrc2)).token1
unfolding pool_args is_zero_for_one token_to_icpswap_token standard_text
second_of_pair = refl

get_pool_info-labels_example :
    (info : PoolInfo) × (get_pool_info session (token 20 "BASE" icrc1) (token 10 "QUOTE" icrc2) 0
      ≡ (ok info, 1000000000))
    × (info.token0.canister_id ≡ 10)
    × (info.token0.symbol ≡ "BASE")
    × (info.token0.decimals ≡ 20)
unfolding is_zero_for_one
get_pool_info-labels_example =
    get_pool_info-labels session (token 20 "BASE" icrc1) (token 10 "QUOTE" icrc2) 0 1000000000
      pool_of_pair answer_of_pair first_of_pair second_of_pair (omega arith)
