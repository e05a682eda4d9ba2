-- ===== src/Factory/Samples.antt =====
-- Concrete data for the tests of the factory: a user (7), two administrators (3 and 4), the factory's
-- own canister (1) and the ledger's (9).
use hunter_fi.Base.{[], ◌∷◌, none, ok, err}
use hunter_fi.Common.Types.{
  Principal, TokenMetadata, TradingPair, pos, icp_swap, no_split, self_hedging, payment_received,
  deployed,
}
use hunter_fi.Common.Config.{SelfHedgingConfig, StrategyConfig, hedging}
use hunter_fi.Factory.Types.{
  DeploymentId, UserAccount, Call, Factory, Bytes, DeploymentRecord, plain, canister_error,
}
use hunter_fi.Factory.Api.{empty_factory}
use hunter_fi.Factory.Payment.{Rejection}
use hunter_fi.Factory.Deployment.{Codec, Replies}

abbrev pub user_call : Call
user_call = record { caller = 7; time = 5000; id = 1; cycles = 2000000000000 }

abbrev pub later_call : Call
later_call = record { caller = 7; time = 6000; id = 1; cycles = 2000000000000 }

abbrev pub admin_call : Call
admin_call = record { caller = 3; time = 5000; id = 1; cycles = 2000000000000 }

abbrev pub user_account : UserAccount
user_account = record {
  owner = 7;
  balance = 500000000;
  last_deposit = 4000;
  total_deposited = 500000000;
  total_consumed = 0;
}

abbrev pub factory : Factory
factory = record empty_factory { user_accounts = (7, user_account) ∷ []; admins = 3 ∷ 4 ∷ [] }

abbrev pub token : Principal → TokenMetadata
token p = record { canister_id = p; symbol = "TOK"; decimals = 8; standard = "ICRC1"; fee = 10000 }

abbrev pub pair : TradingPair
pair = record { base_token = token 21; quote_token = token 22 }

abbrev pub hedge : SelfHedgingConfig
hedge = record {
  exchange = icp_swap;
  trading_pair = pair;
  hold_token = 21;
  transaction_size = 1000000;
  order_split_type = no_split;
  check_interval_secs = 60;
  slippage_tolerance = pos 1;
}

abbrev pub config : StrategyConfig
config = hedging hedge

abbrev pub encoded : Bytes
encoded = 68 ∷ 73 ∷ 68 ∷ 76 ∷ []

abbrev pub codec : Codec
codec = record {
  encode = λ _. ok encoded;
  decode_dca = λ _. err (plain "type mismatch");
  decode_value_avg = λ _. err (plain "type mismatch");
  decode_fixed_balance = λ _. err (plain "type mismatch");
  decode_limit_order = λ _. err (plain "type mismatch");
  decode_self_hedging = λ _. ok hedge;
  icp_ledger = 9;
}

-- A codec that encodes nothing.
abbrev pub broken_codec : Codec
broken_codec = record codec { encode = λ _. err (plain "cannot encode") }

abbrev pub refusal : Rejection
refusal = record { code = canister_error; message = "no cycles" }

-- The canister is created, and its code does not install.
abbrev pub replies : Replies
replies = record {
  created = ok 33;
  created_call = later_call;
  installed = err refusal;
  installed_call = later_call;
  initialized_reply = ok tt;
  initialized_call = later_call;
}

abbrev pub sample_id : DeploymentId
sample_id = record { timestamp = 4500; caller = 7; counter = 0 }

abbrev pub sample_record : DeploymentRecord
sample_record = record {
  deployment_id = sample_id;
  strategy_type = self_hedging;
  owner = 7;
  fee_amount = 100000000;
  request_time = 4500;
  status = payment_received;
  canister_id = none;
  config_data = encoded;
  error_message = none;
  last_updated = 4500;
}

abbrev pub pending : Factory
pending = record factory { deployment_records = (sample_id, sample_record) ∷ [] }

abbrev pub closed_record : DeploymentRecord
closed_record = record sample_record { status = deployed }

abbrev pub closed : Factory
closed = record factory { deployment_records = (sample_id, closed_record) ∷ [] }
