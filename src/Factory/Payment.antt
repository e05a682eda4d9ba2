-- ===== src/Factory/Payment.antt =====
-- src/factory/src/payment.rs. The ledger is another canister: a call of it is a request that the
-- code builds, and a reply that the environment gives. What runs before the call and what runs
-- after it are two definitions, since other messages may run between them.
pub mod Balance
pub mod Ledger
pub mod Failed
pub use hunter_fi.Common.Calls.{Rejection}
use hunter_fi.Base.{
  ℕ, zero, suc, ◌+◌, Bool, true, false, Option, none, some, List, [], ◌∷◌, String, eqb, ltb, leb,
  not, ◌&&◌, if◌then◌else◌, ◌==◌, nat_eq, Result, ok, err, Action, fail_if, from_result, gets, pure,
  ◌>>=◌, ◌>>◌, with_err,
}
use hunter_fi.Base.Words.{u64_max}
use hunter_fi.Common.Types.{
  Principal, anonymous, DeploymentStatus, deployment_status_eq, deployment_failed, refunded,
}
use hunter_fi.Factory.Types.{
  DeploymentId, TransactionType, deposit, deployment_fee, refund, withdrawal, Message, plain,
  of_num, of_nums, of_id, of_message, of_rejection, of_principal, PaymentError, invalid_amount,
  insufficient_balance, transfer_failed, system_error, invalid_principal, RejectionCode,
  sys_transient, DeploymentRecord, Call, Factory,
}
use hunter_fi.Factory.State.{
  FactoryAction, update_user_balance, check_user_balance, recorded, get_user_account,
  update_deployment_status, get_deployment_records_by_status,
}

abbrev pub PaymentAction : Type 0 → Type 0
PaymentAction A = Action Factory PaymentError A

-- `PAYMENT_CONFIG`
abbrev pub max_deposit_amount : ℕ
max_deposit_amount = 10000000000

abbrev pub min_deposit_amount : ℕ
min_deposit_amount = 1000000

abbrev pub icp_transfer_fee : ℕ
icp_transfer_fee = 10000

abbrev pub max_withdrawal_retries : ℕ
max_withdrawal_retries = 3

abbrev pub min_cycles_balance : ℕ
min_cycles_balance = 1000000000

pub record Account : Type 0 where
  pub owner : Principal
  pub subaccount : Option (List ℕ)

pub record TransferArgs : Type 0 where
  pub to : Account
  pub amount : ℕ  -- u128
  pub fee : Option ℕ  -- u128
  pub memo : Option Message
  pub created_at_time : Option ℕ  -- u64

-- A call of `icrc1_transfer`: the ledger's canister and the arguments.
pub record LedgerCall : Type 0 where
  pub ledger : Principal
  pub args : TransferArgs

unfoldable pub validate_amount : ℕ → ℕ → ℕ → String → Result PaymentError (Unit {0})
validate_amount amount min max operation =
    if eqb amount 0
    then err (invalid_amount (of_message "{} amount must be greater than 0" (plain operation)))
    else if ltb amount min
    then err
        (invalid_amount (of_message "{} amount cannot be less than {} ICP" (of_num operation min)))
    else if ltb max amount
    then err (invalid_amount (of_message "{} amount cannot exceed {} ICP" (of_num operation max)))
    else ok tt

abbrev pub transfer_args : Call → Principal → ℕ → Message → TransferArgs
transfer_args c owner amount memo = record {
  to = record { owner = owner; subaccount = none };
  amount = amount;
  fee = some icp_transfer_fee;
  memo = some memo;
  created_at_time = some c.time;
}

-- `Principal::from_text(ICP_LEDGER_CANISTER_ID)`, which the section takes as `ledger_id`.
abbrev parse_ledger : Option Principal → Result PaymentError Principal
parse_ledger none = err (system_error (plain "Invalid ICP ledger ID"))
parse_ledger (some p) = ok p

module _ (ledger_id : Option Principal) where
  -- `process_deposit`, up to the call of the ledger.
  unfoldable pub deposit_request : Call → Principal → ℕ → PaymentAction LedgerCall
  unfolding validate_amount
  deposit_request c user amount = do
    from_result (validate_amount amount min_deposit_amount max_deposit_amount "Deposit")
    fail_if (user == anonymous)
        (invalid_principal (plain "Anonymous identity cannot make deposits"))
    ledger ← from_result (parse_ledger ledger_id)
    pure (record {
      ledger = ledger;
      args = transfer_args c c.id amount (of_num "HunterFi deposit from {}" user);
    })

  -- `user_withdraw_funds`, up to the call of the ledger.
  unfoldable pub withdraw_request : Call → Principal → ℕ → PaymentAction LedgerCall
  unfolding get_user_account
  withdraw_request c user amount = do
    fail_if (eqb amount 0) (invalid_amount (plain "Withdrawal amount must be greater than 0"))
    fail_if (ltb max_deposit_amount amount)
        (invalid_amount (of_num "Withdrawal amount cannot exceed {} ICP" max_deposit_amount))
    fail_if (user == anonymous)
        (invalid_principal (plain "Anonymous identity cannot withdraw funds"))
    account ← gets (get_user_account user)
    fail_if (ltb account.balance amount) (
        insufficient_balance
          (of_nums "You have {:.8} ICP but requested {:.8} ICP" account.balance amount))
    fail_if (ltb c.cycles min_cycles_balance) (
        system_error (
          plain
            "System cycles balance too low for safe operation. Please try again later or contact support."))
    ledger ← from_result (parse_ledger ledger_id)
    pure (record {
      ledger = ledger;
      args = transfer_args c user amount (of_num "HunterFi withdrawal to {}" user);
    })

-- `process_deposit`, from the ledger's reply on.
unfoldable pub deposit_settle : Call → Principal → ℕ → Result Rejection ℕ → PaymentAction ℕ
deposit_settle c user amount (ok _) = do
  new_balance ← with_err system_error (update_user_balance c user amount true)
  recorded c user amount deposit (of_num "Deposit of {:.8} ICP" amount)
  pure new_balance
deposit_settle c user amount (err r) =
    from_result (err (transfer_failed (of_message "Deposit failed: {}" (plain r.message))))

-- `user_withdraw_funds`, from the ledger's reply on.
unfoldable pub withdraw_settle : Call → Principal → ℕ → Result Rejection ℕ → PaymentAction ℕ
withdraw_settle c user amount (ok _) = do
  new_balance ← with_err system_error (update_user_balance c user amount false)
  recorded c user amount withdrawal (of_num "Withdrawal of {:.8} ICP" amount)
  pure new_balance
withdraw_settle c user amount (err r) =
    from_result (err (transfer_failed (of_message "Withdrawal failed: {}" (plain r.message))))

-- The two functions with no other message between the call and its reply: `reply` is the ledger.
module _ (ledger_id : Option Principal) (reply : LedgerCall → Result Rejection ℕ) where
  unfoldable pub process_deposit : Call → Call → Principal → ℕ → PaymentAction ℕ
  unfolding deposit_request deposit_settle
  process_deposit c later user amount = do
    request ← deposit_request ledger_id c user amount
    deposit_settle later user amount (reply request)

  unfoldable pub user_withdraw_funds : Call → Call → Principal → ℕ → PaymentAction ℕ
  unfolding withdraw_request withdraw_settle
  user_withdraw_funds c later user amount = do
    request ← withdraw_request ledger_id c user amount
    withdraw_settle later user amount (reply request)

unfoldable pub process_balance_payment : Call → Principal → ℕ → Message → PaymentAction (Unit {0})
unfolding validate_amount
process_balance_payment c user amount purpose = do
  from_result (validate_amount amount 1 u64_max "Payment")
  fail_if (not (← gets (check_user_balance user amount)))
      (insufficient_balance (of_num "{:.8} ICP required, but your balance is too low" amount))
  with_err system_error (update_user_balance c user amount false)
  recorded c user amount deployment_fee purpose

-- `let _ = action;`
abbrev pub ignored : {E F A : Type 0} → Action Factory E A → Action Factory F (Unit {0})
ignored m s = (ok tt, (m s).1)

unfoldable pub process_balance_refund :
    Call → Principal → ℕ → DeploymentId → PaymentAction (Unit {0})
unfolding validate_amount
process_balance_refund c user amount id = do
  from_result (validate_amount amount 1 u64_max "Refund")
  with_err system_error (update_user_balance c user amount true)
  recorded c user amount refund (of_id "Refund for deployment: {}" id)
  ignored (update_deployment_status c id refunded none (some (plain "Deployment fee refunded")))
