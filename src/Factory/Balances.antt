-- ===== src/Factory/Balances.antt =====
-- The balance operations at the end of src/factory/src/state.rs: each checks its amount, moves the
-- balance and records a transaction.
pub mod Transfer
use hunter_fi.Base.{
  ℕ, Bool, true, false, String, eqb, not, if◌then◌else◌, Action, fail_if, gets, pure, ◌>>=◌, ◌>>◌,
  with_err,
}
use hunter_fi.Common.Types.{Principal}
use hunter_fi.Factory.Types.{
  DeploymentId, TransactionType, deposit, deployment_fee, refund, admin_adjustment, withdrawal,
  transfer, Message, plain, of_num, of_id, of_principal, of_message, Call, Factory,
}
use hunter_fi.Factory.State.{FactoryAction, update_user_balance, check_user_balance, recorded}

unfoldable pub process_balance_refund :
    Call → Principal → ℕ → DeploymentId → FactoryAction (Unit {0})
process_balance_refund c user amount id = do
  fail_if (eqb amount 0) (plain "Refund amount must be greater than 0")
  with_err (of_message "Failed to update user balance: {}") (update_user_balance c user amount true)
  recorded c user amount refund (of_id "Refund for failed deployment (ID: {})" id)

unfoldable pub process_deposit : Call → Principal → ℕ → FactoryAction ℕ
process_deposit c user amount = do
  fail_if (eqb amount 0) (plain "Deposit amount must be greater than 0")
  new_balance ←
      with_err (of_message "Failed to update user balance: {}")
        (update_user_balance c user amount true)
  recorded c user amount deposit (of_num "Deposit of {:.8} ICP" amount)
  pure new_balance

-- The guard of every deduction: a positive amount that the balance covers.
abbrev pub covered : Principal → ℕ → Message → Message → FactoryAction (Unit {0})
covered user amount zero_message short_message = do
  fail_if (eqb amount 0) zero_message
  fail_if (not (← gets (check_user_balance user amount))) short_message

unfoldable pub process_withdrawal : Call → Principal → ℕ → FactoryAction ℕ
process_withdrawal c user amount = do
  covered user amount (plain "Withdrawal amount must be greater than 0")
      (plain "Insufficient balance")
  new_balance ←
      with_err (of_message "Failed to update user balance: {}")
        (update_user_balance c user amount false)
  recorded c user amount withdrawal (of_num "Withdrawal of {:.8} ICP" amount)
  pure new_balance

unfoldable pub process_deployment_fee :
    Call → Principal → ℕ → DeploymentId → FactoryAction (Unit {0})
process_deployment_fee c user amount id = do
  covered user amount (plain "Deployment fee must be greater than 0")
      (plain "Insufficient balance for deployment fee")
  with_err (of_message "Failed to update user balance: {}")
      (update_user_balance c user amount false)
  recorded c user amount deployment_fee (of_id "Deployment fee for deployment (ID: {})" id)

unfoldable pub process_admin_adjustment : Call → Principal → ℕ → Message → FactoryAction (Unit {0})
process_admin_adjustment c user amount reason = do
  fail_if (eqb amount 0) (plain "Adjustment amount must be greater than 0")
  with_err (of_message "Failed to update user balance: {}") (update_user_balance c user amount true)
  recorded c user amount admin_adjustment reason

unfoldable pub process_balance_payment : Call → Principal → ℕ → Message → FactoryAction (Unit {0})
process_balance_payment c user amount purpose = do
  covered user amount (plain "Payment amount must be greater than 0") (plain "Insufficient balance")
  with_err (of_message "Failed to update user balance: {}")
      (update_user_balance c user amount false)
  recorded c user amount deployment_fee purpose

unfoldable pub process_balance_transfer :
    Call → Principal → Principal → ℕ → Message → FactoryAction (Unit {0})
process_balance_transfer c source target amount purpose = do
  covered source amount (plain "Transfer amount must be greater than 0")
      (plain "Insufficient balance")
  with_err (of_message "Failed to update sender balance: {}")
      (update_user_balance c source amount false)
  with_err (of_message "Failed to update recipient balance: {}")
      (update_user_balance c target amount true)
  recorded c source amount transfer (of_principal "Transfer to {}: {}" target purpose)
  recorded c target amount transfer (of_principal "Transfer from {}: {}" source purpose)
