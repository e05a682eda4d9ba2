-- ===== src/Factory/Payment/Ledger.antt =====
-- Deposits and withdrawals through the ledger, and what may happen between a call and its reply.
use hunter_fi.Base.{
  ℕ, ◌+◌, ◌-◌, ◌≤◌, ◌<◌, ◌≡◌, ◌≢◌, ◌⊎◌, false, Option, some, Result, ok, err, arith, nat_eq, inl,
  inr, Result-cases,
}
use hunter_fi.Common.Types.{Principal, anonymous}
use hunter_fi.Factory.Types.{
  of_num, of_nums, PaymentError, system_error, transfer_failed, of_message, plain, withdrawal, Call,
  Factory,
}
use hunter_fi.Factory.State.{get_user_account, debit, update_user_balance, record_transaction}
use hunter_fi.Factory.State.Accounts.{
  OwnersMatch, update_user_balance-debit, update_user_balance_short,
}
use hunter_fi.Factory.State.Totals.{total_balance, total_balance-deduct}
use hunter_fi.Factory.State.Records.{record_transaction_frame, get_user_account_cong}
use hunter_fi.Factory.Payment.{
  LedgerCall, Rejection, deposit_request, withdraw_request, withdraw_settle, user_withdraw_funds,
  min_deposit_amount, max_deposit_amount, min_cycles_balance,
}

-- A deposit request that reaches the ledger is in range and not anonymous, asks for the full amount
-- and changes no state; its recipient is the factory, which is also the account that calls.
pub deposit_request_lem :
    (ledger_id : Option Principal) (c : Call) (u : Principal) (x : ℕ) (s t : Factory)
    (q : LedgerCall)
    → deposit_request ledger_id c u x s ≡ (ok q, t)
    → (min_deposit_amount ≤ x)
      × (x ≤ max_deposit_amount)
      × (u ≢ anonymous)
      × (q.args.amount ≡ x)
      × (q.args.to.owner ≡ c.id)
      × (ledger_id ≡ some q.ledger)
      × (t ≡ s)
unfolding deposit_request
deposit_request_lem ledger_id c u x s t q h = ground arith

-- A withdrawal request that reaches the ledger is positive and within the limit, not anonymous and
-- covered by the balance at that time, finds enough cycles, pays the user the amount and changes
-- no state.
pub withdraw_request_lem :
    (ledger_id : Option Principal) (c : Call) (u : Principal) (x : ℕ) (s t : Factory)
    (q : LedgerCall)
    → withdraw_request ledger_id c u x s ≡ (ok q, t)
    → (1 ≤ x)
      × (x ≤ max_deposit_amount)
      × (u ≢ anonymous)
      × (x ≤ (get_user_account u s).balance)
      × (min_cycles_balance ≤ c.cycles)
      × (q.args.amount ≡ x)
      × (q.args.to.owner ≡ u)
      × (t ≡ s)
unfolding withdraw_request
withdraw_request_lem ledger_id c u x s t q h = ground arith

-- A request leaves the state alone.
withdraw_request_same :
    (ledger_id : Option Principal) (c : Call) (u : Principal) (x : ℕ) (s : Factory)
    → (withdraw_request ledger_id c u x s).1 ≡ s
unfolding withdraw_request
withdraw_request_same ledger_id c u x s = ground arith

module _ (c : Call) (u : Principal) (x : ℕ) (s : Factory) where
  deducted : Factory
  deducted =
      (record_transaction c u x withdrawal (of_num "Withdrawal of {:.8} ICP" x)
        (update_user_balance c u x false s).1).1

  withdraw_settle_ok :
      (block : ℕ)
      → OwnersMatch s
      → x ≤ (get_user_account u s).balance
      → withdraw_settle c u x (ok block) s ≡ (ok ((get_user_account u s).balance - x), deducted)
  unfolding withdraw_settle deducted debit
  withdraw_settle_ok block m covered = ground (arith, update_user_balance-debit c u x s u m covered)

  deducted-balance :
      OwnersMatch s
      → x ≤ (get_user_account u s).balance
      → (get_user_account u deducted).balance ≡ (get_user_account u s).balance - x
  unfolding deducted debit
  deducted-balance m covered = ground (
    arith,
    update_user_balance-debit c u x s u m covered,
    record_transaction_frame c u x withdrawal (of_num "Withdrawal of {:.8} ICP" x)
        (update_user_balance c u x false s).1,
    get_user_account_cong deducted (update_user_balance c u x false s).1 u,
  )

  deducted-total :
      OwnersMatch s
      → x ≤ (get_user_account u s).balance
      → total_balance deducted + x ≡ total_balance s
  unfolding deducted
  deducted-total m covered = ground (
    arith,
    total_balance-deduct c u x s m covered,
    record_transaction_frame c u x withdrawal (of_num "Withdrawal of {:.8} ICP" x)
        (update_user_balance c u x false s).1,
  )

  -- A settlement that the balance does not cover fails, although the ledger has paid.
  withdraw_settle_short :
      (block : ℕ)
      → (get_user_account u s).balance < x
      → withdraw_settle c u x (ok block) s ≡ (
        err (
            system_error (
              of_nums "Insufficient balance: current balance {} e8s, required {} e8s"
                (get_user_account u s).balance
                x)),
        s,
      )
  unfolding withdraw_settle
  withdraw_settle_short block short = ground (arith, update_user_balance_short c u x s short)

-- With every account stored under its owner: a withdrawal with no other message in between either
-- succeeds, and then the new balance is the old one less the amount and the sum of all balances
-- falls by the amount; or it is an error, and nothing has changed.
pub user_withdraw_funds-total :
    (ledger_id : Option Principal) (reply : LedgerCall → Result Rejection ℕ) (c later : Call)
    (u : Principal) (x : ℕ) (s : Factory)
    → OwnersMatch s
    → ((b : ℕ) × ((user_withdraw_funds ledger_id reply c later u x s).0 ≡ ok b)
        × (b + x ≡ (get_user_account u s).balance)
        × (total_balance (user_withdraw_funds ledger_id reply c later u x s).1 + x
            ≡ total_balance s))
      ⊎ ((e : PaymentError) × (user_withdraw_funds ledger_id reply c later u x s ≡ (err e, s)))
unfolding user_withdraw_funds withdraw_settle
user_withdraw_funds-total ledger_id reply c later u x s m =
    elim (Result-cases (withdraw_request ledger_id c u x s).0) [
      | inl (q, asked) ↦
          let facts =
            withdraw_request_lem ledger_id c u x s s q
              (ground (arith, withdraw_request_same ledger_id c u x s)) in
          elim (Result-cases (reply q)) [
            | inl (block, paid) ↦ inl (
              (get_user_account u s).balance - x,
              ground (
                arith,
                withdraw_request_same ledger_id c u x s,
                withdraw_settle_ok later u x s block m facts.3,
              ),
              omega (arith, facts),
              ground (
                arith,
                withdraw_request_same ledger_id c u x s,
                withdraw_settle_ok later u x s block m facts.3,
                deducted-total later u x s m facts.3,
              ),
            )
            | inr (r, rejected) ↦ inr (
              transfer_failed (of_message "Withdrawal failed: {}" (plain r.message)),
              ground (arith, withdraw_request_same ledger_id c u x s),
            )
          ]
      | inr (e, refused) ↦ inr (e, ground (arith, withdraw_request_same ledger_id c u x s))
    ]

-- Two withdrawals of one amount by one user whose calls of the ledger overlap, with every account
-- stored under its owner and a balance below twice the amount: both requests reach the ledger, and
-- when it has paid both, only the first is deducted; the second ends in an error, and the sum of
-- all balances has fallen by the amount once.
pub overlapping_withdrawals :
    (ledger_id : Option Principal) (c c' later later' : Call) (u : Principal) (x b b' : ℕ)
    (s : Factory) (q q' : LedgerCall)
    → OwnersMatch s
    → withdraw_request ledger_id c u x s ≡ (ok q, s)
    → withdraw_request ledger_id c' u x s ≡ (ok q', s)
    → (get_user_account u s).balance < x + x
    → let first = withdraw_settle later u x (ok b) s in
      let second = withdraw_settle later' u x (ok b') first.1 in
      (q.args.amount + q'.args.amount ≡ x + x)
      × (first.0 ≡ ok ((get_user_account u s).balance - x))
      × ((k : ℕ) → second.0 ≢ ok k)
      × (total_balance second.1 + x ≡ total_balance s)
overlapping_withdrawals ledger_id c c' later later' u x b b' s q q' m h h' short =
    let facts = withdraw_request_lem ledger_id c u x s s q h in
    let facts' = withdraw_request_lem ledger_id c' u x s s q' h' in
    let settled = withdraw_settle_ok later u x s b m facts.3 in
    let left = deducted-balance later u x s m facts.3 in
    let failed = withdraw_settle_short later' u x (deducted later u x s) b' (omega (arith, left)) in
    (
      omega (arith, facts, facts'),
      ground (arith, settled),
      λ k e. ground (arith, settled, failed),
      ground (arith, settled, failed, deducted-total later u x s m facts.3),
    )
