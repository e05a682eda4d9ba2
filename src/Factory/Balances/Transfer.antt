-- ===== src/Factory/Balances/Transfer.antt =====
-- A transfer between two users: the money moves, and what is recorded of it.
use hunter_fi.Base.{ℕ, ◌+◌, ◌≤◌, ◌≡◌, true, false, some, ok, arith, ◌==◌, if◌then◌else◌}
use hunter_fi.Base.Words.{u64_max}
use hunter_fi.Base.Dict.{lookup, lookup-insert}
use hunter_fi.Common.Types.{Principal}
use hunter_fi.Factory.Types.{
  Message, of_principal, TransactionId, transaction_id_eq, transfer, TransactionRecord, Call,
  Factory,
}
use hunter_fi.Factory.State.{
  get_user_account, debit, update_user_balance, check_user_balance, record_transaction,
  generate_transaction_id,
}
use hunter_fi.Factory.State.Accounts.{
  OwnersMatch, update_user_balance-credit, update_user_balance-debit,
}
use hunter_fi.Factory.State.Totals.{total_balance, total_balance-deposit, total_balance-deduct}
use hunter_fi.Factory.State.Records.{record_transaction_frame}
use hunter_fi.Factory.Balances.{process_balance_transfer}

module _ (c : Call) (a b : Principal) (x : ℕ) (purpose : Message) where
  abbrev pub recipient_record : TransactionRecord
  recipient_record = record {
    transaction_id = record { timestamp = c.time; caller = c.caller; canister = c.id };
    user = b;
    amount = x;
    transaction_type = transfer;
    timestamp = c.time;
    description = of_principal "Transfer from {}: {}" a purpose;
  }

  abbrev sender_record : TransactionRecord
  sender_record = record {
    transaction_id = record { timestamp = c.time; caller = c.caller; canister = c.id };
    user = a;
    amount = x;
    transaction_type = transfer;
    timestamp = c.time;
    description = of_principal "Transfer to {}: {}" b purpose;
  }

module _ (c : Call) (a b : Principal) (x : ℕ) (purpose : Message) (s : Factory) (m : OwnersMatch s)
    (pos : 1 ≤ x) (covered : x ≤ (get_user_account a s).balance) where
  taken : Factory
  taken = (update_user_balance c a x false s).1

  given : Factory
  given = (update_user_balance c b x true taken).1

  sent : Factory
  sent = (record_transaction c a x transfer (of_principal "Transfer to {}: {}" b purpose) given).1

  done : Factory
  done = (record_transaction c b x transfer (of_principal "Transfer from {}: {}" a purpose) sent).1

  taken-OwnersMatch : OwnersMatch taken
  unfolding taken debit
  taken-OwnersMatch v = ground (arith, m v, m a, update_user_balance-debit c a x s v m covered)

  process_balance_transfer_ok : process_balance_transfer c a b x purpose s ≡ (ok tt, done)
  unfolding process_balance_transfer check_user_balance taken given sent done
  process_balance_transfer_ok = ground (
    arith,
    update_user_balance-debit c a x s a m covered,
    update_user_balance-credit c b x taken b taken-OwnersMatch,
  )

  -- With every account stored under its owner: a transfer of a positive amount that the balance
  -- covers succeeds, and the sum of all balances stays the same, if the recipient's balance and
  -- the amount together fit a `u64`.
  pub process_balance_transfer-total :
      (get_user_account b s).balance + x ≤ u64_max
      → ((process_balance_transfer c a b x purpose s).0 ≡ ok tt)
        × (total_balance (process_balance_transfer c a b x purpose s).1 ≡ total_balance s)
  unfolding taken given sent done debit
  process_balance_transfer-total fits = ground (
    arith,
    m b,
    process_balance_transfer_ok,
    update_user_balance-debit c a x s b m covered,
    total_balance-deduct c a x s m covered,
    total_balance-deposit c b x taken taken-OwnersMatch,
    record_transaction_frame c a x transfer (of_principal "Transfer to {}: {}" b purpose) given,
    record_transaction_frame c b x transfer (of_principal "Transfer from {}: {}" a purpose) sent,
  )

  -- With every account stored under its owner: the two records of a transfer of a positive amount
  -- that the balance covers have one id, so the sender's record is overwritten: the map of
  -- transactions gains the recipient's record alone.
  pub process_balance_transfer-transactions :
      (k : TransactionId)
      → lookup k (process_balance_transfer c a b x purpose s).1.transactions ≡ (
          if k == generate_transaction_id c
          then some (recipient_record c a b x purpose)
          else lookup k s.transactions)
  unfolding taken given sent done record_transaction update_user_balance generate_transaction_id
  process_balance_transfer-transactions k = ground (
    arith,
    process_balance_transfer_ok,
    lookup-insert k (generate_transaction_id c) (recipient_record c a b x purpose)
        sent.transactions,
    lookup-insert k (generate_transaction_id c) (sender_record c a b x purpose) s.transactions,
  )
