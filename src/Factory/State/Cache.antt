-- ===== src/Factory/State/Cache.antt =====
-- The bounded cache of transactions, and the history that a user reads from it.
use hunter_fi.Base.{ℕ, ◌≤◌, ◌≡◌, List, [], ◌∷◌, ◌++◌, length, length-append, nat_eq, arith}
use hunter_fi.Common.Types.{Principal}
use hunter_fi.Factory.Types.{TransactionRecord, TransactionType, Message, Call, Factory}
use hunter_fi.Factory.State.{push_cache, tail, record_transaction}

length-tail : (xs : List TransactionRecord) → length (tail xs) ≤ length xs
length-tail [] = omega arith
length-tail (_ ∷ xs) = omega arith

tail-append :
    (r : TransactionRecord) (xs : List TransactionRecord) → length (tail (xs ++ r ∷ [])) ≡ length xs
tail-append r [] = omega arith
tail-append r (_ ∷ xs) = omega (arith, length-append xs (r ∷ []))

-- The cache stays within its bound, whatever is recorded.
pub push_cache-bounded :
    (max_size : ℕ) (r : TransactionRecord) (cache : List TransactionRecord)
    → length cache ≤ max_size
    → length (push_cache max_size r cache) ≤ max_size
unfolding push_cache
push_cache-bounded max_size r cache h =
    ground (arith, tail-append r cache, length-append cache (r ∷ []))

-- Recording a transaction keeps a cache that is within its maximal size within it.
pub record_transaction-bounded :
    (c : Call) (u : Principal) (x : ℕ) (t : TransactionType) (d : Message) (s : Factory)
    → length s.transaction_cache ≤ s.max_cache_size
    → length (record_transaction c u x t d s).1.transaction_cache ≤ s.max_cache_size
unfolding record_transaction
record_transaction-bounded c u x t d s h =
    push_cache-bounded s.max_cache_size _ s.transaction_cache h
