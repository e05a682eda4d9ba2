-- ===== src/Factory/Api/History.antt =====
-- The transaction history that a caller can read.
use hunter_fi.Base.{
  ℕ, ◌≤◌, ◌≡◌, true, List, [], ◌∷◌, length, length-take-le, All, All-keep, take, keep, zero, suc,
  ◌==◌, nat_eq, arith, ltb, Bool-cases, inl, inr,
}
use hunter_fi.Factory.Types.{TransactionRecord, Call, Factory}
use hunter_fi.Factory.State.{get_user_transaction_records}
use hunter_fi.Factory.Api.{get_transaction_history, max_transaction_query_limit}

All-take {ℓ κ} : {A : Type ℓ} (P : A → Type κ) (n : ℕ) (xs : List A) → All P xs → All P (take n xs)
All-take P zero xs h = tt
All-take P (suc n) [] h = tt
All-take P (suc n) (x ∷ xs) (p, h) = (p, All-take P n xs h)

-- A caller reads at most a hundred records, and only records of their own.
pub get_transaction_history_own :
    (c : Call) (s : Factory)
    → (length (get_transaction_history c s) ≤ max_transaction_query_limit)
      × All (λ r. (r.user == c.caller) ≡ true) (get_transaction_history c s)
unfolding get_transaction_history get_user_transaction_records
get_transaction_history_own c s =
    let own = keep (λ (r : TransactionRecord). r.user == c.caller) s.transaction_cache in
    let all_own = All-keep (λ (r : TransactionRecord). r.user == c.caller) s.transaction_cache in
    elim (Bool-cases (ltb max_transaction_query_limit (length own))) [
      | inl long ↦ rw long (
        length-take-le max_transaction_query_limit own,
        All-take (λ r. (r.user == c.caller) ≡ true) max_transaction_query_limit own all_own,
      )
      | inr short ↦ rw short (ground arith, all_own)
    ]
