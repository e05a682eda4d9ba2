-- ===== src/Factory/Upgrade/Restored.antt =====
-- What an upgrade preserves.
use hunter_fi.Base.{◌≡◌, refl, Option, none, some, [], ◌∷◌, arith, Eq, nat_eq}
use hunter_fi.Base.Dict.{Dict, lookup, insert, NodupKeys, lookup-insert}
use hunter_fi.Common.Types.{Principal}
use hunter_fi.Factory.Types.{TransactionId, transaction_id_eq, Factory}
use hunter_fi.Factory.Upgrade.{insert_all, pre_upgrade, post_upgrade}

abbrev pub or_else {ℓ} : {A : Type ℓ} → Option A → Option A → Option A
or_else (some a) _ = some a
or_else none b = b

module _ {ℓ κ} {K : Type ℓ} {V : Type κ} ⦃e : Eq K⦄ where
  -- The saved entries win over those that are found, at every key.
  lookup-insert_all :
      (k : K) (entries d : Dict K V)
      → NodupKeys entries
      → lookup k (insert_all entries d) ≡ or_else (lookup k entries) (lookup k d)
  unfolding insert_all lookup
  lookup-insert_all k [] d u = refl
  lookup-insert_all k ((j, v) ∷ entries) d (fresh, u) =
      ground (arith, lookup-insert_all k entries (insert j v d) u, lookup-insert k j v d)

-- The state after an upgrade: `found` is what the new instance starts with.
abbrev pub upgraded : Factory → Factory → Factory
upgraded s found = post_upgrade (pre_upgrade s).0 found

module _ (s found : Factory) (accounts : NodupKeys s.user_accounts)
    (strategies : NodupKeys s.strategies) (transactions : NodupKeys s.transactions) where
  -- With unique keys in the stable maps before: whatever the new instance finds in its own, the
  -- administrators, the fee, the counter and the owners' lists are as before, and so is each
  -- account, strategy and transaction that was stored; under the other keys lies what the new
  -- instance found.
  pub upgraded_keeps :
      (u : Principal) (k : TransactionId)
      → ((upgraded s found).admins ≡ s.admins)
        × ((upgraded s found).deployment_fee ≡ s.deployment_fee)
        × ((upgraded s found).deployment_id_counter ≡ s.deployment_id_counter)
        × ((upgraded s found).owner_strategies ≡ s.owner_strategies)
        × (lookup u (upgraded s found).user_accounts
            ≡ or_else (lookup u s.user_accounts) (lookup u found.user_accounts))
        × (lookup u (upgraded s found).strategies
            ≡ or_else (lookup u s.strategies) (lookup u found.strategies))
        × (lookup k (upgraded s found).transactions
            ≡ or_else (lookup k s.transactions) (lookup k found.transactions))
  unfolding pre_upgrade post_upgrade
  upgraded_keeps u k = (
    refl,
    refl,
    refl,
    refl,
    lookup-insert_all u s.user_accounts found.user_accounts accounts,
    lookup-insert_all u s.strategies found.strategies strategies,
    lookup-insert_all k s.transactions found.transactions transactions,
  )

-- The deployment records are not saved, and the cache of transactions is not rebuilt from the
-- stored transactions: both are those that the new instance starts with.
pub upgraded_drops :
    (s found : Factory)
    → ((upgraded s found).deployment_records ≡ found.deployment_records)
      × ((upgraded s found).transaction_cache ≡ found.transaction_cache)
unfolding post_upgrade
upgraded_drops s found = (refl, refl)
