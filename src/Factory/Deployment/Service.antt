-- ===== src/Factory/Deployment/Service.antt =====
-- A request of deployment_manager.rs and the execution that it spawns, one after the other.
use mathlib.Core.Path.{subst}
use hunter_fi.Base.{◌+◌, ◌≤◌, ◌≡◌, refl, some, Result, ok, err, arith}
use hunter_fi.Base.Words.{u64_max}
use hunter_fi.Common.Types.{Principal, StrategyMetadata, deployed, refunded}
use hunter_fi.Common.Config.{StrategyConfig}
use hunter_fi.Factory.Types.{DeploymentId, Message, Bytes, DeploymentRecord, Call, Factory}
use hunter_fi.Factory.State.{
  get_user_account, get_deployment_record, get_strategy_metadata, credit, debit,
}
use hunter_fi.Factory.State.Accounts.{OwnersMatch}
use hunter_fi.Factory.State.Totals.{total_balance}
use hunter_fi.Factory.State.Records.{total_balance_cong}
use hunter_fi.Factory.Deployment.{
  Codec, Replies, Stage, creating, installing, initializing, Progress, waiting, finished, success,
  failure, create_strategy_request, execute_deployment,
}
use hunter_fi.Factory.Deployment.Failure.{IsRefundable, IsRefunded}
use hunter_fi.Factory.Deployment.Advance.{remaining}
use hunter_fi.Factory.Deployment.Execution.{Ends, execute_deployment-Ends}
use hunter_fi.Factory.Deployment.Request.{
  IsAccepted, IsCharged, new_id, new_record, stored, create_strategy_request_ok, stored-IsCharged,
}

-- What the caller `u` of a request in `s` has when its execution has ended: a registered strategy
-- and one payment of the fee, or every balance as it was and a refunded record.
abbrev pub IsServed : DeploymentId → Factory → Result Message Progress × Factory → Type 0
IsServed id s (ok (waiting _), t) = ⊥
IsServed id s (ok (finished (success cid)), t) =
    (r : DeploymentRecord) × (get_deployment_record id t ≡ some r)
    × (r.status ≡ deployed)
    × (r.canister_id ≡ some cid)
    × (m : StrategyMetadata) × (get_strategy_metadata cid t ≡ some m)
    × (total_balance t + s.deployment_fee ≡ total_balance s)
IsServed id s (ok (finished (failure _)), t) =
    (r : DeploymentRecord) × (get_deployment_record id t ≡ some r)
    × (r.status ≡ refunded)
    × ((v : Principal) → (get_user_account v t).balance ≡ (get_user_account v s).balance)
IsServed id s (err _, t) = ⊥

remaining_positive : (stage : Stage) → 1 ≤ remaining stage
remaining_positive (creating _ _) = omega arith
remaining_positive (installing _ _ _) = omega arith
remaining_positive (initializing _ _ _ _) = omega arith

module _ (codec : Codec) (c : Call) (config : StrategyConfig) (s : Factory) (bytes : Bytes)
    (o : OwnersMatch s) (a : IsAccepted codec c config s) where
  abbrev after : Factory
  after = stored codec c config s bytes

  abbrev record_of : DeploymentRecord
  record_of = new_record codec c config s bytes

  abbrev id_of : DeploymentId
  id_of = new_id codec c config s

  after-IsCharged : IsCharged codec c config s bytes after
  after-IsCharged = stored-IsCharged codec c config s bytes o a

  after-IsRefundable : IsRefundable id_of record_of after
  after-IsRefundable = record {
    known = ground (arith, after-IsCharged.records id_of);
    own = refl;
    fee_positive = a.fee_positive;
    fee_bounded = a.fee_bounded;
  }

  after-OwnersMatch : OwnersMatch after
  unfolding debit
  after-OwnersMatch v = ground (arith, o v, o c.caller, after-IsCharged.accounts v)

  -- A refund of the new record gives the payment back.
  refund_restores :
      (d : Call) (t : Factory)
      → (get_user_account c.caller s).balance ≤ u64_max
      → IsRefunded d id_of record_of after t
      → (v : Principal) → (get_user_account v t).balance ≡ (get_user_account v s).balance
  unfolding debit credit
  refund_restores d t fits g v =
      ground (arith, a, g.accounts v, after-IsCharged.accounts v, after-IsCharged.accounts c.caller)

  ended-IsServed :
      (p : Result Message Progress × Factory)
      → (get_user_account c.caller s).balance ≤ u64_max
      → Ends id_of record_of after 0 p
      → IsServed id_of s p
  ended-IsServed (ok (waiting stage), t) fits (d, (adv, own, le)) =
      absurd (ground (arith, remaining_positive stage))
  ended-IsServed (ok (finished (success cid)), t) fits (d, (adv, st, at, m, got, same)) = (
    adv.new_record,
    adv.found,
    st,
    at,
    m,
    got,
    ground (arith, adv.same_accounts, total_balance_cong t after, after-IsCharged.total),
  )
  ended-IsServed (err m, t) fits (d, g) = g
  ended-IsServed (ok (finished (failure m)), t) fits (d, g) =
      let (x, found, status, owner, fee, own) = g.record_refunded in
      (x, found, status, refund_restores d t fits g)

  module _ (e : codec.encode config ≡ ok bytes) (w : Replies) (later : Call) where
    -- A request that the factory accepts, and its execution with no other message in between, when
    -- every account is stored under its owner, the config encodes and the caller's balance is a
    -- `u64`. Whatever the management canister and the new canister reply, it ends in one of two
    -- ways: the strategy is deployed and registered under the canister of the record, and the
    -- balances have fallen by one fee in all; or the record is refunded, and every balance is what
    -- it was before the request.
    pub create_strategy_request-execute_deployment :
        (get_user_account c.caller s).balance ≤ u64_max
        → IsServed id_of s
            (execute_deployment codec later w id_of (create_strategy_request codec c config s).1)
    create_strategy_request-execute_deployment fits =
        subst (λ t. IsServed id_of s (execute_deployment codec later w id_of t))
          (ground (arith, create_strategy_request_ok codec c config s bytes o a e))
          (ended-IsServed (execute_deployment codec later w id_of after) fits (
            execute_deployment-Ends id_of record_of after after-IsRefundable after-OwnersMatch codec
              w later))
