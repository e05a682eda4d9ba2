-- ===== src/Factory/Deployment/Finish.antt =====
-- The last segment of an execution: the strategy is registered and its record is deployed.
use mathlib.Core.Path.{subst}
use hunter_fi.Base.{◌≡◌, inl, inr, refl, some, Result, ok, err, arith, nat_eq, Result-cases}
use hunter_fi.Base.Dict.{lookup-insert_self}
use hunter_fi.Common.Types.{Principal, initialized, deployed, StrategyMetadata, strategy_type_eq}
use hunter_fi.Factory.Types.{DeploymentId, deployment_id_eq, DeploymentRecord, Call, Factory}
use hunter_fi.Factory.State.{get_deployment_record, get_strategy_metadata, store_strategy_metadata}
use hunter_fi.Factory.State.Accounts.{OwnersMatch}
use hunter_fi.Factory.Payment.{Rejection}
use hunter_fi.Factory.Deployment.{
  Codec, finished, success, create_strategy_metadata, resume_initializing, stop_with,
  DeploymentError, metadata_error, initializer_failed,
}
use hunter_fi.Factory.Deployment.Failure.{IsRefundable}
use hunter_fi.Factory.Deployment.Advance.{
  IsAdvanced, Settles, moved, moved_record, moved_ok, moved-IsRefundable, moved-IsAdvanced,
  moved_frame, IsAdvanced-trans,
}
use hunter_fi.Factory.Deployment.Segments.{stop_with-Settles, settled_by, stop_after_advance}

-- The metadata of a finished execution is about its canister.
create_strategy_metadata_id :
    (codec : Codec) (c : Call) (q : DeploymentRecord) (cid : Principal) (m : StrategyMetadata)
    → create_strategy_metadata codec c q cid ≡ ok m
    → m.canister_id ≡ cid
unfolding create_strategy_metadata
create_strategy_metadata_id codec c q cid m e = ground arith

module _ (c : Call) (id : DeploymentId) (r : DeploymentRecord) (s : Factory) (o : OwnersMatch s)
    (h : IsRefundable id r s) (cid : Principal) where
  module _ (m : StrategyMetadata) where
    initialized_state : Factory
    initialized_state = moved c id initialized cid r s h

    initialized_record : DeploymentRecord
    initialized_record = moved_record c id initialized cid r s h

    registered : Factory
    registered = store_strategy_metadata m initialized_state

    registered-IsRefundable : IsRefundable id initialized_record registered
    unfolding registered initialized_record initialized_state store_strategy_metadata
        get_deployment_record
    registered-IsRefundable = ground (arith, moved-IsRefundable c id initialized cid r s h)

    registered-IsAdvanced : IsAdvanced id initialized_record initialized_state registered
    unfolding registered store_strategy_metadata get_deployment_record
    registered-IsAdvanced = record {
      new_record = initialized_record;
      found = registered-IsRefundable.known;
      same_owner = refl;
      same_fee = refl;
      same_id = refl;
      other_records = λ j ne. refl;
      same_accounts = refl;
      same_admins = refl;
      same_deployment_fee = refl;
      not_failed = λ n. n;
    }

    deployed_state : Factory
    deployed_state = moved c id deployed cid initialized_record registered registered-IsRefundable

    deployed-IsAdvanced : IsAdvanced id r s deployed_state
    unfolding deployed_state registered-IsAdvanced initialized_state initialized_record
        moved-IsAdvanced IsAdvanced-trans
    deployed-IsAdvanced =
        IsAdvanced-trans id r s initialized_state deployed_state
          (moved-IsAdvanced c id initialized cid r s h (λ e. cc))
          (IsAdvanced-trans id initialized_record initialized_state registered deployed_state
            registered-IsAdvanced
            (moved-IsAdvanced c id deployed cid initialized_record registered
              registered-IsRefundable (λ e. cc)))

    deployed-metadata : get_strategy_metadata m.canister_id deployed_state ≡ some m
    unfolding deployed_state registered store_strategy_metadata get_strategy_metadata
    deployed-metadata = ground (
      arith,
      moved_frame c id deployed cid initialized_record registered registered-IsRefundable,
      lookup-insert_self m.canister_id m initialized_state.strategies,
    )

  -- From the initialiser's reply to the end.
  module _ (codec : Codec) (q : DeploymentRecord) where
    initialized_stop :
        (e : DeploymentError)
        → Settles c id r s 0 (stop_with c id (some cid) e (moved c id initialized cid r s h))
    initialized_stop e = stop_after_advance c id r s o h 0 initialized cid e

    -- With every account stored under its owner: the last segment on a stored record with a
    -- positive `u64` fee, whatever the initialiser replies and whatever record it has read,
    -- deploys the record and registers the metadata of its canister, or refunds the fee once. It
    -- never ends in an error.
    pub resume_initializing-Settles :
        (reply : Result Rejection (Unit {0}))
        → Settles c id r s 0 (resume_initializing codec c id q cid reply s)
    unfolding resume_initializing initialized_state registered deployed_state deployed-IsAdvanced
        moved-IsAdvanced IsAdvanced-trans initialized_record registered-IsAdvanced
    resume_initializing-Settles (err e) =
        stop_with-Settles c id (some cid) (initializer_failed e) r s o h 0
    resume_initializing-Settles (ok u) =
        elim (Result-cases (create_strategy_metadata codec c q cid)) [
          | inl (m, made) ↦
              let same : m.canister_id ≡ cid = create_strategy_metadata_id codec c q cid m made in
              settled_by c id r s o h 0 (resume_initializing codec c id q cid (ok u) s)
                (ok (finished (success cid)), deployed_state m)
                (ground (
                  arith,
                  made,
                  moved_ok c id initialized cid r s h,
                  moved_ok c id deployed cid (initialized_record m) (registered m)
                      (registered-IsRefundable m),
                ))
                (
                  deployed-IsAdvanced m,
                  refl,
                  refl,
                  m,
                  subst (λ k. get_strategy_metadata k (deployed_state m) ≡ some m) same
                      (deployed-metadata m),
                  same,
                )
          | inr (e, wrong) ↦
              settled_by c id r s o h 0 (resume_initializing codec c id q cid (ok u) s)
                (stop_with c id (some cid) (metadata_error e) (moved c id initialized cid r s h))
                (ground (arith, wrong, moved_ok c id initialized cid r s h))
                (initialized_stop (metadata_error e))
        ]
