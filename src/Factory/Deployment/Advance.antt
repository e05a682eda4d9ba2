-- ===== src/Factory/Deployment/Advance.antt =====
-- What one segment of an execution does to a stored record, and the change of its status.
use hunter_fi.Base.{◌∙◌, ℕ, ◌≤◌, ◌≡◌, ◌≢◌, refl, none, some, Result, ok, err, arith}
use hunter_fi.Common.Types.{
  Principal, DeploymentStatus, canister_created, code_installed, deployed, deployment_failed,
  StrategyMetadata, strategy_type_eq,
}
use hunter_fi.Factory.Types.{
  DeploymentId, deployment_id_eq, Message, DeploymentRecord, Call, Factory,
}
use hunter_fi.Factory.State.{get_deployment_record, get_strategy_metadata, update_deployment_status}
use hunter_fi.Factory.State.Accounts.{OwnersMatch}
use hunter_fi.Factory.State.Records.{
  with_status, update_deployment_status_known, update_deployment_status_frame,
  get_user_account_cong,
}
use hunter_fi.Factory.Deployment.{
  Progress, waiting, finished, success, failure, Stage, creating, installing, initializing,
}
use hunter_fi.Factory.Deployment.Failure.{IsRefundable, IsRefunded}

-- How many replies an execution still awaits.
abbrev pub remaining : Stage → ℕ
remaining (creating _ _) = 3
remaining (installing _ _ _) = 2
remaining (initializing _ _ _ _) = 1

-- The execution of `id` in which a reply is awaited, and its status then.
abbrev pub AwaitsIn : DeploymentId → Stage → DeploymentStatus → Type 0
AwaitsIn id (creating j _) _ = j ≡ id
AwaitsIn id (installing j _ _) status = (j ≡ id) × (status ≡ canister_created)
AwaitsIn id (initializing j _ _ _) status = (j ≡ id) × (status ≡ code_installed)

-- `t` differs from `s` in the status of one record (and its time, canister and error) at most.
pub record IsAdvanced (id : DeploymentId) (r : DeploymentRecord) (s t : Factory) : Type 0 where
  pub new_record : DeploymentRecord
  pub found : get_deployment_record id t ≡ some new_record
  pub same_owner : new_record.owner ≡ r.owner
  pub same_fee : new_record.fee_amount ≡ r.fee_amount
  pub same_id : new_record.deployment_id ≡ r.deployment_id
  pub other_records :
      (j : DeploymentId) → j ≢ id → get_deployment_record j t ≡ get_deployment_record j s
  pub same_accounts : t.user_accounts ≡ s.user_accounts
  pub same_deployment_fee : t.deployment_fee ≡ s.deployment_fee
  pub not_failed : r.status ≢ deployment_failed → new_record.status ≢ deployment_failed
  pub same_admins : t.admins ≡ s.admins

-- What a segment that ran on `s` has done, by how it ended; `k` bounds the replies that it may
-- still await. It never ends in an error.
abbrev pub Settles :
    Call
    → DeploymentId
    → DeploymentRecord
    → Factory
    → ℕ
    → Result Message Progress × Factory
    → Type 0
Settles c id r s k (ok (waiting stage), t) =
    (a : IsAdvanced id r s t) × AwaitsIn id stage a.new_record.status × (remaining stage ≤ k)
Settles c id r s k (ok (finished (success cid)), t) =
    (a : IsAdvanced id r s t) × (a.new_record.status ≡ deployed)
    × (a.new_record.canister_id ≡ some cid)
    × (m : StrategyMetadata) × (get_strategy_metadata cid t ≡ some m)
    × (m.canister_id ≡ cid)
Settles c id r s k (ok (finished (failure _)), t) = IsRefunded c id r s t
Settles c id r s k (err _, t) = ⊥

module _ (c : Call) (id : DeploymentId) (status : DeploymentStatus) (cid : Principal)
    (r : DeploymentRecord) (s : Factory) (h : IsRefundable id r s) where
  pub moved : Factory
  moved = (update_deployment_status c id status (some cid) none s).1

  abbrev pub moved_record : DeploymentRecord
  moved_record = with_status c status (some cid) none r

  pub moved_ok : update_deployment_status c id status (some cid) none s ≡ (ok tt, moved)
  unfolding moved
  moved_ok =
      ground
        (arith, update_deployment_status_known c id status (some cid) none s id r h.known h.own)

  pub moved-IsRefundable : IsRefundable id moved_record moved
  unfolding moved
  moved-IsRefundable = record {
    known =
        ground
          (arith, update_deployment_status_known c id status (some cid) none s id r h.known h.own);
    own = h.own;
    fee_positive = h.fee_positive;
    fee_bounded = h.fee_bounded;
  }

  pub moved_others :
      (j : DeploymentId) → j ≢ id → get_deployment_record j moved ≡ get_deployment_record j s
  unfolding moved
  moved_others j ne =
      ground (arith, update_deployment_status_known c id status (some cid) none s j r h.known h.own)

  pub moved_frame :
      (moved.user_accounts ≡ s.user_accounts)
      × (moved.strategies ≡ s.strategies)
      × (moved.admins ≡ s.admins)
      × (moved.deployment_fee ≡ s.deployment_fee)
  unfolding moved
  moved_frame = ground (arith, update_deployment_status_frame c id status (some cid) none s)

  unfoldable pub moved-IsAdvanced : status ≢ deployment_failed → IsAdvanced id r s moved
  moved-IsAdvanced live = record {
    new_record = moved_record;
    found = moved-IsRefundable.known;
    same_owner = refl;
    same_fee = refl;
    same_id = refl;
    other_records = moved_others;
    same_accounts = moved_frame.0;
    same_admins = moved_frame.2;
    same_deployment_fee = moved_frame.3;
    not_failed = λ _. live;
  }

  pub moved-OwnersMatch : OwnersMatch s → OwnersMatch moved
  moved-OwnersMatch o u = ground (arith, o u, moved_frame, get_user_account_cong moved s u)

  -- A refund after a change of status is a refund.
  pub moved-IsRefunded :
      (t : Factory) → IsRefunded c id moved_record moved t → IsRefunded c id r s t
  moved-IsRefunded t g = record {
    record_refunded = g.record_refunded;
    other_records = λ j ne. ground (arith, g.other_records j ne, moved_others j ne);
    accounts = λ v. ground (
      arith,
      g.accounts v,
      moved_frame,
      get_user_account_cong moved s v,
      get_user_account_cong moved s r.owner,
    );
    same_admins = ground (arith, g.same_admins, moved_frame);
    same_deployment_fee = ground (arith, g.same_deployment_fee, moved_frame);
  }

pub stays-IsAdvanced :
    (id : DeploymentId) (r : DeploymentRecord) (s : Factory)
    → IsRefundable id r s
    → IsAdvanced id r s s
stays-IsAdvanced id r s h = record {
  new_record = r;
  found = h.known;
  same_owner = refl;
  same_fee = refl;
  same_id = refl;
  other_records = λ j ne. refl;
  same_accounts = refl;
  same_admins = refl;
  same_deployment_fee = refl;
  not_failed = λ n. n;
}

-- Two advances, one after the other.
unfoldable pub IsAdvanced-trans :
    (id : DeploymentId) (r : DeploymentRecord) (s t u : Factory) (a : IsAdvanced id r s t)
    → IsAdvanced id a.new_record t u
    → IsAdvanced id r s u
IsAdvanced-trans id r s t u a b = record {
  new_record = b.new_record;
  found = b.found;
  same_owner = b.same_owner ∙ a.same_owner;
  same_fee = b.same_fee ∙ a.same_fee;
  same_id = b.same_id ∙ a.same_id;
  other_records = λ j ne. b.other_records j ne ∙ a.other_records j ne;
  same_accounts = b.same_accounts ∙ a.same_accounts;
  same_admins = b.same_admins ∙ a.same_admins;
  same_deployment_fee = b.same_deployment_fee ∙ a.same_deployment_fee;
  not_failed = λ n. b.not_failed (a.not_failed n);
}
