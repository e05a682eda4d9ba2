-- ===== src/Factory/System/Cleanup.antt =====
-- The periodic work keeps the factory's state well-formed.
use hunter_fi.Base.{
  suc, ℕ, suc, ◌≡◌, Bool, true, false, none, some, List, [], ◌∷◌, ◌==◌, eqb, if◌then◌else◌, Result,
  ok, err, arith, Bool-cases, inl, inr,
}
use hunter_fi.Base.Dict.{Dict, lookup, erase, NodupKeys, erase-NodupKeys}
use hunter_fi.Base.Keeps.{Keeps, fail_if-Keeps, with_err-Keeps, >>=-Keeps}
use hunter_fi.Common.Types.{Principal, refunded, deployment_failed, deployment_status_eq}
use hunter_fi.Factory.Types.{
  deployment_id_eq, Call, DeploymentId, refund, plain, of_id, of_message, DeploymentRecord, Factory,
}
use hunter_fi.Factory.State.{
  get_deployment_records_by_status, get_deployment_record, get_user_account,
}
use hunter_fi.Factory.Balances
use hunter_fi.Factory.Archive.Retention.{remove_all-lookup}
use hunter_fi.Factory.Archive.{
  remove_all, archive_old_deployment_records, records_to_archive, should_archive_records,
}
use hunter_fi.Factory.Timer.{
  count_ok, refund_one, refund_each, process_failed_deployments, execute_cleanup_tasks,
}
use hunter_fi.Factory.System.Sound.{IsSound, recorded-Keeps, update_user_balance-Keeps}

remove_all-NodupKeys :
    (ids : List DeploymentId) (d : Dict DeploymentId DeploymentRecord) (n : ℕ)
    → NodupKeys d
    → NodupKeys (remove_all ids d n).1
unfolding remove_all
remove_all-NodupKeys [] d n u = u
remove_all-NodupKeys (id ∷ ids) d n u =
    remove_all-NodupKeys ids (erase id d) (elim (lookup id d) [ none ↦ n | some _ ↦ suc n ])
      (erase-NodupKeys id d u)

-- What is left after the removals was there before.
remove_all-kept :
    (ids : List DeploymentId) (d : Dict DeploymentId DeploymentRecord) (id : DeploymentId)
    (r : DeploymentRecord)
    → NodupKeys d
    → lookup id (remove_all ids d 0).1 ≡ some r
    → lookup id d ≡ some r
remove_all-kept ids d id r u e = ground (arith, remove_all-lookup ids d 0 id u, e)

pub archive_old_deployment_records-IsSound :
    (c : Call) (s : Factory) → IsSound s → IsSound (archive_old_deployment_records c s).1
unfolding archive_old_deployment_records get_deployment_record get_user_account
archive_old_deployment_records-IsSound c s h = record {
  owners = h.owners;
  ids = λ id r e.
      h.ids id r (remove_all-kept (records_to_archive c s) s.deployment_records id r h.unique e);
  unique = remove_all-NodupKeys (records_to_archive c s) s.deployment_records 0 h.unique;
  governed = record {
    distinct = h.governed.distinct;
    inhabited = h.governed.inhabited;
    named = h.governed.named;
  };
}

refund-Keeps :
    (c : Call) (u : Principal) (x : ℕ) (id : DeploymentId)
    → Keeps IsSound (Balances.process_balance_refund c u x id)
unfolding Balances.process_balance_refund
refund-Keeps c u x id =
    >>=-Keeps (fail_if-Keeps (eqb x 0) (plain "Refund amount must be greater than 0")) (λ _.
      >>=-Keeps
        (with_err-Keeps (of_message "Failed to update user balance: {}")
          (update_user_balance-Keeps c u x true))
        (λ _. recorded-Keeps c u x refund (of_id "Refund for failed deployment (ID: {})" id)))

counted : {E A : Type 0} (p : Result E A × Factory) (n : ℕ) → IsSound p.1 → IsSound (count_ok p n).1
counted (ok _, s) n h = h
counted (err _, s) n h = h

refund_one-IsSound :
    (c : Call) (r : DeploymentRecord) (n : ℕ) (s : Factory)
    → IsSound s
    → IsSound (refund_one c r n s).1
unfolding refund_one
refund_one-IsSound c r n s h = elim (Bool-cases (r.status == refunded)) [
  | inl done ↦ rw done h
  | inr open_record ↦ rw open_record (
      counted (Balances.process_balance_refund c r.owner r.fee_amount r.deployment_id s) n
        ((refund-Keeps c r.owner r.fee_amount r.deployment_id).keeps s h))
]

refund_each-IsSound :
    (c : Call) (rs : List DeploymentRecord) (n : ℕ) (s : Factory)
    → IsSound s
    → IsSound (refund_each c rs n s).1
unfolding refund_each
refund_each-IsSound c [] n s h = h
refund_each-IsSound c (r ∷ rs) n s h =
    refund_each-IsSound c rs (refund_one c r n s).0 (refund_one c r n s).1
      (refund_one-IsSound c r n s h)

process_failed_deployments-IsSound :
    (c : Call) (s : Factory) → IsSound s → IsSound (process_failed_deployments c s).1
unfolding process_failed_deployments
process_failed_deployments-IsSound c s h =
    refund_each-IsSound c (get_deployment_records_by_status deployment_failed s) 0 s h

either-IsSound : (b : Bool) (s t : Factory) → IsSound s → IsSound t → IsSound (if b then s else t)
either-IsSound true s t h k = h
either-IsSound false s t h k = k

pub execute_cleanup_tasks-IsSound :
    (c : Call) (s : Factory) → IsSound s → IsSound (execute_cleanup_tasks c s)
unfolding execute_cleanup_tasks
execute_cleanup_tasks-IsSound c s h =
    process_failed_deployments-IsSound c
      (if should_archive_records s then (archive_old_deployment_records c s).1 else s)
      (either-IsSound (should_archive_records s) (archive_old_deployment_records c s).1 s
        (archive_old_deployment_records-IsSound c s h) h)
