-- ===== src/Factory/Timer.antt =====
-- The periodic work: `process_failed_deployments` and `execute_cleanup_tasks` of
-- src/factory/src/timer.rs.
pub mod Refunds
use hunter_fi.Base.{ℕ, ◌+◌, List, [], ◌∷◌, if◌then◌else◌, ◌==◌, Result, ok, err}
use hunter_fi.Common.Types.{deployment_failed, refunded, deployment_status_eq}
use hunter_fi.Factory.Types.{DeploymentRecord, Call, Factory}
use hunter_fi.Factory.State.{get_deployment_records_by_status}
use hunter_fi.Factory.Balances
use hunter_fi.Factory.Archive.{should_archive_records, archive_old_deployment_records}

-- One round of the loop of timer.rs: the count and the state. The refund is that of state.rs, which
-- leaves the record's status alone.
abbrev pub count_ok : {E A : Type 0} → Result E A × Factory → ℕ → ℕ × Factory
count_ok (ok _, s) n = (n + 1, s)
count_ok (err _, s) n = (n, s)

unfoldable pub refund_one : Call → DeploymentRecord → ℕ → Factory → ℕ × Factory
refund_one c r n s =
    if r.status == refunded
    then (n, s)
    else count_ok (Balances.process_balance_refund c r.owner r.fee_amount r.deployment_id s) n

unfoldable pub refund_each : Call → List DeploymentRecord → ℕ → Factory → ℕ × Factory
unfolding refund_one
refund_each c [] n s = (n, s)
refund_each c (r ∷ rs) n s = let (n', s') = refund_one c r n s in refund_each c rs n' s'

-- `process_failed_deployments` of timer.rs, which always returns `Ok`.
unfoldable pub process_failed_deployments : Call → Factory → ℕ × Factory
unfolding refund_each
process_failed_deployments c s =
    refund_each c (get_deployment_records_by_status deployment_failed s) 0 s

-- `execute_cleanup_tasks`: archive if needed, then refund.
unfoldable pub execute_cleanup_tasks : Call → Factory → Factory
unfolding process_failed_deployments
execute_cleanup_tasks c s =
    let archived = if should_archive_records s then (archive_old_deployment_records c s).1 else s in
    (process_failed_deployments c archived).1
