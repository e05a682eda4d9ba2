-- ===== src/Factory/Archive.antt =====
-- Archiving of completed deployment records (src/factory/src/state.rs). The stable map iterates in the
-- order of its encoded keys, the model in the order of insertion: records of one time may be sorted
-- in another order.
pub mod Retention
use hunter_fi.Base.{
  ℕ, suc, ◌+◌, ◌-◌, ◌*◌, ◌/◌, Bool, true, false, Option, none, some, List, [], ◌∷◌, ltb, leb, ◌||◌,
  if◌then◌else◌, ◌==◌, length, keep, map,
}
use Prim.Native.Nat.{min}
use hunter_fi.Base.Dict.{Dict, lookup, erase, values}
use hunter_fi.Common.Types.{deployed, refunded, deployment_status_eq, DeploymentStatus}
use hunter_fi.Factory.Types.{DeploymentId, deployment_id_eq, DeploymentRecord, Call, Factory}
use hunter_fi.Factory.State.{get_all_deployment_records, retention_period_ns, max_completed_records}

abbrev pub is_completed : DeploymentRecord → Bool
is_completed r = r.status == deployed || r.status == refunded

-- `sort_by(|a, b| a.last_updated.cmp(&b.last_updated))`, a stable sort.
unfoldable pub insert_by_time : DeploymentRecord → List DeploymentRecord → List DeploymentRecord
insert_by_time r [] = r ∷ []
insert_by_time r (x ∷ xs) =
    if leb r.last_updated x.last_updated then r ∷ x ∷ xs else x ∷ insert_by_time r xs

unfoldable pub sort_by_time : List DeploymentRecord → List DeploymentRecord
unfolding insert_by_time
sort_by_time [] = []
sort_by_time (r ∷ rs) = insert_by_time r (sort_by_time rs)

-- The `enumerate().filter(..)`: the ids of the records to archive, from index `i` on.
unfoldable pub to_archive : ℕ → ℕ → ℕ → List DeploymentRecord → List DeploymentId
to_archive excess threshold i [] = []
to_archive excess threshold i (r ∷ rs) =
    let rest = to_archive excess threshold (suc i) rs in
    if ltb i excess || ltb r.last_updated threshold then r.deployment_id ∷ rest else rest

-- The removals, with the number of records that were there.
unfoldable pub remove_all :
    List DeploymentId
    → Dict DeploymentId DeploymentRecord
    → ℕ
    → ℕ × Dict DeploymentId DeploymentRecord
remove_all [] d n = (n, d)
remove_all (id ∷ ids) d n =
    remove_all ids (erase id d) (elim (lookup id d) [ none ↦ n | some _ ↦ suc n ])

unfoldable pub records_to_archive : Call → Factory → List DeploymentId
unfolding get_all_deployment_records
records_to_archive c s =
    let sorted = sort_by_time (keep is_completed (get_all_deployment_records s)) in
    to_archive (length sorted - max_completed_records) (c.time - retention_period_ns) 0 sorted

-- `archive_old_deployment_records`, which always returns `Ok`.
unfoldable pub archive_old_deployment_records : Call → Factory → ℕ × Factory
unfolding records_to_archive
archive_old_deployment_records c s =
    let (n, d) = remove_all (records_to_archive c s) s.deployment_records 0 in
    (n, record s { deployment_records = d })

-- The percentage is computed in floating point: 500 * records / 2 ^ 22 * 100, truncated to a `u8`,
-- which saturates at 255. The division is by a power of two, so it is exact, and the product is
-- exact below 2 ^ 53.
unfoldable pub get_memory_usage_percent : Factory → ℕ
get_memory_usage_percent s = min (min (length s.deployment_records * 500 * 100 / 4194304) 255) 100

abbrev pub archiving_threshold_percent : ℕ
archiving_threshold_percent = 80

unfoldable pub should_archive_records : Factory → Bool
unfolding get_memory_usage_percent
should_archive_records s = ltb archiving_threshold_percent (get_memory_usage_percent s)
