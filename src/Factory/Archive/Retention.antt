-- ===== src/Factory/Archive/Retention.antt =====
-- What archiving removes, and what it keeps.
use hunter_fi.Base.{
  ℕ, suc, ◌-◌, ◌<◌, ◌≡◌, inl, inr, refl, Bool, true, false, none, some, List, [], ◌∷◌, arith, ltb,
  ◌==◌, ◌||◌, ◌&&◌, if◌then◌else◌, length, keep, Bool-cases, contains,
}
use hunter_fi.Base.Dict.{
  Dict, lookup, erase, values, NodupKeys, lookup-erase_ne, lookup-erase_self, erase-NodupKeys,
}
use hunter_fi.Common.Types.{deployment_status_eq}
use hunter_fi.Factory.Types.{DeploymentId, deployment_id_eq, DeploymentRecord, Call, Factory}
use hunter_fi.Factory.State.{
  get_deployment_record, get_all_deployment_records, retention_period_ns, max_completed_records,
}
use hunter_fi.Factory.Archive.{
  is_completed, insert_by_time, sort_by_time, to_archive, remove_all, records_to_archive,
  archive_old_deployment_records,
}

-- Removing a list of ids removes those and no other.
pub remove_all-lookup :
    (ids : List DeploymentId) (d : Dict DeploymentId DeploymentRecord) (n : ℕ) (id : DeploymentId)
    → NodupKeys d
    → lookup id (remove_all ids d n).1 ≡ (if contains ids id then none else lookup id d)
unfolding remove_all
remove_all-lookup [] d n id u = refl
remove_all-lookup (j ∷ ids) d n id u = ground (
  arith,
  remove_all-lookup ids (erase j d) (elim (lookup j d) [ none ↦ n | some _ ↦ suc n ]) id
      (erase-NodupKeys j d u),
  lookup-erase_ne id j d,
  lookup-erase_self j d u,
)

-- An id in the list of ids to archive is that of a record in the list of records.
abbrev has_id : DeploymentId → DeploymentRecord → Bool
has_id id r = id == r.deployment_id

abbrev any : (DeploymentRecord → Bool) → List DeploymentRecord → Bool
any p [] = false
any p (r ∷ rs) = p r || any p rs

to_archive-any :
    (excess threshold i : ℕ) (rs : List DeploymentRecord) (id : DeploymentId)
    → contains (to_archive excess threshold i rs) id ≡ true
    → any (has_id id) rs ≡ true
unfolding to_archive
to_archive-any excess threshold i [] id h = h
to_archive-any excess threshold i (r ∷ rs) id h =
    ground (arith, to_archive-any excess threshold (suc i) rs id)

any-insert :
    (p : DeploymentRecord → Bool) (r : DeploymentRecord) (rs : List DeploymentRecord)
    → any p (insert_by_time r rs) ≡ (p r || any p rs)
unfolding insert_by_time
any-insert p r [] = refl
any-insert p r (x ∷ rs) = ground (arith, any-insert p r rs)

any-sort :
    (p : DeploymentRecord → Bool) (rs : List DeploymentRecord) → any p (sort_by_time rs) ≡ any p rs
unfolding sort_by_time
any-sort p [] = refl
any-sort p (r ∷ rs) = ground (arith, any-sort p rs, any-insert p r (sort_by_time rs))

-- With every record under its own id, the completed records hold an id only if its record is
-- completed.
abbrev pub OwnIds : Dict DeploymentId DeploymentRecord → Type 0
OwnIds [] = Unit
OwnIds ((id, r) ∷ d) = (r.deployment_id ≡ id) × OwnIds d

any_absent :
    (id : DeploymentId) (d : Dict DeploymentId DeploymentRecord)
    → OwnIds d
    → lookup id d ≡ none
    → any (has_id id) (keep is_completed (values d)) ≡ false
unfolding lookup
any_absent id [] o h = refl
any_absent id ((j, r) ∷ d) (own, o) h = ground (arith, any_absent id d o)

any_completed :
    (id : DeploymentId) (d : Dict DeploymentId DeploymentRecord) (r : DeploymentRecord)
    → OwnIds d
    → NodupKeys d
    → lookup id d ≡ some r
    → any (has_id id) (keep is_completed (values d)) ≡ is_completed r
unfolding lookup
any_completed id [] r o u h = cc
any_completed id ((j, x) ∷ d) r (own, o) (fresh, u) h =
    ground (arith, any_completed id d r o u, any_absent id d o)

abbrev expired : ℕ → DeploymentId → DeploymentRecord → Bool
expired threshold id r = id == r.deployment_id && ltb r.last_updated threshold

to_archive-expired :
    (excess threshold i : ℕ) (rs : List DeploymentRecord) (id : DeploymentId)
    → any (expired threshold id) rs ≡ true
    → contains (to_archive excess threshold i rs) id ≡ true
unfolding to_archive
to_archive-expired excess threshold i [] id h = cc
to_archive-expired excess threshold i (r ∷ rs) id h =
    ground (arith, to_archive-expired excess threshold (suc i) rs id)

any-expired :
    (threshold : ℕ) (id : DeploymentId) (d : Dict DeploymentId DeploymentRecord)
    (r : DeploymentRecord)
    → OwnIds d
    → lookup id d ≡ some r
    → is_completed r ≡ true
    → r.last_updated < threshold
    → any (expired threshold id) (keep is_completed (values d)) ≡ true
unfolding lookup
any-expired threshold id [] r o h done old = cc
any-expired threshold id ((j, x) ∷ d) r (own, o) h done old =
    ground (arith, any-expired threshold id d r o)

module _ (c : Call) (s : Factory) (id : DeploymentId) (r : DeploymentRecord)
    (unique : NodupKeys s.deployment_records) (own : OwnIds s.deployment_records)
    (known : get_deployment_record id s ≡ some r) where
  lookup_known : lookup id s.deployment_records ≡ some r
  unfolding get_deployment_record
  lookup_known = known

  completed : List DeploymentRecord
  completed = keep is_completed (values s.deployment_records)

  archived-lookup :
      get_deployment_record id (archive_old_deployment_records c s).1
      ≡ (if contains (records_to_archive c s) id then none else some r)
  unfolding get_deployment_record archive_old_deployment_records
  archived-lookup = ground (
    arith,
    lookup_known,
    remove_all-lookup (records_to_archive c s) s.deployment_records 0 id unique,
  )

  -- With unique keys and every record stored under its own id: a record whose deployment is not
  -- completed survives archiving unchanged, however old it is and however many records there are.
  pub archive_keeps_incomplete :
      is_completed r ≡ false
      → get_deployment_record id (archive_old_deployment_records c s).1 ≡ some r
  unfolding records_to_archive get_all_deployment_records completed
  archive_keeps_incomplete open_record =
      let excess = length (sort_by_time completed) - max_completed_records in
      let threshold = c.time - retention_period_ns in
      elim (Bool-cases (contains (records_to_archive c s) id)) [
        | inl listed ↦ cc (
          to_archive-any excess threshold 0 (sort_by_time completed) id listed,
          any-sort (has_id id) completed,
          any_completed id s.deployment_records r own unique lookup_known,
        )
        | inr spared ↦ ground (arith, archived-lookup)
      ]

  -- With unique keys and every record stored under its own id: archiving removes a completed
  -- record that was last updated before the retention period.
  pub archive_removes_expired :
      is_completed r ≡ true
      → r.last_updated < c.time - retention_period_ns
      → get_deployment_record id (archive_old_deployment_records c s).1 ≡ none
  unfolding records_to_archive get_all_deployment_records completed
  archive_removes_expired done old =
      let excess = length (sort_by_time completed) - max_completed_records in
      let threshold = c.time - retention_period_ns in
      ground (
        arith,
        archived-lookup,
        to_archive-expired excess threshold 0 (sort_by_time completed) id,
        any-sort (expired threshold id) completed,
        any-expired threshold id s.deployment_records r own lookup_known done old,
      )
