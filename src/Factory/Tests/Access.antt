-- ===== src/Factory/Tests/Access.antt =====
-- Administration, archiving, retries, histories and upgrades at concrete inputs.
use hunter_fi.Base.{
  ℕ, nat_eq, ◌≤◌, ◌<◌, ◌≡◌, ◌⊎◌, refl, none, some, Result, ok, err, arith, [], ◌∷◌, false, zero,
  suc,
}
use hunter_fi.Base.Dict.{lookup}
use hunter_fi.Common.Types.{deployment_status_eq}
use hunter_fi.Factory.Types.{
  Call, Message, plain, TransactionId, deployment_id_eq, transaction_id_eq,
}
use hunter_fi.Factory.State.{is_admin, get_deployment_record}
use hunter_fi.Factory.Payment.{LedgerCall, Rejection}
use hunter_fi.Factory.Api.{
  add_admin, remove_admin, set_deployment_fee, adjust_balance, withdraw_icp,
  force_execute_deployment,
}
use hunter_fi.Factory.Api.Admins.{IsGoverned, Refused, not_admin-Refused}
use hunter_fi.Factory.Archive.{archive_old_deployment_records}
use hunter_fi.Factory.Archive.Retention.{archive_keeps_incomplete, archive_removes_expired}
use hunter_fi.Factory.Retry.{TimerState, execute_with_retry}
use hunter_fi.Factory.Retry.Bound.{execute_with_retry_total}
use hunter_fi.Factory.Upgrade.Restored.{or_else, upgraded, upgraded_keeps}
use hunter_fi.Factory.System.Sound.{IsSound}
use hunter_fi.Factory.System.Steps.{stay, then_step, by_add_admin, factory_reachable-IsSound}
use hunter_fi.Factory.Api.{init, empty_factory}
use hunter_fi.Factory.Samples.{
  codec, user_call, admin_call, factory, pending, closed, closed_record, sample_id, sample_record,
}

factory-IsGoverned : IsGoverned factory
unfolding nat_eq
factory-IsGoverned = record { distinct = (refl, (refl, tt)); inhabited = omega arith; named = refl }

abbrev paid_out : ℕ → LedgerCall → Result Rejection ℕ
paid_out _ _ = ok 12

user_not_admin : is_admin user_call factory ≡ false
unfolding is_admin nat_eq
user_not_admin = refl

not_admin-Refused_example :
    Refused factory (add_admin user_call 8 factory)
    × Refused factory (remove_admin user_call 8 factory)
    × Refused factory (set_deployment_fee user_call 0 factory)
    × Refused factory (adjust_balance user_call 8 0 (plain "gift") factory)
    × Refused factory (withdraw_icp paid_out (some 9) user_call 8 0 factory).0
    × ((withdraw_icp paid_out (some 9) user_call 8 0 factory).1 ≡ [])
    × Refused factory (force_execute_deployment user_call sample_id factory)
not_admin-Refused_example =
    not_admin-Refused user_call factory 8 0 (plain "gift") sample_id paid_out (some 9)
      user_not_admin

-- A hundred days after the start of the clock.
abbrev late_call : Call
late_call = record admin_call { time = 8640000000000000 }

archive_keeps_incomplete_example :
    get_deployment_record sample_id (archive_old_deployment_records late_call pending).1
    ≡ some sample_record
unfolding lookup get_deployment_record deployment_id_eq deployment_status_eq
archive_keeps_incomplete_example =
    archive_keeps_incomplete late_call pending sample_id sample_record (refl, tt) (refl, tt) refl
      refl

archive_removes_expired_example :
    get_deployment_record sample_id (archive_old_deployment_records late_call closed).1 ≡ none
unfolding lookup get_deployment_record deployment_id_eq deployment_status_eq
archive_removes_expired_example =
    archive_removes_expired late_call closed sample_id closed_record (refl, tt) (refl, tt) refl refl
      (omega arith)

-- A task that succeeds when it is run for the third time.
abbrev flaky : ℕ → Result Message ℕ
flaky zero = err (plain "busy")
flaky (suc zero) = err (plain "busy")
flaky (suc (suc _)) = ok 4

abbrev fresh_timer : TimerState
fresh_timer = record { retry_counter = 0; last_error = none }

execute_with_retry_total_example :
    (u : TimerState) × (n : ℕ) × (execute_with_retry flaky 5 6 0 fresh_timer ≡ some (u, n))
    × (0 < n)
    × (n ≤ 6)
    × ((u.retry_counter ≡ 0) ⊎ (n ≡ 6))
execute_with_retry_total_example =
    execute_with_retry_total flaky 5 6 0 fresh_timer (omega arith) (omega arith)

abbrev some_transaction : TransactionId
some_transaction = record { timestamp = 5000; caller = 7; canister = 1 }

upgraded_keeps_example :
    ((upgraded factory pending).admins ≡ 3 ∷ 4 ∷ [])
    × ((upgraded factory pending).deployment_fee ≡ 100000000)
    × ((upgraded factory pending).deployment_id_counter ≡ 0)
    × ((upgraded factory pending).owner_strategies ≡ [])
    × (lookup 7 (upgraded factory pending).user_accounts
        ≡ or_else (lookup 7 factory.user_accounts) (lookup 7 pending.user_accounts))
    × (lookup 7 (upgraded factory pending).strategies
        ≡ or_else (lookup 7 factory.strategies) (lookup 7 pending.strategies))
    × (lookup some_transaction (upgraded factory pending).transactions
        ≡ or_else
            (lookup some_transaction factory.transactions)
            (lookup some_transaction pending.transactions))
unfolding lookup
upgraded_keeps_example = upgraded_keeps factory pending (refl, tt) tt tt 7 some_transaction

-- The installer appoints a second administrator.
factory_reachable-IsSound_example :
    IsSound (add_admin admin_call 9 (init admin_call empty_factory)).1
factory_reachable-IsSound_example =
    factory_reachable-IsSound codec admin_call
      (add_admin admin_call 9 (init admin_call empty_factory)).1 (λ e. omega (arith, e))
      (then_step (init admin_call empty_factory) (init admin_call empty_factory)
        (add_admin admin_call 9 (init admin_call empty_factory)).1
        (stay (init admin_call empty_factory))
        (by_add_admin admin_call 9 (init admin_call empty_factory)))
