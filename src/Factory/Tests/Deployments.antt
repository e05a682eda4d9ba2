-- ===== src/Factory/Tests/Deployments.antt =====
-- Deployments at concrete inputs.
use hunter_fi.Base.{◌<◌, ◌<◌, ◌⊎◌, ◌≤◌, nat_eq, ◌+◌, ◌≡◌, ◌≢◌, refl, ok, err, arith, inr, []}
use hunter_fi.Base.Dict.{lookup}
use hunter_fi.Factory.Types.{deployment_id_eq, Factory, plain, of_message}
use hunter_fi.Factory.State.{get_user_account, get_deployment_record}
use hunter_fi.Factory.State.Accounts.{OwnersMatch}
use hunter_fi.Factory.State.Totals.{total_balance}
use hunter_fi.Common.Types.{self_hedging}
use hunter_fi.Common.Config.{validate, get_strategy_type}
use hunter_fi.Factory.Deployment.{
  short_of_cycles, failure, finished, creating, waiting, creation_cycles, execute_deployment,
  create_strategy_request, start_deployment, to_string, config_error,
}
use hunter_fi.Factory.Deployment.Failure.{IsRefundable, IsRefunded}
use hunter_fi.Factory.Deployment.Segments.{start_deployment-creates}
use hunter_fi.Factory.Deployment.Execution.{Ends, execute_deployment-Ends}
use hunter_fi.Factory.Deployment.Request.{
  IsAccepted, IsCharged, new_id, create_strategy_request_accepted, create_strategy_request_refused,
  create_strategy_request_unencoded,
}
use hunter_fi.Factory.Deployment.Service.{IsServed, create_strategy_request-execute_deployment}
use hunter_fi.Factory.Samples.{
  user_call, later_call, admin_call, factory, config, codec, broken_codec, encoded, replies,
  sample_id, sample_record, pending,
}

factory-OwnersMatch : OwnersMatch factory
unfolding get_user_account lookup
factory-OwnersMatch u = ground arith

pending-OwnersMatch : OwnersMatch pending
unfolding get_user_account lookup
pending-OwnersMatch u = ground arith

pending-IsRefundable : IsRefundable sample_id sample_record pending
unfolding get_deployment_record lookup deployment_id_eq
pending-IsRefundable = record {
  known = refl;
  own = refl;
  fee_positive = omega arith;
  fee_bounded = omega arith;
}

config-IsAccepted : IsAccepted codec user_call config factory
unfolding validate get_strategy_type get_user_account lookup
config-IsAccepted = record {
  valid = refl;
  supported = refl;
  fee_positive = omega arith;
  fee_bounded = omega arith;
  covered = ground arith;
}

config-IsAccepted_broken : IsAccepted broken_codec user_call config factory
unfolding validate get_strategy_type get_user_account lookup
config-IsAccepted_broken = record {
  valid = refl;
  supported = refl;
  fee_positive = omega arith;
  fee_bounded = omega arith;
  covered = ground arith;
}

user_balance : (get_user_account 7 factory).balance ≡ 500000000
unfolding get_user_account lookup nat_eq
user_balance = refl

-- The refusal of `install_code` gives the fee back.
create_strategy_request-execute_deployment_example :
    IsServed (new_id codec user_call config factory) factory (
      execute_deployment codec later_call replies
        (new_id codec user_call config factory)
        (create_strategy_request codec user_call config factory).1)
create_strategy_request-execute_deployment_example =
    create_strategy_request-execute_deployment codec user_call config factory encoded
      factory-OwnersMatch config-IsAccepted refl replies later_call (ground (arith, user_balance))

execute_deployment-Ends_example :
    Ends sample_id sample_record pending 0
      (execute_deployment codec later_call replies sample_id pending)
execute_deployment-Ends_example =
    execute_deployment-Ends sample_id sample_record pending pending-IsRefundable pending-OwnersMatch
      codec replies later_call

start_deployment-creates_example :
    ((creation_cycles ≤ user_call.cycles)
      × (start_deployment user_call sample_id pending
          ≡ (ok (waiting (creating sample_id sample_record)), pending)))
    ⊎ ((user_call.cycles < creation_cycles)
        × (t : Factory) × (start_deployment user_call sample_id pending
            ≡ (ok (finished (failure (to_string (short_of_cycles user_call)))), t))
        × IsRefunded user_call sample_id sample_record pending t)
start_deployment-creates_example =
    start_deployment-creates user_call sample_id sample_record pending pending-OwnersMatch
      pending-IsRefundable

create_strategy_request_accepted_example :
    (t : Factory) × (create_strategy_request codec user_call config factory ≡ (
      ok (record {
        deployment_id = new_id codec user_call config factory;
        fee_amount = 100000000;
        strategy_type = self_hedging;
      }),
      t,
    ))
    × IsCharged codec user_call config factory encoded t
unfolding get_strategy_type
create_strategy_request_accepted_example =
    create_strategy_request_accepted codec user_call config factory encoded factory-OwnersMatch
      config-IsAccepted refl

-- The administrator 3 has no balance.
create_strategy_request_refused_example :
    ((create_strategy_request codec admin_call config factory).0
      ≢ ok (record { deployment_id = sample_id; fee_amount = 1; strategy_type = self_hedging }))
    × ((create_strategy_request codec admin_call config factory).1 ≡ factory)
unfolding get_user_account lookup
create_strategy_request_refused_example =
    create_strategy_request_refused codec admin_call config factory
      (record { deployment_id = sample_id; fee_amount = 1; strategy_type = self_hedging })
      (inr (inr (inr (ground arith))))

create_strategy_request_unencoded_example :
    ((create_strategy_request broken_codec user_call config factory).0
      ≡ err (
          to_string
            (config_error (of_message "Failed to serialize config: {}" (plain "cannot encode")))))
    × (total_balance (create_strategy_request broken_codec user_call config factory).1 + 100000000
        ≡ 500000000)
    × ((create_strategy_request broken_codec user_call config factory).1.deployment_records ≡ [])
create_strategy_request_unencoded_example =
    create_strategy_request_unencoded broken_codec user_call config factory (plain "cannot encode")
      factory-OwnersMatch config-IsAccepted_broken refl
