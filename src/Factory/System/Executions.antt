-- ===== src/Factory/System/Executions.antt =====
-- The parts of an execution, and the periodic work, keep the factory's state well-formed.
use hunter_fi.Base.{refl, not, Option, none, some, ◌==◌, nat_eq, ltb, Result, ok, err, map_err}
use hunter_fi.Base.Keeps.{
  Keeps, pure-Keeps, fail-Keeps, from_result-Keeps, gets-Keeps, fail_if-Keeps, modify-Keeps,
  with_err-Keeps, >>=-Keeps, if-Keeps, option-Keeps, result-Keeps,
}
use hunter_fi.Common.Config.{StrategyConfig, validate, get_strategy_type}
use hunter_fi.Common.Types.{
  code_installed, initialized, deployed, Principal, DeploymentStatus, StrategyMetadata,
  deployment_failed, canister_created, self_hedging, strategy_type_eq,
}
use hunter_fi.Common.Calls.{Call, Rejection}
use hunter_fi.Factory.Types.{
  of_config, of_type, DeploymentId, Message, of_id, of_message, system_error, DeploymentRecord,
  Factory,
}
use hunter_fi.Factory.State.{
  store_strategy_metadata, generate_deployment_id, store_deployment_record, get_deployment_record,
}
use hunter_fi.Factory.Payment.{process_balance_refund}
use hunter_fi.Factory.Deployment.{
  Codec, decode_config, create_strategy_metadata, resume_installing, resume_initializing,
  create_strategy_request, create_deployment_record, code_installation_failed,
  initialization_failed, initializing, initializer_failed, metadata_error, success,
  module_not_found, config_error, payment_error, after_execution, DeploymentResult, DeploymentError,
  module_not_found, canister_creation_failed, record_not_found, system_error, to_string, failure,
  creating, installing, waiting, finished, creation_cycles, call_failed, handle_deployment_failure,
  stop_with, advance, short_of_cycles, start_deployment, resume_creating,
}
use hunter_fi.Factory.System.Sound.{
  IsSound, frame-IsSound, store_deployment_record-IsSound, update_deployment_status-Keeps,
}
use hunter_fi.Factory.System.Handlers.{
  process_balance_refund-Keeps, process_balance_payment-Keeps, ignored-Keeps,
}

pub handle_deployment_failure-Keeps :
    (c : Call) (id : DeploymentId) (canister_id : Option Principal) (m : Message)
    → Keeps IsSound (handle_deployment_failure c id canister_id m)
unfolding handle_deployment_failure
handle_deployment_failure-Keeps c id canister_id m =
    >>=-Keeps
      (with_err-Keeps (of_message "Failed to update deployment status: {}")
        (update_deployment_status-Keeps c id deployment_failed canister_id (some m)))
      (λ _. >>=-Keeps (gets-Keeps (get_deployment_record id)) (λ found.
        option-Keeps found (fail-Keeps (of_id "Deployment record not found for ID: {}" id)) (λ r.
          >>=-Keeps (ignored-Keeps (process_balance_refund-Keeps c r.owner r.fee_amount id))
            (λ _. pure-Keeps (failure m)))))

stop_with-Keeps :
    (c : Call) (id : DeploymentId) (canister_id : Option Principal) (e : DeploymentError)
    → Keeps IsSound (stop_with c id canister_id e)
stop_with-Keeps c id canister_id e =
    >>=-Keeps (handle_deployment_failure-Keeps c id canister_id (to_string e))
      (λ r. pure-Keeps (finished r))

advance-Keeps :
    (c : Call) (id : DeploymentId) (status : DeploymentStatus) (cid : Principal)
    → Keeps IsSound (advance c id status cid)
advance-Keeps c id status cid =
    with_err-Keeps (λ m. to_string (system_error m))
      (update_deployment_status-Keeps c id status (some cid) none)

pub start_deployment-Keeps : (c : Call) (id : DeploymentId) → Keeps IsSound (start_deployment c id)
unfolding start_deployment
start_deployment-Keeps c id = >>=-Keeps (gets-Keeps (get_deployment_record id)) (λ found.
    option-Keeps found
      (fail-Keeps
        (to_string (record_not_found (of_id "Deployment record not found for ID: {}" id))))
      (λ r.
        if-Keeps (ltb c.cycles creation_cycles) (stop_with-Keeps c id none (short_of_cycles c))
          (pure-Keeps (waiting (creating id r)))))

pub resume_creating-Keeps :
    (c : Call) (id : DeploymentId) (r : DeploymentRecord) (reply : Result Rejection Principal)
    → Keeps IsSound (resume_creating c id r reply)
unfolding resume_creating
resume_creating-Keeps c id r (err e) =
    stop_with-Keeps c id none (canister_creation_failed (call_failed e))
resume_creating-Keeps c id r (ok cid) = >>=-Keeps (advance-Keeps c id canister_created cid) (λ _.
    if-Keeps (not (r.strategy_type == self_hedging))
      (stop_with-Keeps c id (some cid) (module_not_found r.strategy_type))
      (pure-Keeps (waiting (installing id r cid))))

store_strategy_metadata-IsSound :
    (m : StrategyMetadata) (s : Factory) → IsSound s → IsSound (store_strategy_metadata m s)
unfolding store_strategy_metadata
store_strategy_metadata-IsSound m s h =
    frame-IsSound s (store_strategy_metadata m s) refl refl refl h

generate_deployment_id-Keeps :
    (c : Call)
    → Keeps {E = Message} IsSound
        (λ s. (ok (generate_deployment_id c s).0, (generate_deployment_id c s).1))
unfolding generate_deployment_id
generate_deployment_id-Keeps c = record {
  keeps = λ s h. frame-IsSound s (generate_deployment_id c s).1 refl refl refl h;
}

module _ (codec : Codec) where
  pub resume_installing-Keeps :
      (c : Call) (id : DeploymentId) (r : DeploymentRecord) (cid : Principal)
      (reply : Result Rejection (Unit {0}))
      → Keeps IsSound (resume_installing codec c id r cid reply)
  unfolding resume_installing
  resume_installing-Keeps c id r cid (err e) =
      stop_with-Keeps c id (some cid) (code_installation_failed (call_failed e))
  resume_installing-Keeps c id r cid (ok _) =
      >>=-Keeps (advance-Keeps c id code_installed cid) (λ _.
        result-Keeps (decode_config codec r.strategy_type r.config_data)
          (λ m. stop_with-Keeps c id (some cid) (initialization_failed m))
          (λ config. pure-Keeps (waiting (initializing id r cid config))))

  pub resume_initializing-Keeps :
      (c : Call) (id : DeploymentId) (r : DeploymentRecord) (cid : Principal)
      (reply : Result Rejection (Unit {0}))
      → Keeps IsSound (resume_initializing codec c id r cid reply)
  unfolding resume_initializing
  resume_initializing-Keeps c id r cid (err e) =
      stop_with-Keeps c id (some cid) (initializer_failed e)
  resume_initializing-Keeps c id r cid (ok _) = >>=-Keeps (advance-Keeps c id initialized cid) (λ _.
      result-Keeps (create_strategy_metadata codec c r cid)
        (λ m. stop_with-Keeps c id (some cid) (metadata_error m))
        (λ metadata.
          >>=-Keeps
            (>>=-Keeps
              (modify-Keeps (store_strategy_metadata metadata)
                (store_strategy_metadata-IsSound metadata))
              (λ _. advance-Keeps c id deployed cid))
            (λ _. pure-Keeps (finished (success cid)))))

  pub create_strategy_request-Keeps :
      (c : Call) (config : StrategyConfig) → Keeps IsSound (create_strategy_request codec c config)
  unfolding create_strategy_request
  create_strategy_request-Keeps c config = >>=-Keeps (gets-Keeps (λ s. s.deployment_fee)) (λ fee.
      >>=-Keeps
        (from_result-Keeps
          (map_err (λ e. to_string (config_error (of_config "{}" e))) (validate config)))
        (λ _.
          >>=-Keeps
            (fail_if-Keeps (not (get_strategy_type config == self_hedging))
              (to_string (module_not_found (get_strategy_type config))))
            (λ _.
              >>=-Keeps
                (with_err-Keeps (λ e. to_string (payment_error e))
                  (process_balance_payment-Keeps c c.caller fee
                    (of_type "Deployment fee for {:?} strategy" (get_strategy_type config))))
                (λ _. >>=-Keeps (generate_deployment_id-Keeps c) (λ id.
                  >>=-Keeps
                    (from_result-Keeps
                      (map_err to_string (create_deployment_record codec c id c.caller fee config)))
                    (λ r.
                      >>=-Keeps
                        (modify-Keeps (store_deployment_record r)
                          (store_deployment_record-IsSound r))
                        (λ _. pure-Keeps (record {
                          deployment_id = id;
                          fee_amount = fee;
                          strategy_type = get_strategy_type config;
                        }))))))))

-- The refund at the end of a spawned execution, of the record that it finds.
abbrev settled : Call → DeploymentId → Factory → Option DeploymentRecord → Factory
settled c id s none = s
settled c id s (some r) = (process_balance_refund c r.owner r.fee_amount id s).1

settled-IsSound :
    (c : Call) (id : DeploymentId) (s : Factory) (found : Option DeploymentRecord)
    → IsSound s
    → IsSound (settled c id s found)
settled-IsSound c id s none h = h
settled-IsSound c id s (some r) h =
    (process_balance_refund-Keeps c r.owner r.fee_amount id).keeps s h

pub after_execution-IsSound :
    (c : Call) (id : DeploymentId) (r : Result Message DeploymentResult) (s : Factory)
    → IsSound s
    → IsSound (after_execution c id r s)
unfolding after_execution
after_execution-IsSound c id (ok _) s h = h
after_execution-IsSound c id (err _) s h = settled-IsSound c id s (get_deployment_record id s) h
