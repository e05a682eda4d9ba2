-- ===== src/Factory/Deployment.antt =====
-- src/factory/src/deployment_manager.rs. `execute_deployment` awaits three calls (create the
-- canister, install the code, initialise the strategy), so it is four functions: what runs from one
-- await to the next is atomic, and other messages may run in between.
pub mod Config
pub mod Failure
pub mod Advance
pub mod Segments
pub mod Finish
pub mod Execution
pub mod Request
pub mod Service
pub use Config.{Codec}
unfoldable pub use Config.{decode_config, create_strategy_metadata}
use hunter_fi.Base.{
  ℕ, ◌+◌, Bool, true, false, Option, none, some, List, [], ◌∷◌, String, ltb, if◌then◌else◌, ◌==◌,
  Result, ok, err, map_err, Action, fail_if, fail, from_result, gets, modify, pure, ◌>>=◌, ◌>>◌,
  with_err, not, ◌||◌,
}
use hunter_fi.Common.Types.{
  Principal, StrategyType, self_hedging, strategy_type_eq, DeploymentStatus, payment_received,
  canister_created, code_installed, initialized, deployed, deployment_failed,
}
use hunter_fi.Common.Config.{StrategyConfig, validate, get_strategy_type}
use hunter_fi.Factory.Types.{
  DeploymentId, Message, plain, of_num, of_nums, of_id, of_type, of_message, of_config, of_payment,
  of_rejection, PaymentError, DeploymentRecord, DeploymentRequest, Call, Factory,
}
use hunter_fi.Factory.State.{
  FactoryAction, generate_deployment_id, store_deployment_record, get_deployment_record,
  update_deployment_status, store_strategy_metadata,
}
use hunter_fi.Factory.Payment.{Rejection, process_balance_payment, process_balance_refund, ignored}

pub data DeploymentError : Type 0 where
  config_error : Message → DeploymentError
  payment_error : PaymentError → DeploymentError
  module_not_found : StrategyType → DeploymentError
  canister_creation_failed : Message → DeploymentError
  code_installation_failed : Message → DeploymentError
  initialization_failed : Message → DeploymentError
  metadata_error : Message → DeploymentError
  record_not_found : Message → DeploymentError
  system_error : Message → DeploymentError

-- `DeploymentError::to_string`
unfoldable pub to_string : DeploymentError → Message
to_string (config_error m) = of_message "Configuration error: {}" m
to_string (payment_error e) = of_payment "Payment error: {:?}" e
to_string (module_not_found t) = of_type "{:?} strategy WASM module not found" t
to_string (canister_creation_failed m) = of_message "Canister creation failed: {}" m
to_string (code_installation_failed m) = of_message "Code installation failed: {}" m
to_string (initialization_failed m) = of_message "Strategy initialization failed: {}" m
to_string (metadata_error m) = of_message "Metadata error: {}" m
to_string (record_not_found m) = of_message "Record not found: {}" m
to_string (system_error m) = of_message "System error: {}" m

pub data DeploymentResult : Type 0 where
  success : Principal → DeploymentResult
  failure : Message → DeploymentResult

-- An execution that awaits a reply, with the local variables that it still needs.
pub data Stage : Type 0 where
  creating : DeploymentId → DeploymentRecord → Stage
  installing : DeploymentId → DeploymentRecord → Principal → Stage
  initializing : DeploymentId → DeploymentRecord → Principal → StrategyConfig → Stage

pub data Progress : Type 0 where
  waiting : Stage → Progress
  finished : DeploymentResult → Progress

abbrev pub creation_cycles : ℕ
creation_cycles = 100000000000

abbrev pub call_failed : Rejection → Message
call_failed r = of_rejection "Error code: {:?}, message: {}" r.code r.message

unfoldable pub handle_deployment_failure :
    Call → DeploymentId → Option Principal → Message → FactoryAction DeploymentResult
unfolding get_deployment_record
handle_deployment_failure c id canister_id error_message = do
  with_err (of_message "Failed to update deployment status: {}")
      (update_deployment_status c id deployment_failed canister_id (some error_message))
  found ← gets (get_deployment_record id)
  elim found [
    | none ↦ fail (of_id "Deployment record not found for ID: {}" id)
    | some r ↦
        ignored (process_balance_refund c r.owner r.fee_amount id) >> pure (failure error_message)
  ]

abbrev pub stop_with :
    Call → DeploymentId → Option Principal → DeploymentError → FactoryAction Progress
stop_with c id canister_id e = do
  r ← handle_deployment_failure c id canister_id (to_string e)
  pure (finished r)

abbrev pub advance : Call → DeploymentId → DeploymentStatus → Principal → FactoryAction (Unit {0})
advance c id status cid =
    with_err (λ m. to_string (system_error m))
      (update_deployment_status c id status (some cid) none)

abbrev pub short_of_cycles : Call → DeploymentError
short_of_cycles c = canister_creation_failed (
    of_nums
      "Factory canister balance insufficient to create new canister. Current balance: {} cycles, required: {} cycles"
      c.cycles creation_cycles)

abbrev pub initializer_failed : Rejection → DeploymentError
initializer_failed e =
    initialization_failed
      (of_rejection "Failed to initialize strategy: code={:?}, message={}" e.code e.message)

-- Up to the call of `create_canister`.
unfoldable pub start_deployment : Call → DeploymentId → FactoryAction Progress
unfolding get_deployment_record to_string
start_deployment c id = do
  found ← gets (get_deployment_record id)
  elim found [
    | none ↦ fail (to_string (record_not_found (of_id "Deployment record not found for ID: {}" id)))
    | some r ↦
        if ltb c.cycles creation_cycles
        then stop_with c id none (short_of_cycles c)
        else pure (waiting (creating id r))
  ]

-- From the reply of `create_canister` to the call of `install_code`. Every strategy type has an
-- embedded module, but only the self-hedging one is a real module.
unfoldable pub resume_creating :
    Call → DeploymentId → DeploymentRecord → Result Rejection Principal → FactoryAction Progress
unfolding to_string
resume_creating c id r (err e) = stop_with c id none (canister_creation_failed (call_failed e))
resume_creating c id r (ok cid) = do
  advance c id canister_created cid
  (if not (r.strategy_type == self_hedging)
      then stop_with c id (some cid) (module_not_found r.strategy_type)
      else pure (waiting (installing id r cid)))

module _ (codec : Codec) where
  -- From the reply of `install_code` to the call of the strategy's initialiser.
  unfoldable pub resume_installing :
      Call
      → DeploymentId
      → DeploymentRecord
      → Principal
      → Result Rejection (Unit {0})
      → FactoryAction Progress
  unfolding to_string
  resume_installing c id r cid (err e) =
      stop_with c id (some cid) (code_installation_failed (call_failed e))
  resume_installing c id r cid (ok _) = do
    advance c id code_installed cid
    elim (decode_config codec r.strategy_type r.config_data) [
      | err m ↦ stop_with c id (some cid) (initialization_failed m)
      | ok config ↦ pure (waiting (initializing id r cid config))
    ]

  -- From the reply of the initialiser to the end.
  unfoldable pub resume_initializing :
      Call
      → DeploymentId
      → DeploymentRecord
      → Principal
      → Result Rejection (Unit {0})
      → FactoryAction Progress
  unfolding to_string
  resume_initializing c id r cid (err e) = stop_with c id (some cid) (initializer_failed e)
  resume_initializing c id r cid (ok _) = do
    advance c id initialized cid
    elim (create_strategy_metadata codec c r cid) [
      | err m ↦ stop_with c id (some cid) (metadata_error m)
      | ok metadata ↦
          modify (store_strategy_metadata metadata)
          >> advance c id deployed cid
          >> pure (finished (success cid))
    ]

  -- `create_deployment_record`
  unfoldable pub create_deployment_record :
      Call → DeploymentId → Principal → ℕ → StrategyConfig → Result DeploymentError DeploymentRecord
  create_deployment_record c id owner fee config = elim (codec.encode config) [
    | err m ↦ err (config_error (of_message "Failed to serialize config: {}" m))
    | ok bytes ↦ ok (record {
      deployment_id = id;
      strategy_type = get_strategy_type config;
      owner = owner;
      fee_amount = fee;
      request_time = c.time;
      status = payment_received;
      canister_id = none;
      config_data = bytes;
      error_message = none;
      last_updated = c.time;
    })
  ]

  -- `create_strategy_request`, up to the `spawn` of the execution of the id that it returns.
  unfoldable pub create_strategy_request : Call → StrategyConfig → FactoryAction DeploymentRequest
  unfolding to_string create_deployment_record generate_deployment_id
  create_strategy_request c config = do
    fee ← gets (λ s. s.deployment_fee)
    from_result (map_err (λ e. to_string (config_error (of_config "{}" e))) (validate config))
    fail_if (not (get_strategy_type config == self_hedging))
        (to_string (module_not_found (get_strategy_type config)))
    with_err (λ e. to_string (payment_error e))
        (process_balance_payment c c.caller fee
          (of_type "Deployment fee for {:?} strategy" (get_strategy_type config)))
    id ← λ s. let (id, s') = generate_deployment_id c s in (ok id, s')
    r ← from_result (map_err to_string (create_deployment_record c id c.caller fee config))
    modify (store_deployment_record r)
    pure (record { deployment_id = id; fee_amount = fee; strategy_type = get_strategy_type config })

-- The replies to the three calls of one execution, each with the message in which it arrives.
pub record Replies : Type 0 where
  pub created : Result Rejection Principal
  pub created_call : Call
  pub installed : Result Rejection (Unit {0})
  pub installed_call : Call
  pub initialized_reply : Result Rejection (Unit {0})
  pub initialized_call : Call

-- What follows the reply that an execution awaits.
unfoldable pub resume : Codec → Replies → Progress → FactoryAction Progress
resume codec w (finished r) = pure (finished r)
resume codec w (waiting (creating id r)) = resume_creating w.created_call id r w.created
resume codec w (waiting (installing id r cid)) =
    resume_installing codec w.installed_call id r cid w.installed
resume codec w (waiting (initializing id r cid config)) =
    resume_initializing codec w.initialized_call id r cid w.initialized_reply

-- `execute_deployment` with no other message between its awaits.
unfoldable pub execute_deployment : Codec → Call → Replies → DeploymentId → FactoryAction Progress
execute_deployment codec c w id = do
  p ← start_deployment c id
  p' ← resume codec w p
  p'' ← resume codec w p'
  resume codec w p''

-- The spawned task's last step: an execution that ended in an error is refunded.
unfoldable pub after_execution :
    Call → DeploymentId → Result Message DeploymentResult → Factory → Factory
unfolding get_deployment_record
after_execution c id (ok _) s = s
after_execution c id (err _) s = elim (get_deployment_record id s) [
  | none ↦ s
  | some r ↦ (process_balance_refund c r.owner r.fee_amount id s).1
]
