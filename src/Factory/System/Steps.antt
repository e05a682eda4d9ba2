-- ===== src/Factory/System/Steps.antt =====
-- Every sequence of messages: one step for each part of a handler that runs without an await.
use hunter_fi.Base.{ℕ, ◌≢◌, refl, nat_eq, Result, arith}
use hunter_fi.Base.Dict.{lookup}
use hunter_fi.Common.Types.{Principal, anonymous}
use hunter_fi.Common.Config.{StrategyConfig}
use hunter_fi.Common.Calls.{Rejection}
use hunter_fi.Factory.Types.{DeploymentId, DeploymentRecord, Message, Call, Factory}
use hunter_fi.Factory.State.{get_user_account, get_deployment_record}
use hunter_fi.Factory.Payment.{deposit_settle, withdraw_settle}
use hunter_fi.Factory.Deployment.{
  Codec, DeploymentResult, create_strategy_request, start_deployment, resume_creating,
  resume_installing, resume_initializing, after_execution,
}
use hunter_fi.Factory.Timer.{execute_cleanup_tasks}
use hunter_fi.Factory.Api.{
  empty_factory, init, add_admin, remove_admin, set_deployment_fee, adjust_balance,
}
use hunter_fi.Factory.System.Sound.{IsSound}
use hunter_fi.Factory.System.Handlers.{
  add_admin-Keeps, remove_admin-Keeps, set_deployment_fee-Keeps, adjust_balance-Keeps,
  deposit_settle-Keeps, withdraw_settle-Keeps,
}
use hunter_fi.Factory.System.Executions.{
  create_strategy_request-Keeps, start_deployment-Keeps, resume_creating-Keeps,
  resume_installing-Keeps, resume_initializing-Keeps, after_execution-IsSound,
}
use hunter_fi.Factory.System.Cleanup.{execute_cleanup_tasks-IsSound}

-- The installed factory, before any other message.
installed-IsSound : (c : Call) → c.caller ≢ anonymous → IsSound (init c empty_factory)
unfolding init get_user_account get_deployment_record lookup
installed-IsSound c named = record {
  owners = λ u. refl;
  ids = λ id r e. cc e;
  unique = tt;
  governed = record { distinct = (refl, tt); inhabited = omega arith; named = ground arith };
}

module _ (codec : Codec) where
  -- One part of one message, of those that write the state. What other canisters answered is an argument, so a sequence of steps
  -- is any interleaving of any messages with any answers.
  pub data Step : Factory → Factory → Type 0 where
    by_add_admin : (c : Call) (p : Principal) (s : Factory) → Step s (add_admin c p s).1
    by_remove_admin : (c : Call) (p : Principal) (s : Factory) → Step s (remove_admin c p s).1
    by_set_fee : (c : Call) (fee : ℕ) (s : Factory) → Step s (set_deployment_fee c fee s).1
    by_adjust_balance :
        (c : Call) (u : Principal) (x : ℕ) (reason : Message) (s : Factory)
        → Step s (adjust_balance c u x reason s).1
    by_deposit :
        (c : Call) (u : Principal) (x : ℕ) (reply : Result Rejection ℕ) (s : Factory)
        → Step s (deposit_settle c u x reply s).1
    by_withdrawal :
        (c : Call) (u : Principal) (x : ℕ) (reply : Result Rejection ℕ) (s : Factory)
        → Step s (withdraw_settle c u x reply s).1
    by_request :
        (c : Call) (config : StrategyConfig) (s : Factory)
        → Step s (create_strategy_request codec c config s).1
    by_start : (c : Call) (id : DeploymentId) (s : Factory) → Step s (start_deployment c id s).1
    by_creation :
        (c : Call) (id : DeploymentId) (r : DeploymentRecord) (reply : Result Rejection Principal)
        (s : Factory)
        → Step s (resume_creating c id r reply s).1
    by_installation :
        (c : Call) (id : DeploymentId) (r : DeploymentRecord) (cid : Principal)
        (reply : Result Rejection (Unit {0})) (s : Factory)
        → Step s (resume_installing codec c id r cid reply s).1
    by_initialization :
        (c : Call) (id : DeploymentId) (r : DeploymentRecord) (cid : Principal)
        (reply : Result Rejection (Unit {0})) (s : Factory)
        → Step s (resume_initializing codec c id r cid reply s).1
    by_refund :
        (c : Call) (id : DeploymentId) (r : Result Message DeploymentResult) (s : Factory)
        → Step s (after_execution c id r s)
    by_cleanup : (c : Call) (s : Factory) → Step s (execute_cleanup_tasks c s)

  Step-IsSound : (s t : Factory) → Step s t → IsSound s → IsSound t
  Step-IsSound s t (by_add_admin c p _) h = (add_admin-Keeps c p).keeps s h
  Step-IsSound s t (by_remove_admin c p _) h = (remove_admin-Keeps c p).keeps s h
  Step-IsSound s t (by_set_fee c fee _) h = (set_deployment_fee-Keeps c fee).keeps s h
  Step-IsSound s t (by_adjust_balance c u x reason _) h =
      (adjust_balance-Keeps c u x reason).keeps s h
  Step-IsSound s t (by_deposit c u x reply _) h = (deposit_settle-Keeps c u x reply).keeps s h
  Step-IsSound s t (by_withdrawal c u x reply _) h = (withdraw_settle-Keeps c u x reply).keeps s h
  Step-IsSound s t (by_request c config _) h =
      (create_strategy_request-Keeps codec c config).keeps s h
  Step-IsSound s t (by_start c id _) h = (start_deployment-Keeps c id).keeps s h
  Step-IsSound s t (by_creation c id r reply _) h = (resume_creating-Keeps c id r reply).keeps s h
  Step-IsSound s t (by_installation c id r cid reply _) h =
      (resume_installing-Keeps codec c id r cid reply).keeps s h
  Step-IsSound s t (by_initialization c id r cid reply _) h =
      (resume_initializing-Keeps codec c id r cid reply).keeps s h
  Step-IsSound s t (by_refund c id r _) h = after_execution-IsSound c id r s h
  Step-IsSound s t (by_cleanup c _) h = execute_cleanup_tasks-IsSound c s h

  -- A sequence of steps.
  pub data Steps : Factory → Factory → Type 0 where
    stay : (s : Factory) → Steps s s
    then_step : (s t u : Factory) → Steps s t → Step t u → Steps s u

  Steps-IsSound : (s t : Factory) → Steps s t → IsSound s → IsSound t
  Steps-IsSound s t (stay _) h = h
  Steps-IsSound s t (then_step _ m _ before last) h =
      Step-IsSound m t last (Steps-IsSound s m before h)

  -- Whatever messages have reached a factory that somebody other than the anonymous principal
  -- installed, with no upgrade, however their parts were interleaved and whatever other canisters answered: every
  -- account is stored under its owner, the deployment records have unique keys and are stored under
  -- their own ids, and the administrators form a set that is not empty and does not hold the
  -- anonymous principal.
  pub factory_reachable-IsSound :
      (c : Call) (t : Factory) → c.caller ≢ anonymous → Steps (init c empty_factory) t → IsSound t
  factory_reachable-IsSound c t named steps =
      Steps-IsSound (init c empty_factory) t steps (installed-IsSound c named)
