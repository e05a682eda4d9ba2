-- ===== src/Hedging/Lifecycle/Invariant.antt =====
-- What every handler of the canister keeps true of its state.
use hunter_fi.Base.{ℕ, ◌≤◌, ◌≡◌, ◌≢◌, ◌⊎◌, inl, refl, Bool, Result, arith}
use hunter_fi.Common.Types.{Principal, anonymous, OrderSplitType, Float, strategy_status_eq}
use hunter_fi.Common.Config.{SelfHedgingConfig}
use hunter_fi.Factory.Types.{Call}
use hunter_fi.Hedging.State.{SelfHedgingState, Hedging, StrategyError, fresh}
use hunter_fi.Hedging.Lifecycle.{
  Unused, init_self_hedging, check_icpswap_balance, start_request, start_balances, start_approved,
  pause, stop, update_volume_config, update_config,
}
use hunter_fi.Hedging.Execution.{execute_begin, execute_balances, execute_finish}

-- A configured state: the size and the interval are positive, a token is held, and the copies of
-- the size and of the way of splitting agree with the configuration.
pub record IsConfigured (d : SelfHedgingState) : Type 0 where
  pub size_positive : 1 ≤ d.config.transaction_size
  pub interval_positive : 1 ≤ d.config.check_interval_secs
  pub holds_token : d.config.hold_token ≢ anonymous
  pub same_size : d.transaction_size ≡ d.config.transaction_size
  pub same_split : d.order_split_type ≡ d.config.order_split_type

-- Nobody owns the canister, or it is configured.
abbrev pub IsSound : Hedging → Type 0
IsSound s = (s.cell.owner ≡ anonymous) ⊎ IsConfigured s.cell

-- Two states with one owner and one configuration.
record HasSetupOf (d e : SelfHedgingState) : Type 0 where
  same_owner : d.owner ≡ e.owner
  same_config : d.config ≡ e.config
  same_transaction_size : d.transaction_size ≡ e.transaction_size
  same_order_split_type : d.order_split_type ≡ e.order_split_type

module _ (fits : SelfHedgingState → Bool) where
  check_icpswap_balance-HasSetupOf :
      (c : Call) (reply : Result StrategyError Unused) (s : Hedging)
      → HasSetupOf (check_icpswap_balance fits c reply s).1.cell s.cell
  unfolding check_icpswap_balance
  check_icpswap_balance-HasSetupOf c reply s = ground arith

  pause-HasSetupOf : (c : Call) (s : Hedging) → HasSetupOf (pause fits c s).1.cell s.cell
  unfolding pause
  pause-HasSetupOf c s = ground arith

  execute_balances-HasSetupOf :
      (c : Call) (d : SelfHedgingState) (reply : Result StrategyError Unused) (s : Hedging)
      → HasSetupOf (execute_balances fits c d reply s).1.cell s.cell
  unfolding execute_balances
  execute_balances-HasSetupOf c d reply s =
      let checked = (check_icpswap_balance fits c reply s).1 in
      ground (arith, check_icpswap_balance-HasSetupOf c reply s, pause-HasSetupOf c checked)

  -- One message of the canister, or the part of one up to the next await. The arguments are
  -- those of the message, the replies that arrive and what the message has read before.
  pub data Step : Hedging → Hedging → Type 0 where
    by_init :
        (owner : Principal) (config : SelfHedgingConfig) (s : Hedging)
        → Step s (init_self_hedging fits owner config s).1
    by_start_request : (c : Call) (s : Hedging) → Step s (start_request c s).1
    by_start_balances :
        (c : Call) (reply : Result StrategyError Unused) (s : Hedging)
        → Step s (start_balances fits c reply s).1
    by_start_approved :
        (d : SelfHedgingState) (reply : Result StrategyError (Unit {0})) (s : Hedging)
        → Step s (start_approved fits d reply s).1
    by_pause : (c : Call) (s : Hedging) → Step s (pause fits c s).1
    by_stop : (c : Call) (s : Hedging) → Step s (stop fits c s).1
    by_update_volume_config :
        (c : Call) (size : ℕ) (split_type : OrderSplitType) (s : Hedging)
        → Step s (update_volume_config fits c size split_type s).1
    by_update_config :
        (c : Call) (size : ℕ) (split_type : OrderSplitType) (interval : ℕ) (slippage : Float)
        (hold : Principal) (s : Hedging)
        → Step s (update_config fits c size split_type interval slippage hold s).1
    by_refresh :
        (c : Call) (reply : Result StrategyError Unused) (s : Hedging)
        → Step s (check_icpswap_balance fits c reply s).1
    by_execute_begin : (c : Call) (s : Hedging) → Step s (execute_begin c s).1
    by_execute_balances :
        (c : Call) (d : SelfHedgingState) (reply : Result StrategyError Unused) (s : Hedging)
        → Step s (execute_balances fits c d reply s).1
    by_execute_finish :
        (c : Call) (outcome : Result StrategyError ℕ) (s : Hedging)
        → Step s (execute_finish fits c outcome s).1

  keeps-IsSound : (s t : Hedging) → HasSetupOf t.cell s.cell → IsSound s → IsSound t
  keeps-IsSound s t same h = ground (arith, same)

  init_self_hedging-IsSound :
      (owner : Principal) (config : SelfHedgingConfig) (s : Hedging)
      → IsSound s
      → IsSound (init_self_hedging fits owner config s).1
  unfolding init_self_hedging
  init_self_hedging-IsSound owner config s h = ground arith

  update_volume_config-IsSound :
      (c : Call) (size : ℕ) (split_type : OrderSplitType) (s : Hedging)
      → IsSound s
      → IsSound (update_volume_config fits c size split_type s).1
  unfolding update_volume_config
  update_volume_config-IsSound c size split_type s h = ground arith

  update_config-IsSound :
      (c : Call) (size : ℕ) (split_type : OrderSplitType) (interval : ℕ) (slippage : Float)
      (hold : Principal) (s : Hedging)
      → IsSound s
      → IsSound (update_config fits c size split_type interval slippage hold s).1
  unfolding update_config
  update_config-IsSound c size split_type interval slippage hold s h = ground arith

  start_request-HasSetupOf : (c : Call) (s : Hedging) → HasSetupOf (start_request c s).1.cell s.cell
  unfolding start_request
  start_request-HasSetupOf c s = ground arith

  start_balances-HasSetupOf :
      (c : Call) (reply : Result StrategyError Unused) (s : Hedging)
      → HasSetupOf (start_balances fits c reply s).1.cell s.cell
  unfolding start_balances
  start_balances-HasSetupOf c reply s = ground (arith, check_icpswap_balance-HasSetupOf c reply s)

  start_approved-HasSetupOf :
      (d : SelfHedgingState) (reply : Result StrategyError (Unit {0})) (s : Hedging)
      → HasSetupOf (start_approved fits d reply s).1.cell s.cell
  unfolding start_approved
  start_approved-HasSetupOf d reply s = ground arith

  stop-HasSetupOf : (c : Call) (s : Hedging) → HasSetupOf (stop fits c s).1.cell s.cell
  unfolding stop
  stop-HasSetupOf c s = ground arith

  execute_begin-HasSetupOf : (c : Call) (s : Hedging) → HasSetupOf (execute_begin c s).1.cell s.cell
  unfolding execute_begin
  execute_begin-HasSetupOf c s = ground arith

  execute_finish-HasSetupOf :
      (c : Call) (outcome : Result StrategyError ℕ) (s : Hedging)
      → HasSetupOf (execute_finish fits c outcome s).1.cell s.cell
  unfolding execute_finish
  execute_finish-HasSetupOf c outcome s = ground arith

  -- Every step keeps the canister sound, whatever the arguments of the message, the replies and
  -- the state that the message read before.
  pub Step-IsSound : (s t : Hedging) → Step s t → IsSound s → IsSound t
  Step-IsSound s t (by_init owner config _) h = init_self_hedging-IsSound owner config s h
  Step-IsSound s t (by_start_request c _) h = keeps-IsSound s t (start_request-HasSetupOf c s) h
  Step-IsSound s t (by_start_balances c reply _) h =
      keeps-IsSound s t (start_balances-HasSetupOf c reply s) h
  Step-IsSound s t (by_start_approved d reply _) h =
      keeps-IsSound s t (start_approved-HasSetupOf d reply s) h
  Step-IsSound s t (by_pause c _) h = keeps-IsSound s t (pause-HasSetupOf c s) h
  Step-IsSound s t (by_stop c _) h = keeps-IsSound s t (stop-HasSetupOf c s) h
  Step-IsSound s t (by_update_volume_config c size split_type _) h =
      update_volume_config-IsSound c size split_type s h
  Step-IsSound s t (by_update_config c size split_type interval slippage hold _) h =
      update_config-IsSound c size split_type interval slippage hold s h
  Step-IsSound s t (by_refresh c reply _) h =
      keeps-IsSound s t (check_icpswap_balance-HasSetupOf c reply s) h
  Step-IsSound s t (by_execute_begin c _) h = keeps-IsSound s t (execute_begin-HasSetupOf c s) h
  Step-IsSound s t (by_execute_balances c d reply _) h =
      keeps-IsSound s t (execute_balances-HasSetupOf c d reply s) h
  Step-IsSound s t (by_execute_finish c outcome _) h =
      keeps-IsSound s t (execute_finish-HasSetupOf c outcome s) h

  -- A sequence of steps.
  pub data Steps : Hedging → Hedging → Type 0 where
    stay : (s : Hedging) → Steps s s
    then_step : (s t u : Hedging) → Steps s t → Step t u → Steps s u

  Steps-IsSound : (s t : Hedging) → Steps s t → IsSound s → IsSound t
  Steps-IsSound s t (stay _) h = h
  Steps-IsSound s u (then_step _ t _ run step) h = Step-IsSound t u step (Steps-IsSound s t run h)

  -- Whatever messages have reached a canister since its code was installed, and however their
  -- parts interleave: nobody owns it, or its transaction size and interval are positive, it holds
  -- a token, and the state's copies of the size and of the way of splitting are those of the
  -- configuration.
  pub reachable-IsSound : (t : Hedging) → Steps fresh t → IsSound t
  reachable-IsSound t run = Steps-IsSound fresh t run (inl refl)

  init_owned :
      (owner : Principal) (config : SelfHedgingConfig) (s : Hedging)
      → s.cell.owner ≢ anonymous
      → (init_self_hedging fits owner config s).1.cell.owner ≡ s.cell.owner
  unfolding init_self_hedging
  init_owned owner config s h = ground arith

  update_volume_config-owner :
      (c : Call) (size : ℕ) (split_type : OrderSplitType) (s : Hedging)
      → (update_volume_config fits c size split_type s).1.cell.owner ≡ s.cell.owner
  unfolding update_volume_config
  update_volume_config-owner c size split_type s = ground arith

  update_config-owner :
      (c : Call) (size : ℕ) (split_type : OrderSplitType) (interval : ℕ) (slippage : Float)
      (hold : Principal) (s : Hedging)
      → (update_config fits c size split_type interval slippage hold s).1.cell.owner ≡ s.cell.owner
  unfolding update_config
  update_config-owner c size split_type interval slippage hold s = ground arith

  -- No step changes the owner of a canister that has one.
  pub Step-owner :
      (s t : Hedging) → Step s t → s.cell.owner ≢ anonymous → t.cell.owner ≡ s.cell.owner
  Step-owner s t (by_init owner config _) h = init_owned owner config s h
  Step-owner s t (by_start_request c _) h = (start_request-HasSetupOf c s).same_owner
  Step-owner s t (by_start_balances c reply _) h = (start_balances-HasSetupOf c reply s).same_owner
  Step-owner s t (by_start_approved d reply _) h = (start_approved-HasSetupOf d reply s).same_owner
  Step-owner s t (by_pause c _) h = (pause-HasSetupOf c s).same_owner
  Step-owner s t (by_stop c _) h = (stop-HasSetupOf c s).same_owner
  Step-owner s t (by_update_volume_config c size split_type _) h =
      update_volume_config-owner c size split_type s
  Step-owner s t (by_update_config c size split_type interval slippage hold _) h =
      update_config-owner c size split_type interval slippage hold s
  Step-owner s t (by_refresh c reply _) h = (check_icpswap_balance-HasSetupOf c reply s).same_owner
  Step-owner s t (by_execute_begin c _) h = (execute_begin-HasSetupOf c s).same_owner
  Step-owner s t (by_execute_balances c d reply _) h =
      (execute_balances-HasSetupOf c d reply s).same_owner
  Step-owner s t (by_execute_finish c outcome _) h =
      (execute_finish-HasSetupOf c outcome s).same_owner
