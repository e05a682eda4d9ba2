-- ===== src/Common/Cycles.antt =====
-- src/strategy_common/src/cycles.rs: the thresholds of the cycles balance, and the refill.
use hunter_fi.Base.{ℕ, Bool, Option, none, some, String, ltb, Result, ok, err}
use hunter_fi.Common.Types.{Principal}
use hunter_fi.Common.Calls.{Rejection}

pub record CyclesConfig : Type 0 where
  pub warning_threshold : ℕ  -- u64
  pub critical_threshold : ℕ  -- u64
  pub refill_amount : ℕ  -- u64
  pub refill_source : Option Principal

-- The thread-local cells of the module.
pub record Cycles : Type 0 where
  pub warning_threshold : ℕ  -- u64
  pub critical_threshold : ℕ  -- u64
  pub config : Option CyclesConfig

abbrev pub default_cycles : Cycles
default_cycles = record {
  warning_threshold = 500000000000;
  critical_threshold = 100000000000;
  config = none;
}

unfoldable pub init : CyclesConfig → Cycles → Cycles
init config s = record {
  warning_threshold = config.warning_threshold;
  critical_threshold = config.critical_threshold;
  config = some config;
}

-- For the balance `canister_balance()`.
unfoldable pub is_below_warning_threshold : ℕ → Cycles → Bool
is_below_warning_threshold balance s = ltb balance s.warning_threshold

unfoldable pub is_below_critical_threshold : ℕ → Cycles → Bool
is_below_critical_threshold balance s = ltb balance s.critical_threshold

pub data RefillError : Type 0 where
  request_failed : String → RefillError
  no_source not_initialized : RefillError

-- The call of `deposit_cycles`: the canister that gets the cycles, and how many. The canister that
-- calls pays them.
pub record CyclesDeposit : Type 0 where
  pub canister_id : Principal
  pub amount : ℕ

-- `request_cycles_refill` of the canister `self_id`, up to the call of `deposit_cycles`, and from its
-- reply on.
unfoldable pub refill_request : Principal → Cycles → Result RefillError CyclesDeposit
refill_request self_id s = elim s.config [
  | none ↦ err not_initialized
  | some config ↦ elim config.refill_source [
    | none ↦ err no_source
    | some source ↦ ok (record { canister_id = self_id; amount = config.refill_amount })
  ]
]

unfoldable pub refill_reply : Result Rejection (Unit {0}) → Result RefillError (Unit {0})
refill_reply (ok _) = ok tt
refill_reply (err r) = err (request_failed r.message)

pub record CyclesSummary : Type 0 where
  pub balance : ℕ  -- u64
  pub warning_threshold : ℕ  -- u64
  pub critical_threshold : ℕ  -- u64
  pub is_below_warning : Bool
  pub is_below_critical : Bool

-- `get_summary`, which always returns `Ok`.
unfoldable pub get_summary : ℕ → Cycles → CyclesSummary
get_summary balance s = record {
  balance = balance;
  warning_threshold = s.warning_threshold;
  critical_threshold = s.critical_threshold;
  is_below_warning = ltb balance s.warning_threshold;
  is_below_critical = ltb balance s.critical_threshold;
}
