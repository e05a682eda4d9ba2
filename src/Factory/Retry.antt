-- ===== src/Factory/Retry.antt =====
-- The free function `execute_with_retry` of src/factory/src/timer.rs: a task that fails is tried
-- again by a timer, until the limit of retries.
pub mod Bound
use hunter_fi.Base.{
  ℕ, zero, suc, ◌+◌, Option, none, some, Bool, true, false, leb, if◌then◌else◌, Result, ok, err,
}
use hunter_fi.Factory.Types.{Message}

abbrev pub max_retry_count : ℕ
max_retry_count = 5

-- The thread-local variables of the module.
pub record TimerState : Type 0 where
  pub retry_counter : ℕ  -- u32
  pub last_error : Option Message

-- One run of the task: the state after it, and the retry that it schedules, if any.
unfoldable pub attempt : ℕ → ℕ → Result Message ℕ → TimerState → TimerState × Option ℕ
attempt max_retries current (ok count) t = (record { retry_counter = 0; last_error = none }, none)
attempt max_retries current (err e) t = (
  record { retry_counter = current + 1; last_error = some e },
  if leb (current + 1) max_retries then some (current + 1) else none,
)

module _ (task : ℕ → Result Message ℕ) (max_retries : ℕ) where
  -- The runs of the task, the one with number `current` first: the state in the end, and how many
  -- runs there were. `none`: the fuel ran out.
  unfoldable pub execute_with_retry : ℕ → ℕ → TimerState → Option (TimerState × ℕ)
  unfolding attempt
  execute_with_retry zero current t = none
  execute_with_retry (suc f) current t =
      let (t', scheduled) = attempt max_retries current (task current) t in
      elim scheduled [ none ↦ some (t', current + 1) | some next ↦ execute_with_retry f next t' ]
