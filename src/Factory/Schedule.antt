-- ===== src/Factory/Schedule.antt =====
-- The cleanup timer of src/factory/src/timer.rs: its registry, its schedule, and the task manager
-- that runs the cleanup. A timer of the runtime is its number; the runtime's one-shot timers that
-- have not fired yet are the list `pending`.
pub mod Single
use hunter_fi.Base.{
  ℕ, ◌+◌, ◌==◌, nat_eq, Bool, true, false, not, Option, none, some, List, [], ◌∷◌, keep, String,
  leb, if◌then◌else◌, Result, ok, err, pure, modify, ◌>>=◌, ◌>>◌,
}
use hunter_fi.Factory.Types.{Message, plain, of_num, of_message, Call, Factory}
use hunter_fi.Factory.State.{FactoryAction, require_admin}
use hunter_fi.Factory.Archive.{should_archive_records, archive_old_deployment_records}
use hunter_fi.Factory.Timer.{process_failed_deployments}
use hunter_fi.Factory.Retry.{TimerState, max_retry_count}

pub record TimerTaskManager : Type 0 where
  pub max_retries : ℕ  -- u32
  pub retry_interval : ℕ  -- in seconds
  pub cleanup_interval : ℕ

abbrev pub new_manager : TimerTaskManager
new_manager = record {
  max_retries = max_retry_count;
  retry_interval = 3600;
  cleanup_interval = 86400;
}

pub data TaskError : Type 0 where
  retry_needed : String → TaskError
  task_failed : ℕ → Message → TaskError

-- The method `execute_with_retry`, for the result of the task. Each branch of its loop returns, so
-- the task runs once.
unfoldable pub execute_task :
    TimerTaskManager → String → Result Message ℕ → TimerState → Result TaskError ℕ × TimerState
execute_task manager name (ok count) t = (ok count, record { retry_counter = 0; last_error = none })
execute_task manager name (err e) t =
    if leb 1 manager.max_retries
    then (err (retry_needed name), record { retry_counter = 1; last_error = some e })
    else (err (task_failed manager.max_retries e), record t { last_error = some e })

-- The registry of the cleanup timer, with the counters of retries.
pub record Schedule : Type 0 where
  pub cleanup_timer : Option ℕ
  pub counters : TimerState
  pub pending : List ℕ

-- `schedule_cleanup`, where the runtime gives the new timer the number `timer`.
unfoldable pub schedule_cleanup : ℕ → Schedule → Schedule
schedule_cleanup timer s = record s { cleanup_timer = some timer; pending = timer ∷ s.pending }

unfoldable pub schedule_timers : ℕ → Schedule → Schedule
unfolding schedule_cleanup
schedule_timers timer s =
    schedule_cleanup timer
      (record s { counters = record { retry_counter = 0; last_error = s.counters.last_error } })

abbrev pub dropped : ℕ → List ℕ → List ℕ
dropped timer timers = keep (λ x. not (x == timer)) timers

unfoldable pub cancel_timers : Schedule → Schedule
cancel_timers s = elim s.cleanup_timer [
  | none ↦ s
  | some timer ↦ record s { cleanup_timer = none; pending = dropped timer s.pending }
]

unfoldable pub reset_timers : ℕ → Schedule → Schedule
unfolding cancel_timers schedule_timers
reset_timers timer s = schedule_timers timer (cancel_timers s)

-- The entry point `reset_system_timers` of api.rs.
unfoldable pub reset_system_timers :
    Call → ℕ → Factory → Schedule → Result Message (Unit {0}) × Schedule
unfolding reset_timers
reset_system_timers c timer f s = elim (require_admin c f).0 [
  | err e ↦ (err e, s)
  | ok _ ↦ (ok tt, reset_timers timer s)
]

-- `execute_cleanup_tasks` with the counters.
unfoldable pub counted_cleanup_tasks : Call → Factory → TimerState → Factory × TimerState
unfolding execute_task
counted_cleanup_tasks c f t =
    if should_archive_records f
    then (let (n, archived) = archive_old_deployment_records c f in
        (
          (process_failed_deployments c archived).1,
          (execute_task new_manager "record_archiving" (ok n) t).1,
        ))
    else ((process_failed_deployments c f).1, t)

-- The timer `fired` of the runtime, which is pending no more: the cleanup, then `timer` is scheduled.
unfoldable pub fire : Call → ℕ → ℕ → Factory × Schedule → Factory × Schedule
unfolding counted_cleanup_tasks schedule_cleanup
fire c fired timer (f, s) =
    let (f', counters) = counted_cleanup_tasks c f s.counters in
    (
      f',
      schedule_cleanup timer (record s { counters = counters; pending = dropped fired s.pending }),
    )

pub record TimerStatus : Type 0 where
  pub active : Bool
  pub retry_count : ℕ
  pub last_error : Message

-- `get_timer_status`, as the values that it prints.
unfoldable pub get_timer_status : Schedule → TimerStatus
get_timer_status s = record {
  active = elim s.cleanup_timer [ none ↦ false | some _ ↦ true ];
  retry_count = s.counters.retry_counter;
  last_error = elim s.counters.last_error [ none ↦ plain "none" | some e ↦ e ];
}
