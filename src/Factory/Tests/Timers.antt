-- ===== src/Factory/Tests/Timers.antt =====
-- The cleanup timer at concrete messages.
use hunter_fi.Base.{nat_eq, refl, none, []}
use hunter_fi.Factory.Schedule.{
  Schedule, reset_system_timers, reset_timers, cancel_timers, schedule_timers, schedule_cleanup,
  fire,
}
use hunter_fi.Factory.Schedule.Single.{
  IsSingle, reset, fired, stay, then_step, ScheduleSteps-IsSingle,
}
use hunter_fi.Factory.State.{require_admin, is_admin}
use hunter_fi.Factory.Samples.{admin_call, factory}

abbrev unscheduled : Schedule
unscheduled = record {
  cleanup_timer = none;
  counters = record { retry_counter = 0; last_error = none };
  pending = [];
}

abbrev one_timer : Schedule
one_timer = (reset_system_timers admin_call 1 factory unscheduled).1

-- An administrator schedules timer 1, which fires and is followed by timer 2.
ScheduleSteps-IsSingle_example : IsSingle (fire admin_call 1 2 (factory, one_timer)).1
unfolding reset_system_timers reset_timers cancel_timers schedule_timers schedule_cleanup
    require_admin is_admin nat_eq
ScheduleSteps-IsSingle_example =
    ScheduleSteps-IsSingle unscheduled (fire admin_call 1 2 (factory, one_timer)).1
      (then_step unscheduled one_timer (fire admin_call 1 2 (factory, one_timer)).1
        (then_step unscheduled unscheduled one_timer (stay unscheduled)
          (reset admin_call 1 factory unscheduled))
        (fired admin_call 1 2 factory one_timer refl))
      refl
