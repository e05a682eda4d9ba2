-- ===== src/Common/Timer/Clock.antt =====
-- When a timer is due.
use hunter_fi.Base.{ℕ, ◌+◌, ◌≤◌, ◌<◌, ◌≡◌, true, false, Eq, arith, ltb}
use hunter_fi.Base.Dict.{lookup-insert_self}
use hunter_fi.Base.Words.{u64_mod}
use hunter_fi.Common.Timer.{
  Timers, to_ns, should_trigger, time_until_next_execution, update_last_execution, elapsed_ns,
}

module _ {K : Type 0} ⦃e : Eq K⦄ where
  elapsed_after :
      (now : ℕ) (timer_id : K) (s : Timers K)
      → now < u64_mod
      → elapsed_ns now timer_id (update_last_execution now timer_id s) ≡ 0
  unfolding elapsed_ns update_last_execution
  elapsed_after now timer_id s h = ground (arith, lookup-insert_self timer_id now s.last_execution)

  -- A timer that fires does not fire again at the same time, if its interval in nanoseconds is
  -- positive as a `u64`.
  pub should_trigger_once :
      (now : ℕ) (timer_id : K) (interval : ℕ) (s : Timers K)
      → now < u64_mod
      → 1 ≤ to_ns interval
      → (should_trigger now timer_id interval s).0 ≡ true
      → (should_trigger now timer_id interval (should_trigger now timer_id interval s).1).0 ≡ false
  unfolding should_trigger
  should_trigger_once now timer_id interval s h p fired =
      ground (arith, elapsed_after now timer_id s h)

  -- The time until the next execution is 0 exactly when the timer would fire now or has less than a
  -- second left.
  pub time_until_next_execution-zero :
      (now : ℕ) (timer_id : K) (interval : ℕ) (s : Timers K)
      → ltb (time_until_next_execution now timer_id interval s) 1
        ≡ ltb (to_ns interval) (elapsed_ns now timer_id s + 1000000000)
  unfolding time_until_next_execution
  time_until_next_execution-zero now timer_id interval s = ground arith
