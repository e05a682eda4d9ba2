-- ===== src/Factory/Schedule/Single.antt =====
-- At most one cleanup timer is pending.
use hunter_fi.Base.{ℕ, nat_eq, Option, none, some, List, [], ◌∷◌, ◌≡◌, arith, true, contains}
use hunter_fi.Factory.Types.{Call, Factory}
use hunter_fi.Factory.State.{require_admin}
use hunter_fi.Factory.Schedule.{
  Schedule, schedule_cleanup, schedule_timers, cancel_timers, reset_timers, reset_system_timers,
  fire,
}

-- The registered timer is the only one that is pending.
abbrev pub only : Option ℕ → List ℕ
only none = []
only (some timer) = timer ∷ []

abbrev pub IsSingle : Schedule → Type 0
IsSingle s = s.pending ≡ only s.cleanup_timer

-- A message resets the timers, or a pending timer fires. The runtime numbers the new timer.
pub data ScheduleStep : Schedule → Schedule → Type 0 where
  reset :
      (c : Call) (timer : ℕ) (f : Factory) (s : Schedule)
      → ScheduleStep s (reset_system_timers c timer f s).1
  fired :
      (c : Call) (old timer : ℕ) (f : Factory) (s : Schedule)
      → contains s.pending old ≡ true
      → ScheduleStep s (fire c old timer (f, s)).1

cancel_timers-pending : (s : Schedule) → IsSingle s → (cancel_timers s).pending ≡ []
unfolding cancel_timers
cancel_timers-pending s h = ground arith

reset_system_timers-IsSingle :
    (c : Call) (timer : ℕ) (f : Factory) (s : Schedule)
    → IsSingle s
    → IsSingle (reset_system_timers c timer f s).1
unfolding reset_system_timers reset_timers schedule_timers schedule_cleanup require_admin
reset_system_timers-IsSingle c timer f s h = ground (arith, cancel_timers-pending s h)

fire-IsSingle :
    (c : Call) (old timer : ℕ) (f : Factory) (s : Schedule)
    → contains s.pending old ≡ true
    → IsSingle s
    → IsSingle (fire c old timer (f, s)).1
unfolding fire schedule_cleanup
fire-IsSingle c old timer f s member h = ground arith

pub data ScheduleSteps : Schedule → Schedule → Type 0 where
  stay : (s : Schedule) → ScheduleSteps s s
  then_step : (s t u : Schedule) → ScheduleSteps s t → ScheduleStep t u → ScheduleSteps s u

-- However often messages reset the timers, refused or not, and pending timers fire: if the
-- registered cleanup timer was the only one that is pending, it still is.
pub ScheduleSteps-IsSingle : (s t : Schedule) → ScheduleSteps s t → IsSingle s → IsSingle t
ScheduleSteps-IsSingle s t (stay _) h = h
ScheduleSteps-IsSingle s u (then_step _ _ _ run (reset c timer f t)) h =
    reset_system_timers-IsSingle c timer f t (ScheduleSteps-IsSingle s t run h)
ScheduleSteps-IsSingle s u (then_step _ _ _ run (fired c old timer f t member)) h =
    fire-IsSingle c old timer f t member (ScheduleSteps-IsSingle s t run h)
