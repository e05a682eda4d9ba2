-- ===== src/Common/Timer.antt =====
-- src/strategy_common/src/timer.rs: named timers. A name is only compared, so it is of any type with
-- an equality. A timer of the runtime is its number; the runtime's own periodic timers are the list
-- `running`, with their intervals in seconds. Arithmetic on `u64` wraps.
pub mod Clock
pub mod Replacement
mod Tests
use hunter_fi.Base.{
  nat_eq, ℕ, ◌+◌, ◌-◌, ◌*◌, ◌/◌, ◌%◌, Bool, true, false, Option, none, some, List, [], ◌∷◌, ltb,
  leb, if◌then◌else◌, Eq, keep, not, eqb,
}
use hunter_fi.Base.Dict.{Dict, lookup, insert, erase}
use hunter_fi.Base.Words.{u64_mod}

pub record TimerConfig (K : Type 0) : Type 0 where
  pub id : K
  pub interval_seconds : ℕ  -- u64
  pub enabled : Bool

pub record Timers (K : Type 0) : Type 0 where
  pub timers : Dict K ℕ
  pub last_execution : Dict K ℕ  -- u64, in nanoseconds
  pub running : Dict ℕ ℕ

-- `a - b` and `s * 1_000_000_000` on `u64`
abbrev pub wrapping_sub : ℕ → ℕ → ℕ
wrapping_sub a b = (a + (u64_mod - b)) % u64_mod

abbrev pub to_ns : ℕ → ℕ
to_ns seconds = seconds * 1000000000 % u64_mod

abbrev pub or_zero : Option ℕ → ℕ
or_zero none = 0
or_zero (some n) = n

module _ {K : Type 0} ⦃e : Eq K⦄ where
  abbrev removed : Option ℕ → Timers K → Timers K
  removed none s = s
  removed (some timer) s = record s { running = erase timer s.running }

  unfoldable pub clear_timer : K → Timers K → Timers K
  unfolding erase lookup nat_eq
  clear_timer timer_id s =
      removed (lookup timer_id s.timers) (record s { timers = erase timer_id s.timers })

  unfoldable pub update_last_execution : ℕ → K → Timers K → Timers K
  unfolding insert
  update_last_execution now timer_id s = record s {
    last_execution = insert timer_id now s.last_execution;
  }

  -- `set_timer` at the time `now`, where the runtime gives the new timer the number `timer`.
  unfoldable pub set_timer : ℕ → ℕ → TimerConfig K → Timers K → Timers K
  unfolding clear_timer update_last_execution insert nat_eq
  set_timer now timer config s =
      let cleared = clear_timer config.id s in
      if not config.enabled
      then cleared
      else (let stamped = update_last_execution now config.id cleared in
          record stamped {
            running = insert timer config.interval_seconds stamped.running;
            timers = insert config.id timer stamped.timers;
          })

  -- The time since the last execution of a timer, of one that has none since the epoch.
  unfoldable pub elapsed_ns : ℕ → K → Timers K → ℕ
  unfolding lookup
  elapsed_ns now timer_id s = wrapping_sub now (or_zero (lookup timer_id s.last_execution))

  unfoldable pub should_trigger : ℕ → K → ℕ → Timers K → Bool × Timers K
  unfolding elapsed_ns update_last_execution
  should_trigger now timer_id interval_seconds s =
      if leb (to_ns interval_seconds) (elapsed_ns now timer_id s)
      then (true, update_last_execution now timer_id s)
      else (false, s)

  unfoldable pub time_until_next_execution : ℕ → K → ℕ → Timers K → ℕ
  unfolding elapsed_ns
  time_until_next_execution now timer_id interval_seconds s =
      if leb (to_ns interval_seconds) (elapsed_ns now timer_id s)
      then 0
      else (to_ns interval_seconds - elapsed_ns now timer_id s) / 1000000000
