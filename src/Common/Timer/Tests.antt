-- ===== src/Common/Timer/Tests.antt =====
-- The registry of timers at concrete timers, with numbers for names.
use hunter_fi.Base.{ℕ, ◌≡◌, refl, true, none, some, [], ◌∷◌, nat_eq}
use hunter_fi.Base.Dict.{lookup}
use hunter_fi.Common.Timer.{Timers, TimerConfig, set_timer}
use hunter_fi.Common.Timer.Replacement.{set_timer-replaces}

-- Two timers, 60 and 61, under the names 1 and 2.
abbrev two_timers : Timers ℕ
two_timers = record {
  timers = (1, 60) ∷ (2, 61) ∷ [];
  last_execution = (1, 5000000000) ∷ [];
  running = (60, 300) ∷ (61, 900) ∷ [];
}

abbrev every_minute : TimerConfig ℕ
every_minute = record { id = 1; interval_seconds = 60; enabled = true }

set_timer-replaces_example :
    (lookup 1 (set_timer 9000000000 62 every_minute two_timers).timers ≡ some 62)
    × (lookup 62 (set_timer 9000000000 62 every_minute two_timers).running ≡ some 60)
    × (lookup 1 (set_timer 9000000000 62 every_minute two_timers).last_execution ≡ some 9000000000)
    × (lookup 60 (set_timer 9000000000 62 every_minute two_timers).running ≡ none)
unfolding lookup nat_eq
set_timer-replaces_example =
    set_timer-replaces 9000000000 62 60 every_minute two_timers refl refl refl (refl, (refl, tt))
