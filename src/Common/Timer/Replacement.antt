-- ===== src/Common/Timer/Replacement.antt =====
-- Setting a timer again replaces it.
use hunter_fi.Base.{ℕ, ◌≡◌, true, false, none, some, Eq, arith, ◌==◌, nat_eq}
use hunter_fi.Base.Dict.{NodupKeys, lookup, lookup-insert, lookup-insert_self, lookup-erase_self}
use hunter_fi.Common.Timer.{Timers, TimerConfig, clear_timer, set_timer, update_last_execution}

module _ {K : Type 0} ⦃e : Eq K⦄ where
  cleared-running :
      (timer_id : K) (old : ℕ) (s : Timers K)
      → lookup timer_id s.timers ≡ some old
      → NodupKeys s.running
      → lookup old (clear_timer timer_id s).running ≡ none
  unfolding clear_timer
  cleared-running timer_id old s h u = ground (arith, lookup-erase_self old s.running u)

  -- With unique numbers of the runtime's timers: setting an enabled timer under a name that has one
  -- registers the new timer, which runs at its interval, stamps the name with the time, and stops the
  -- old one, if the runtime gives the new one another number.
  pub set_timer-replaces :
      (now timer old : ℕ) (config : TimerConfig K) (s : Timers K)
      → config.enabled ≡ true
      → lookup config.id s.timers ≡ some old
      → (old == timer) ≡ false
      → NodupKeys s.running
      → (lookup config.id (set_timer now timer config s).timers ≡ some timer)
        × (lookup timer (set_timer now timer config s).running ≡ some config.interval_seconds)
        × (lookup config.id (set_timer now timer config s).last_execution ≡ some now)
        × (lookup old (set_timer now timer config s).running ≡ none)
  unfolding set_timer update_last_execution
  set_timer-replaces now timer old config s on h fresh u = ground (
    arith,
    lookup-insert_self config.id timer (clear_timer config.id s).timers,
    lookup-insert_self timer config.interval_seconds (clear_timer config.id s).running,
    lookup-insert_self config.id now (clear_timer config.id s).last_execution,
    lookup-insert old timer config.interval_seconds (clear_timer config.id s).running,
    cleared-running config.id old s h u,
  )
