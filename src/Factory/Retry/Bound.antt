-- ===== src/Factory/Retry/Bound.antt =====
-- A task is run at most once more than the limit of retries, and the runs end.
use hunter_fi.Base.{
  ℕ, zero, suc, ◌+◌, ◌≤◌, ◌<◌, ◌≡◌, ◌⊎◌, inl, inr, refl, none, some, leb, Result, arith,
  Result-cases, Bool-cases,
}
use hunter_fi.Factory.Types.{Message}
use hunter_fi.Factory.Retry.{TimerState, execute_with_retry}

module _ (task : ℕ → Result Message ℕ) (max_retries : ℕ) where
  -- With fuel for every retry that is left, from a run within the limit on: the runs end, after
  -- one run more than the limit at most, and if after fewer, the counter of retries is cleared.
  pub execute_with_retry_total :
      (f current : ℕ) (t : TimerState)
      → current ≤ max_retries
      → max_retries < current + f
      → (u : TimerState) × (n : ℕ) × (execute_with_retry task max_retries f current t ≡ some (u, n))
        × (current < n)
        × (n ≤ max_retries + 1)
        × ((u.retry_counter ≡ 0) ⊎ (n ≡ max_retries + 1))
  unfolding execute_with_retry
  execute_with_retry_total zero current t h fuel = absurd (omega arith)
  execute_with_retry_total (suc f) current t h fuel = elim (Result-cases (task current)) [
    | inl (count, fine) ↦ (
      record { retry_counter = 0; last_error = none },
      current + 1,
      ground arith,
      omega arith,
      omega arith,
      inl refl,
    )
    | inr (e, failed) ↦ elim (Bool-cases (leb (current + 1) max_retries)) [
      | inl again ↦
          let rest =
            execute_with_retry_total f (current + 1)
              (record { retry_counter = current + 1; last_error = some e }) (ground arith)
              (omega arith) in
          (rest.0, rest.1, ground (arith, rest.2), omega (arith, rest.3), rest.4, rest.5)
      | inr last ↦ (
        record { retry_counter = current + 1; last_error = some e },
        current + 1,
        ground arith,
        omega arith,
        omega arith,
        inr (ground arith),
      )
    ]
  ]
