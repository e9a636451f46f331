-- ===== src/Operator/Retry/Backoff.antt =====
-- internal/operator/retry/engine.go: the delay before a retry.
use summer_project.Prelude.{ℕ, suc, ◌*◌, ◌^◌, ◌<◌, ◌≡◌, ◌⊎◌, arith, if◌then◌else◌}
use summer_project.Prelude.Int.{ℤ, pos, ◌≤ℤ◌, ltb_ℤ}
use summer_project.Operator.Retry.{max_backoff, to_duration, calculate_backoff}

-- From the second retry on the delay is the base doubled for each attempt, or five minutes if that is
-- less, as long as the product fits an int64.
pub calculate_backoff_capped :
    (outside : ℤ) (n base : ℕ)
    → base * 2 ^ suc n < 2 ^ 63
    → (calculate_backoff outside (pos (suc n)) base ≤ℤ max_backoff)
      × ((calculate_backoff outside (pos (suc n)) base ≡ pos (base * 2 ^ suc n))
          ⊎ (calculate_backoff outside (pos (suc n)) base ≡ max_backoff))
unfolding calculate_backoff
calculate_backoff_capped outside n base fits = capped (base * 2 ^ suc n) fits
  where
    capped :
        (d : ℕ)
        → d < 2 ^ 63
        → ((if ltb_ℤ max_backoff (to_duration outside d)
              then max_backoff
              else to_duration outside d)
            ≤ℤ max_backoff)
          × (((if ltb_ℤ max_backoff (to_duration outside d)
                  then max_backoff
                  else to_duration outside d)
                ≡ pos d)
              ⊎ ((if ltb_ℤ max_backoff (to_duration outside d)
                    then max_backoff
                    else to_duration outside d)
                  ≡ max_backoff))
    capped d f = ground arith
