-- ===== src/Shared/Breaker/Threshold.antt =====
-- When the breaker opens, and what a trial after its recovery interval does.
use summer_project.Prelude.{ℕ, zero, suc, ◌+◌, if◌then◌else◌, ◌≡◌, refl, arith, none, some, String}
use summer_project.Prelude.Int.{ℤ, pos, ◌-ℤ◌, ◌<ℤ◌, ltb_ℤ}
use summer_project.Shared.Breaker.{
  closed, open_state, half_open, CircuitBreaker, admit, allow_request, handle_success,
  handle_failure, execute, called,
}
use summer_project.Shared.Breaker.Interleavings.{IsSound}

-- n failures in a row, with no success between them.
pub fail_times : ℤ → ℕ → CircuitBreaker → CircuitBreaker
fail_times now zero cb = cb
fail_times now (suc n) cb = handle_failure now (fail_times now n cb)

fail_times_facts :
    (now : ℤ) (n : ℕ) (cb : CircuitBreaker)
    → IsSound cb
    → cb.state ≡ closed
    → ((fail_times now n cb).cfg.failure_threshold ≡ cb.cfg.failure_threshold)
      × ((fail_times now n cb).consecutive_fails ≡ cb.consecutive_fails + n)
      × ((fail_times now n cb).state ≡ (
          if ltb_ℤ (pos (cb.consecutive_fails + n)) cb.cfg.failure_threshold
          then closed
          else open_state))
unfolding fail_times handle_failure
fail_times_facts now zero cb v c = ground (arith, v.below_threshold c)
fail_times_facts now (suc n) cb v c = ground (arith, fail_times_facts now n cb v c)

-- A closed breaker opens exactly when the failures counted since the last success reach the threshold.
pub state-fail_times :
    (now : ℤ) (n : ℕ) (cb : CircuitBreaker)
    → IsSound cb
    → cb.state ≡ closed
    → (fail_times now n cb).state ≡ (
        if ltb_ℤ (pos (cb.consecutive_fails + n)) cb.cfg.failure_threshold
        then closed
        else open_state)
state-fail_times now n cb v c = (fail_times_facts now n cb v c).2

-- Once the recovery interval has passed, a request to an open breaker is let through as a trial: if it
-- succeeds the breaker is closed with its counter reset, and if it fails the breaker is open anew, as
-- of that time.
pub execute_trial :
    (now later end : ℤ) (e : String) (cb : CircuitBreaker)
    → cb.state ≡ open_state
    → cb.cfg.recovery_interval <ℤ now -ℤ cb.last_state_change
    → (execute now later end none cb ≡ (
      record cb { state = closed; consecutive_fails = 0; last_state_change = end },
      called none,
    ))
      × (execute now later end (some e) cb ≡ (
        record cb {
          state = open_state;
          consecutive_fails = cb.consecutive_fails + 1;
          last_state_change = end;
        },
        called (some e),
      ))
unfolding execute admit handle_success handle_failure
execute_trial now later end e cb o passed = (ground arith, ground arith)

-- How many of n requests are let through that come before any outcome is reported.
pub admissions : ℤ → ℕ → CircuitBreaker → ℕ
admissions now zero cb = 0
admissions now (suc n) cb =
    let result = allow_request now now cb in
    let rest = admissions now n result.0 in if result.1 then rest + 1 else rest

half_open-admissions :
    (now : ℤ) (n : ℕ) (cb : CircuitBreaker) → cb.state ≡ half_open → admissions now n cb ≡ n
unfolding admissions admit
half_open-admissions now zero cb h = refl
half_open-admissions now (suc n) cb h = ground (arith, half_open-admissions now n cb h)

-- The trial is not a single one: of the requests that come once the interval has passed and before an
-- outcome is known, every one is let through.
pub admissions_all :
    (now : ℤ) (n : ℕ) (cb : CircuitBreaker)
    → cb.state ≡ open_state
    → cb.cfg.recovery_interval <ℤ now -ℤ cb.last_state_change
    → admissions now n cb ≡ n
unfolding admissions admit
admissions_all now zero cb o passed = refl
admissions_all now (suc n) cb o passed = ground (
  arith,
  half_open-admissions now n (record cb { state = half_open; last_state_change = now }) refl,
)
