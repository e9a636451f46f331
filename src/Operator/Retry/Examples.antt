-- ===== src/Operator/Retry/Examples.antt =====
-- Runs of internal/operator/retry/engine.go, and the theorems at concrete trials.
use summer_project.Prelude.{ℕ, suc, ◌≡◌, refl, true, false, Option, none, some, String}
use summer_project.Prelude.Int.{pos, negsuc}
use summer_project.Operator.Retry.{
  Trials, retried, is_transient, any_contained, calculate_backoff, execute_with_retry, loop, pass,
  judged,
}
use summer_project.Prelude.Text.{contains}
use summer_project.Operator.Retry.Outcomes.{RetryEnd, execute_with_retry-RetryEnd}

missing_release : is_transient (some "Upgrade failed: Release: NOT found") ≡ false
unfolding is_transient contains
missing_release = refl

timeout : is_transient (some "context deadline exceeded") ≡ true
unfolding is_transient contains
timeout = refl

abbrev third_time : ℕ → Option String
third_time (suc (suc n)) = none
third_time n = some "connection refused"

abbrev trials : Trials
trials = record { operation = third_time; cancelled = λ n. none }

third_attempt : execute_with_retry (pos 5) trials ≡ retried 3 none
unfolding execute_with_retry loop pass judged is_transient any_contained contains
third_attempt = refl

execute_with_retry-RetryEnd_example : RetryEnd trials 6 (execute_with_retry (pos 5) trials)
execute_with_retry-RetryEnd_example = execute_with_retry-RetryEnd 5 trials

-- What does not fit an int64 converts to its least value on amd64, and is waited for no time at all.
huge_backoff :
    calculate_backoff (negsuc 9_223_372_036_854_775_807) (pos 40) 30_000_000_000
    ≡ negsuc 9_223_372_036_854_775_807
unfolding calculate_backoff
huge_backoff = refl
