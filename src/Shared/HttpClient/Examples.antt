-- ===== src/Shared/HttpClient/Examples.antt =====
-- A network that fails, answers with a page of a proxy and then answers, and the theorems at it.
use summer_project.Prelude.{ℕ, zero, suc, ◌≡◌, refl, true, false, none, some}
use summer_project.Prelude.Int.{pos}
use summer_project.Shared.Breaker.{CircuitBreaker, open_state}
use summer_project.Shared.HttpClient.{Reply, no_response, read, Network, sent, do_with_retry}
use summer_project.Shared.HttpClient.Retries.{RetryOutcome, do_with_retry-RetryOutcome}

abbrev replies : ℕ → Reply
replies (suc zero) = no_response "connection refused"
replies (suc (suc zero)) = read 502 false (some "invalid character '<'")
replies _ = read 503 true none

abbrev network : Network
network = record { build = λ _. none; reply = replies; wants_body = true; cancelled = λ _. none }

-- A page that is no JSON is tried again; the status 503 is returned, with an attempt left.
retry_test : do_with_retry "http://payment" "/payment/process" (pos 4) network ≡ sent 503 none 3
unfolding do_with_retry
retry_test = refl

do_with_retry-RetryOutcome_example :
    RetryOutcome network 4 (do_with_retry "http://payment" "/payment/process" (pos 4) network)
do_with_retry-RetryOutcome_example =
    do_with_retry-RetryOutcome "http://payment" "/payment/process" (pos 4) network

abbrev opened : CircuitBreaker
opened = record {
  cfg = record { failure_threshold = pos 2; recovery_interval = pos 100 };
  state = open_state;
  consecutive_fails = 2;
  last_state_change = pos 20;
}
