-- ===== src/Shared/Breaker/Interleavings.antt =====
-- The breaker under any interleaving of the locked regions of its requests.
use summer_project.Prelude.{◌≡◌, List, [], ◌∷◌, arith, Option, String}
use summer_project.Prelude.Int.{ℤ, pos, ◌-ℤ◌, ◌≤ℤ◌, ◌<ℤ◌}
use summer_project.Shared.Breaker.{
  closed, open_state, Config, CircuitBreaker, Snapshot, new, admit, handle_success, handle_failure,
  execute, circuit_open,
}

-- A region that some request passes: the write of `allowRequest`, on what the request read before,
-- possibly long ago, or the report of an operation's outcome.
pub data Event : Type 0 where
  admits : ℤ → ℤ → Snapshot → Event
  succeeds : ℤ → Event
  fails : ℤ → Event

unfoldable pub step : CircuitBreaker → Event → CircuitBreaker
step cb (admits now later s) = (admit now later s cb).0
step cb (succeeds now) = handle_success now cb
step cb (fails now) = handle_failure now cb

unfoldable pub run : CircuitBreaker → List Event → CircuitBreaker
run cb [] = cb
run cb (e ∷ es) = run (step cb e) es

-- A closed breaker has counted fewer failures than its threshold, and its settings are positive.
pub record IsSound (cb : CircuitBreaker) : Type 0 where
  pub below_threshold : cb.state ≡ closed → pos cb.consecutive_fails <ℤ cb.cfg.failure_threshold
  pub threshold_positive : pos 0 <ℤ cb.cfg.failure_threshold
  pub interval_positive : pos 0 <ℤ cb.cfg.recovery_interval

pub new-IsSound : (now : ℤ) (cfg : Config) → IsSound (new now cfg)
unfolding new
new-IsSound now cfg = ground arith

step-IsSound : (cb : CircuitBreaker) (e : Event) → IsSound cb → IsSound (step cb e)
unfolding step admit handle_success handle_failure
step-IsSound cb (admits now later s) v = ground arith
step-IsSound cb (succeeds now) v = ground arith
step-IsSound cb (fails now) v = ground arith

run-IsSound : (cb : CircuitBreaker) (es : List Event) → IsSound cb → IsSound (run cb es)
unfolding run
run-IsSound cb [] v = v
run-IsSound cb (e ∷ es) v = run-IsSound (step cb e) es (step-IsSound cb e v)

-- However the requests interleave and whatever settings were given, a new breaker keeps positive
-- settings, and while it is closed it has counted fewer failures than its threshold.
pub run-new-IsSound : (now : ℤ) (cfg : Config) (es : List Event) → IsSound (run (new now cfg) es)
run-new-IsSound now cfg es = run-IsSound (new now cfg) es (new-IsSound now cfg)

-- A request that finds the breaker open, no longer ago than the recovery interval, is rejected without
-- a call and changes nothing.
pub execute_open :
    (now later end : ℤ) (result : Option String) (cb : CircuitBreaker)
    → cb.state ≡ open_state
    → now -ℤ cb.last_state_change ≤ℤ cb.cfg.recovery_interval
    → execute now later end result cb ≡ (cb, circuit_open)
unfolding execute admit
execute_open now later end result cb o recent = ground arith
