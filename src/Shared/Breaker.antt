-- ===== src/Shared/Breaker.antt =====
-- internal/shared/breaker/breaker.go: the circuit breaker. Each region under its lock is a function of
-- the breaker; `Execute` passes through three of them, between which other requests may pass theirs.
-- The gauge and the counter of rejections are left out.
pub mod Interleavings
pub mod Threshold
mod Examples
use summer_project.Prelude.{
  ℕ, ◌+◌, ◌*◌, Bool, true, false, ◌&&◌, leb, if◌then◌else◌, Option, none, some, String,
}
use summer_project.Prelude.Int.{ℤ, pos, ◌-ℤ◌, ltb_ℤ, leb_ℤ}

pub data State : Type 0 where
  closed open_state half_open : State

pub record Config : Type 0 where
  pub failure_threshold : ℤ
  pub recovery_interval : ℤ

-- `consecutiveFails` starts at 0 and only grows or is reset, so it is a natural number.
pub record CircuitBreaker : Type 0 where
  pub cfg : Config
  pub state : State
  pub consecutive_fails : ℕ
  pub last_state_change : ℤ

abbrev positive_or : ℤ → ℤ → ℤ
positive_or setting default = if leb_ℤ setting (pos 0) then default else setting

unfoldable pub new : ℤ → Config → CircuitBreaker
new now cfg = record {
  cfg = record {
    failure_threshold = positive_or cfg.failure_threshold (pos 5);
    recovery_interval = positive_or cfg.recovery_interval (pos (30 * 1_000_000_000));
  };
  state = closed;
  consecutive_fails = 0;
  last_state_change = now;
}

abbrev enter : ℤ → State → CircuitBreaker → CircuitBreaker
enter now s cb = record cb { state = s; last_state_change = now }

-- What `allowRequest` reads under the read lock.
pub record Snapshot : Type 0 where
  pub seen : State
  pub last_change : ℤ

abbrev pub snapshot : CircuitBreaker → Snapshot
snapshot cb = record { seen = cb.state; last_change = cb.last_state_change }

-- The write region of `allowRequest`: the state is tested once more.
half_opened : ℤ → State → CircuitBreaker → CircuitBreaker
half_opened now open_state cb = enter now half_open cb
half_opened now _ cb = cb

decide_admission : ℤ → ℤ → State → ℤ → CircuitBreaker → CircuitBreaker × Bool
unfolding half_opened
decide_admission now later open_state last_change cb =
    if ltb_ℤ cb.cfg.recovery_interval (now -ℤ last_change)
    then (half_opened later cb.state cb, true)
    else (cb, false)
decide_admission now later closed last_change cb = (cb, true)
decide_admission now later half_open last_change cb = (cb, true)

-- `allowRequest` after its read, on what it read; `now` is the time of the test, `later` of the write.
unfoldable pub admit : ℤ → ℤ → Snapshot → CircuitBreaker → CircuitBreaker × Bool
unfolding decide_admission
admit now later s cb = decide_admission now later s.seen s.last_change cb

-- `allowRequest` with no other request in between.
abbrev pub allow_request : ℤ → ℤ → CircuitBreaker → CircuitBreaker × Bool
allow_request now later cb = admit now later (snapshot cb) cb

succeed_in : ℤ → State → CircuitBreaker → CircuitBreaker
succeed_in now half_open cb = enter now closed (record cb { consecutive_fails = 0 })
succeed_in now closed cb = record cb { consecutive_fails = 0 }
succeed_in now open_state cb = cb

unfoldable pub handle_success : ℤ → CircuitBreaker → CircuitBreaker
unfolding succeed_in
handle_success now cb = succeed_in now cb.state cb

fail_in : ℤ → State → CircuitBreaker → CircuitBreaker
fail_in now closed cb =
    if leb_ℤ cb.cfg.failure_threshold (pos cb.consecutive_fails)
    then enter now open_state cb
    else cb
fail_in now half_open cb = enter now open_state cb
fail_in now open_state cb = cb

unfoldable pub handle_failure : ℤ → CircuitBreaker → CircuitBreaker
unfolding fail_in
handle_failure now cb =
    fail_in now cb.state (record cb { consecutive_fails = cb.consecutive_fails + 1 })

-- What `Execute` returns: the open breaker's own error, or what the operation returned.
pub data Response : Type 0 where
  circuit_open : Response
  called : Option String → Response

report : ℤ → Option String → CircuitBreaker → CircuitBreaker
report now none cb = handle_success now cb
report now (some e) cb = handle_failure now cb

finish : ℤ → Option String → CircuitBreaker × Bool → CircuitBreaker × Response
unfolding report
finish now result (cb, true) = (report now result cb, called result)
finish now result (cb, false) = (cb, circuit_open)

-- `Execute` with no other request in between, on what the operation returns if it is called.
unfoldable pub execute : ℤ → ℤ → ℤ → Option String → CircuitBreaker → CircuitBreaker × Response
unfolding finish
execute now later end result cb = finish end result (allow_request now later cb)
