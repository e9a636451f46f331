-- ===== src/Shared/Breaker/Examples.antt =====
-- A breaker that opens on its second failure, and the theorems at it.
use summer_project.Prelude.{◌≡◌, refl, none, List, [], ◌∷◌, arith}
use summer_project.Prelude.Int.{pos, ◌-ℤ◌}
use summer_project.Shared.Breaker.{
  Config, CircuitBreaker, new, open_state, circuit_open, snapshot, execute, handle_success,
  handle_failure, admit,
}
use summer_project.Shared.Breaker.Interleavings.{
  IsSound, Event, admits, succeeds, fails, step, run, run-new-IsSound, execute_open,
}
use summer_project.Shared.Breaker.Threshold.{admissions, admissions_all}

abbrev config : Config
config = record { failure_threshold = pos 2; recovery_interval = pos 100 }

abbrev fresh : CircuitBreaker
fresh = new (pos 0) config

abbrev opened : CircuitBreaker
opened = record {
  cfg = config;
  state = open_state;
  consecutive_fails = 2;
  last_state_change = pos 20;
}

-- A request that saw the breaker open writes after the trial of another has closed it.
abbrev events : List Event
events =
    fails (pos 10)
    ∷ fails (pos 20)
    ∷ admits (pos 130) (pos 131) (snapshot opened)
    ∷ succeeds (pos 140)
    ∷ admits (pos 135) (pos 141) (snapshot opened)
    ∷ fails (pos 150)
    ∷ []

run_test : (run fresh events).consecutive_fails ≡ 1
unfolding run step new handle_success handle_failure admit ◌-ℤ◌
run_test = refl

run-new-IsSound_example : IsSound (run (new (pos 0) config) events)
run-new-IsSound_example = run-new-IsSound (pos 0) config events

execute_open_example : execute (pos 90) (pos 91) (pos 92) none opened ≡ (opened, circuit_open)
unfolding ◌-ℤ◌
execute_open_example = execute_open (pos 90) (pos 91) (pos 92) none opened refl (omega arith)

admissions_all_example : admissions (pos 130) 3 opened ≡ 3
unfolding ◌-ℤ◌
admissions_all_example = admissions_all (pos 130) 3 opened refl (omega arith)
