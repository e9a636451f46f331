-- ===== src/Operator/Manager/Examples.antt =====
-- Alerts of one service as they come to the manager, and the theorems at them.
use summer_project.Prelude.{◌≡◌, refl, true, none, some, [], ◌∷◌, Option, List, String}
use summer_project.Prelude.Int.{pos, ◌+ℤ◌, ◌-ℤ◌}
use summer_project.Prelude.Milli.{milli}
use summer_project.Prelude.Maps.{lookup, insert}
use summer_project.Operator.Models.{
  State, Incident, investigating, executing_rollback, decision_made, recovery_planned,
}
use summer_project.Operator.Incidents.{get_by_fingerprint, create, update}
use summer_project.Operator.StateMachine.{refusal, transition, is_transition_allowed}
use summer_project.Operator.Planner.{make_plan}
use summer_project.Operator.Decision.{make_decision}
use summer_project.Operator.Cooldown.{is_cooling_down, record_recovery}
use summer_project.Operator.Policies.{match_policy}
use summer_project.Operator.Samples.{incident_in, order_plan, alert_with, order_policy, burning}
use summer_project.Operator.Manager.{Manager, Started, Outcome, process_alert, resolve}
use summer_project.Operator.Manager.Gate.{IncidentOf, Starts, process_alert-Starts}
use summer_project.Operator.Manager.Locked.{Holds}
use summer_project.Operator.Manager.Held.{Call, IsHeld, run_calls-IsHeld}

abbrev manager_with : State → Manager
manager_with s = record {
  store = ("inc-1", incident_in s) ∷ [];
  cooldown = [];
  decisions = [];
  is_leader = true;
}

abbrev empty_manager : Manager
empty_manager = record { store = []; cooldown = []; decisions = []; is_leader = true }

abbrev on_firing : Manager → Outcome
on_firing mgr =
    process_alert milli (pos 2000) "1.0.0" "ab" (order_policy ∷ []) (burning []) mgr
      (alert_with "firing")

abbrev state_of : Option Started → Option State
state_of none = none
state_of (some p) = some p.incident.current_state

first_alert_test : state_of (on_firing empty_manager).pipeline ≡ some recovery_planned
unfolding process_alert get_by_fingerprint create update lookup insert transition
    is_transition_allowed make_plan make_decision match_policy is_cooling_down record_recovery ◌+ℤ◌
first_alert_test = refl

-- The pipeline that the first alert starts.
abbrev started : Option Started → Started
started none = record { incident = incident_in decision_made; plan = order_plan; policy = none }
started (some p) = p

started_test :
    (on_firing empty_manager).pipeline ≡ some (started (on_firing empty_manager).pipeline)
unfolding process_alert get_by_fingerprint create update lookup insert transition
    is_transition_allowed make_plan make_decision match_policy is_cooling_down record_recovery ◌+ℤ◌
started_test = refl

process_alert-Starts_example :
    (held : Incident) × IncidentOf milli (pos 2000) "ab" empty_manager (alert_with "firing") held
    × Starts milli
        (pos 2000)
        (order_policy ∷ [])
        (burning [])
        empty_manager
        (alert_with "firing")
        held
        (started (on_firing empty_manager).pipeline)
process_alert-Starts_example =
    process_alert-Starts milli (pos 2000) "1.0.0" "ab" (order_policy ∷ []) (burning [])
      empty_manager (alert_with "firing") (started (on_firing empty_manager).pipeline) started_test

-- The alert comes while the rollback is done, is resolved, and fires again.
abbrev call_with : String → Call milli
call_with status = record {
  alert = alert_with status;
  now = pos 2000;
  random = "ab";
  policies = order_policy ∷ [];
  signals = burning [];
}

abbrev calls : List (Call milli)
calls = call_with "firing" ∷ call_with "resolved" ∷ call_with "firing" ∷ []

busy_held : Holds (manager_with executing_rollback).store "fp-1" executing_rollback
unfolding get_by_fingerprint
busy_held = (_, refl, refl)

run_calls-IsHeld_example :
    IsHeld milli "1.0.0" "fp-1" executing_rollback (manager_with executing_rollback) calls
run_calls-IsHeld_example =
    run_calls-IsHeld milli "1.0.0" "fp-1" executing_rollback (manager_with executing_rollback) calls
      tt busy_held (refl, (refl, (refl, tt)))

-- An alert that no policy covers, resolved, and firing again when a policy covers it.
abbrev stuck : Outcome
stuck =
    let ignored =
      process_alert milli (pos 2000) "1.0.0" "ab" [] (burning []) empty_manager
        (alert_with "firing") in
    let resolved =
      process_alert milli (pos 3000) "1.0.0" "cd" [] (burning []) ignored.manager
        (alert_with "resolved") in
    on_firing resolved.manager

stuck_test : stuck.error ≡ some (refusal decision_made investigating)
unfolding process_alert get_by_fingerprint create update lookup insert transition
    is_transition_allowed make_plan make_decision match_policy is_cooling_down record_recovery ◌+ℤ◌
    ◌-ℤ◌ resolve
stuck_test = refl
