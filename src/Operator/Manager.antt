-- ===== src/Operator/Manager.antt =====
-- internal/operator/incident/manager.go: ProcessAlert. One clock reading serves the call; the random
-- part of an id, the configured policies and what the signal engines answer are arguments. Logs,
-- metrics and timeline lines are left out. The pipeline that it starts is part of its result.
pub mod Starts
pub mod Gate
pub mod Locked
pub mod Busy
pub mod Held
mod Examples
use summer_project.Prelude.{
  Bool, true, false, not, ◌&&◌, if◌then◌else◌, Option, none, some, List, [], ◌∷◌, ◌++◌, String,
}
use summer_project.Prelude.Int.{ℤ, pos, ◌+ℤ◌, ◌-ℤ◌, ltb_ℤ}
use summer_project.Prelude.Text.{str_eq, sprint}
use summer_project.Prelude.Float.{Float64}
use summer_project.Operator.Models.{
  Time, State, healthy, warning, investigating, decision_made, recovery_planned, waiting, failed,
  recovered, Action, ignore, wait, escalate, Alert, Policy, Incident, DecisionEntry, RecoveryPlan,
}
use summer_project.Operator.Incidents.{Store, get_by_fingerprint, create, update}
use summer_project.Operator.StateMachine.{transition, same_state}
use summer_project.Operator.Cooldown.{CooldownManager, is_cooling_down, record_recovery}
use summer_project.Operator.Reports.{Signals}
use summer_project.Operator.Policies.{match_policy}
use summer_project.Operator.Decision.{make_decision, action_text}
use summer_project.Operator.Planner.{make_plan, needs_plan}

-- What the calls share: the stores, the cooldown map and the leader flag.
pub record Manager : Type 0 where
  pub store : Store
  pub cooldown : CooldownManager
  pub decisions : List (DecisionEntry × String)
  pub is_leader : Bool

-- A recovery pipeline that was started, with what it was given.
pub record Started : Type 0 where
  pub incident : Incident
  pub plan : RecoveryPlan
  pub policy : Option Policy

pub record Outcome : Type 0 where
  pub manager : Manager
  pub error : Option String
  pub pipeline : Option Started

abbrev pub returns : Manager → Option String → Outcome
returns mgr e = record { manager = mgr; error = e; pipeline = none }

abbrev pub new_incident : Time → String → Alert → Incident
new_incident now random alert = record {
  id = sprint ("inc-" ∷ random ∷ []);
  alert_id = alert.fingerprint;
  service = alert.service;
  severity = alert.severity;
  alert_name = alert.name;
  start_time = alert.starts_at;
  last_update = now;
  status = alert.status;
  current_state = healthy;
  history = [];
  recovery_attempts = pos 0;
  decision_history = [];
  namespace = "";
  root_cause = "";
  decision = "";
  recovery_action = "";
  helm_release = "";
  rollback_revision = pos 0;
  end_time = pos 0;
  duration = pos 0;
  verification_result = "";
  operator_version = "";
  recovery_confidence = 0;
}

-- Section 2: an incident that is not yet resolved is archived; both moves may be refused.
unfoldable pub resolve : Time → Manager → Incident → Manager
resolve now mgr i =
    let ended = record i {
      status = "resolved";
      end_time = now;
      duration = if ltb_ℤ i.start_time now then now -ℤ i.start_time else i.duration;
    } in
    let calm = (transition now ended recovered "Alert resolved by Alertmanager").0 in
    let done = (transition now calm healthy "Incident resolved and archived").0 in
    record mgr { store = (update mgr.store done).0 }

-- The end of section 8: the incident is stored, and the decision put into the history.
persisted : Manager → Incident → DecisionEntry → Option Started → Store × Option String → Outcome
persisted mgr i d started (store, some e) = record {
  manager = record mgr { store = store };
  error = some (sprint ("failed to persist incident update: " ∷ e ∷ []));
  pipeline = started;
}
persisted mgr i d started (store, none) = record {
  manager = record mgr { store = store; decisions = mgr.decisions ++ (d, i.id) ∷ [] };
  error = none;
  pipeline = started;
}

recorded : Time → Incident → DecisionEntry → Incident
recorded now i d = record i { decision_history = i.decision_history ++ d ∷ []; last_update = now }

-- A last move without which nothing is stored.
settled : Manager → DecisionEntry → Incident × Option String → Outcome
unfolding persisted
settled mgr d (i, some e) = returns mgr (some e)
settled mgr d (i, none) = persisted mgr i d none (update mgr.store i)

-- Section 8 where there is no plan.
unplanned : Time → Manager → Incident → DecisionEntry → Action → Outcome
unfolding settled recorded persisted
unplanned now mgr i d escalate = settled mgr d (
    transition now (recorded now i d) failed
      "Recovery failed or max retries exceeded. Manual intervention needed.")
unplanned now mgr i d ignore =
    persisted mgr (recorded now i d) d none (update mgr.store (recorded now i d))
unplanned now mgr i d _ =
    settled mgr d
      (transition now (recorded now i d) waiting "Waiting for recovery execution context")

-- Section 7 with a plan, after the move to RecoveryPlanned.
planned :
    Time
    → Manager
    → DecisionEntry
    → RecoveryPlan
    → Option Policy
    → Incident × Option String
    → Outcome
unfolding persisted recorded
planned now mgr d plan policy (i, some e) = returns mgr (some e)
planned now mgr d plan policy (i, none) =
    persisted mgr (recorded now i d) d
      (some (record { incident = i; plan = plan; policy = policy }))
      (update mgr.store (recorded now i d))

plan_recovery :
    Time
    → Manager
    → Alert
    → Option Policy
    → Incident
    → Option RecoveryPlan × DecisionEntry
    → Outcome
unfolding planned unplanned
plan_recovery now mgr alert policy i (none, d) = unplanned now mgr i d d.decision
plan_recovery now mgr alert policy i (some plan, d) =
    let cooled = record mgr {
      cooldown = record_recovery now mgr.cooldown alert.service alert.name plan.cooldown;
    } in
    planned now cooled d plan policy (
      transition now (record i { recovery_attempts = i.recovery_attempts +ℤ pos 1 })
        recovery_planned (sprint ("Recovery plan created: " ∷ plan.id ∷ [])))

-- After the move to DecisionMade.
pub decided :
    Time
    → String
    → Manager
    → Alert
    → Option Policy
    → DecisionEntry
    → Incident × Option String
    → Outcome
unfolding plan_recovery
decided now random mgr alert policy d (i, some e) = returns mgr (some e)
decided now random mgr alert policy d (i, none) =
    plan_recovery now mgr alert policy i (make_plan now random i d policy)

module _ (fl : Float64) where
  open fl use {F}

  -- Sections 5 and 6, after the move to Investigating.
  investigated :
      Time
      → String
      → String
      → List Policy
      → Signals F
      → Manager
      → Alert
      → Incident × Option String
      → Outcome
  unfolding decided
  investigated now version random policies sig mgr alert (i, some e) = returns mgr (some e)
  investigated now version random policies sig mgr alert (i, none) =
      let policy = match_policy policies alert in
      let cooling = (is_cooling_down now mgr.cooldown alert.service alert.name).0 in
      let d = (make_decision fl now version alert policy (some i) cooling sig).entry in
      decided now random mgr alert policy d (
        transition now i decision_made
          (sprint ("Decision completed: " ∷ action_text d.decision ∷ [])))

  -- Section 4, after the move to Warning where there is one.
  warned :
      Time
      → String
      → String
      → List Policy
      → Signals F
      → Manager
      → Alert
      → Incident × Option String
      → Outcome
  unfolding investigated
  warned now version random policies sig mgr alert (i, some e) = returns mgr (some e)
  warned now version random policies sig mgr alert (i, none) =
      investigated now version random policies sig mgr alert
        (transition now i investigating "Operator evaluating alert policies")

  -- Section 3.
  fire : Time → String → String → List Policy → Signals F → Manager → Alert → Incident → Outcome
  unfolding warned
  fire now version random policies sig mgr alert i =
      warned now version random policies sig mgr alert (
        if same_state i.current_state healthy
        then transition now i warning "Alert started firing"
        else (i, none))

  with_incident :
      Time → String → String → List Policy → Signals F → Manager → Alert → Incident → Outcome
  unfolding fire
  with_incident now version random policies sig mgr alert i =
      if str_eq alert.status "resolved"
      then returns (if str_eq i.status "resolved" then mgr else resolve now mgr i) none
      else fire now version random policies sig mgr alert i

  with_created :
      Time
      → String
      → String
      → List Policy
      → Signals F
      → Manager
      → Alert
      → Incident
      → Store × Option String
      → Outcome
  unfolding with_incident
  with_created now version random policies sig mgr alert i (store, some e) =
      returns mgr (some (sprint ("failed to create incident: " ∷ e ∷ [])))
  with_created now version random policies sig mgr alert i (store, none) =
      with_incident now version random policies sig (record mgr { store = store }) alert i

  -- Section 1, on what the store holds for the fingerprint.
  on_lookup :
      Time → String → String → List Policy → Signals F → Manager → Alert → Option Incident → Outcome
  unfolding with_created
  on_lookup now version random policies sig mgr alert (some i) =
      with_incident now version random policies sig mgr alert i
  on_lookup now version random policies sig mgr alert none =
      let i = new_incident now random alert in
      if str_eq alert.status "firing"
      then with_created now version random policies sig mgr alert i (create mgr.store i)
      else returns mgr none

  unfoldable pub process_alert :
      Time → String → String → List Policy → Signals F → Manager → Alert → Outcome
  unfolding on_lookup
  process_alert now version random policies sig mgr alert =
      if mgr.is_leader
      then on_lookup now version random policies sig mgr alert
          (get_by_fingerprint mgr.store alert.fingerprint)
      else returns mgr none
