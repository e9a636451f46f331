-- ===== src/Operator/Incidents.antt =====
-- internal/operator/storage/inmemory.go: the in-memory store of incidents. A clone keeps the fields
-- that `cloneIncident` copies, and leaves the others at their zero values.
use summer_project.Prelude.{if◌then◌else◌, Option, none, some, List, [], ◌∷◌, map, String}
use summer_project.Prelude.Int.{pos}
use summer_project.Prelude.Text.{str_eq}
use summer_project.Prelude.Maps.{Map, lookup, insert}
use summer_project.Operator.Models.{Incident, DecisionEntry}

abbrev pub Store : Type 0
Store = Map Incident

abbrev pub clone_decision : DecisionEntry → DecisionEntry
clone_decision d = record {
  timestamp = d.timestamp;
  decision = d.decision;
  policy_used = d.policy_used;
  reason = d.reason;
  operator_version = d.operator_version;
  recovery_plan = d.recovery_plan;
  recovery_target_service_id = "";
}

abbrev pub clone_incident : Incident → Incident
clone_incident i = record {
  id = i.id;
  alert_id = i.alert_id;
  service = i.service;
  severity = i.severity;
  alert_name = i.alert_name;
  start_time = i.start_time;
  last_update = i.last_update;
  status = i.status;
  current_state = i.current_state;
  history = i.history;
  recovery_attempts = i.recovery_attempts;
  decision_history = map clone_decision i.decision_history;
  namespace = "";
  root_cause = "";
  decision = "";
  recovery_action = "";
  helm_release = "";
  rollback_revision = pos 0;
  end_time = pos 0;
  duration = pos 0;
  verification_result = "";
  operator_version = "";
  recovery_confidence = 0;
}

-- Go visits a map in any order; the list is one of them.
unfoldable pub get_by_fingerprint : Store → String → Option Incident
get_by_fingerprint [] fingerprint = none
get_by_fingerprint ((id, i) ∷ rest) fingerprint =
    if str_eq i.alert_id fingerprint
    then some (clone_incident i)
    else get_by_fingerprint rest fingerprint

created : Store → Incident → Option Incident → Store × Option String
created s i none = (insert i.id (clone_incident i) s, none)
created s i (some held) = (s, some "incident already exists")

unfoldable pub create : Store → Incident → Store × Option String
unfolding created
create s i = created s i (lookup i.id s)

updated : Store → Incident → Option Incident → Store × Option String
updated s i (some held) = (insert i.id (clone_incident i) s, none)
updated s i none = (s, some "incident does not exist")

unfoldable pub update : Store → Incident → Store × Option String
unfolding updated
update s i = updated s i (lookup i.id s)

unfoldable pub list_active : Store → List Incident
list_active [] = []
list_active ((id, i) ∷ rest) =
    let others = list_active rest in
    if str_eq i.status "firing" then clone_incident i ∷ others else others
