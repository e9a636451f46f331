-- ===== src/Operator/Executor/Outcomes.antt =====
-- What a run of Execute may come to.
use summer_project.Prelude.{
  true, false, ◌≡◌, refl, ap, sym, ◌∙◌, inl, inr, Option, none, some, arith, String, Option-cases,
}
use summer_project.Prelude.Int.{ℤ, ◌-ℤ◌}
use summer_project.Operator.Models.{
  Time, executing_rollback, rollback_complete, Incident, RecoveryPlan, RecoveryResult,
}
use summer_project.Operator.StateMachine.{transition, is_transition_allowed, from_state, moved}
use summer_project.Operator.StateMachine.History.{transition_cases}
use summer_project.Operator.Helm.{Result, ok, err, Result-cases}
use summer_project.Operator.Executor.{
  HelmClient, Execution, result_of, execute, begin, with_current, with_target, perform, complete,
  resolve_release_and_namespace,
}

-- The client's answers for the release of a plan.
abbrev pub namespace_of : String → RecoveryPlan → String
namespace_of env plan = (resolve_release_and_namespace env plan.service_id).1

abbrev pub Fails : Execution → Type 0
Fails x = (e : String) × (x.error ≡ some e)

-- The incident after the first move.
abbrev pub executing : Time → Incident → Incident
executing start i =
    moved start i (from_state i.current_state) executing_rollback "Initiating Helm Rollback"

pub data Outcome (env : String) (helm : HelmClient) (plan : RecoveryPlan) (i : Incident)
    (start : Time) (x : Execution) : Type 0 where
  refused :
      is_transition_allowed (from_state i.current_state) executing_rollback ≡ false
      → x.incident ≡ i
      → x.requested ≡ none
      → x.result ≡ none
      → Fails x
      → Outcome env helm plan i start x
  not_started :
      is_transition_allowed (from_state i.current_state) executing_rollback ≡ true
      → x.incident ≡ executing start i
      → x.requested ≡ none
      → x.result ≡ none
      → Fails x
      → Outcome env helm plan i start x
  rejected :
      (t : ℤ) (e : String)
      → is_transition_allowed (from_state i.current_state) executing_rollback ≡ true
      → helm.last_healthy_revision (namespace_of env plan) plan.service_id ≡ ok t
      → helm.rollback (namespace_of env plan) plan.service_id t ≡ some e
      → x.incident ≡ executing start i
      → x.requested ≡ some t
      → x.error ≡ some e
      → Outcome env helm plan i start x
  completed :
      (t : ℤ) (r : RecoveryResult)
      → is_transition_allowed (from_state i.current_state) executing_rollback ≡ true
      → helm.last_healthy_revision (namespace_of env plan) plan.service_id ≡ ok t
      → helm.rollback (namespace_of env plan) plan.service_id t ≡ none
      → x.incident.current_state ≡ rollback_complete
      → x.requested ≡ some t
      → x.error ≡ none
      → x.result ≡ some r
      → r.success ≡ true
      → r.rollback_revision ≡ t
      → Outcome env helm plan i start x

target-Outcome :
    (start end : Time) (env : String) (helm : HelmClient) (plan : RecoveryPlan) (i : Incident)
    (current : ℤ)
    → is_transition_allowed (from_state i.current_state) executing_rollback ≡ true
    → let ns = namespace_of env plan in
      Outcome env helm plan i start (
        with_target start end helm plan.service_id ns plan
          (executing start i)
          current
          (helm.last_healthy_revision ns plan.service_id))
unfolding with_target transition
target-Outcome start end env helm plan i current allowed =
    elim (Result-cases (helm.last_healthy_revision (namespace_of env plan) plan.service_id)) [
      | inr (_, bad) ↦ rw bad (not_started allowed refl refl refl (_, refl))
      | inl (t, target) ↦
          rw target (elim (Option-cases (helm.rollback (namespace_of env plan) plan.service_id t)) [
            | inl done ↦ rw done (
                completed t (result_of true current t _ (end -ℤ start)) allowed target done refl
                  refl refl refl refl refl)
            | inr (e, bad) ↦ rw bad (rejected t e allowed target bad refl refl refl)
          ])
    ]

-- A run of Execute is refused by the state machine, and then the incident is as it was and Helm is not
-- asked; or it stops before a target is known, in the executing state; or it asks Helm, once, for the
-- last healthy revision: then it reports Helm's error, or it succeeds with the rollback complete.
pub execute-Outcome :
    (start end : Time) (env : String) (helm : HelmClient) (plan : RecoveryPlan) (i : Incident)
    → Outcome env helm plan i start (execute start end env helm plan i)
unfolding execute transition
execute-Outcome start end env helm plan i =
    elim (transition_cases start i executing_rollback "Initiating Helm Rollback") [
      | inr (not_allowed, e) ↦ rw (e, execute) (refused not_allowed refl refl refl (_, refl))
      | inl (allowed, e) ↦
          rw e
            (elim (Result-cases (helm.current_revision (namespace_of env plan) plan.service_id)) [
              | inr (_, bad) ↦ rw bad (not_started allowed refl refl refl (_, refl))
              | inl (current, found) ↦
                  rw found (target-Outcome start end env helm plan i current allowed)
            ])
    ]

-- The plan keeps its service.
target-service_id :
    (start end : Time) (helm : HelmClient) (release ns : String) (plan : RecoveryPlan)
    (i : Incident) (current : ℤ) (t : Result ℤ)
    → (with_target start end helm release ns plan i current t).plan.service_id ≡ plan.service_id
unfolding with_target perform complete
target-service_id start end helm release ns plan i current (err e) = refl
target-service_id start end helm release ns plan i current (ok t) =
    ground (arith, with_target, perform, complete)

pub execute-service_id :
    (start end : Time) (env : String) (helm : HelmClient) (plan : RecoveryPlan) (i : Incident)
    → (execute start end env helm plan i).plan.service_id ≡ plan.service_id
unfolding execute begin with_current
execute-service_id start end env helm plan i =
    elim (transition_cases start i executing_rollback "Initiating Helm Rollback") [
      | inr (not_allowed, e) ↦ rw (e, execute) refl
      | inl (allowed, e) ↦
          rw e
            (elim (Result-cases (helm.current_revision (namespace_of env plan) plan.service_id)) [
              | inr (_, bad) ↦ rw bad refl
              | inl (current, found) ↦
                  rw found (target-service_id start end helm _ _ plan _ current _)
            ])
    ]

-- The result tells the revision that the client answered to be the current one of the service.
abbrev pub Replaces : String → HelmClient → String → Option RecoveryResult → Type 0
Replaces env helm service result =
    (r : RecoveryResult) × (result ≡ some r)
    × (helm.current_revision (resolve_release_and_namespace env service).1 service
        ≡ ok r.old_revision)

complete-old_revision :
    (start end : Time) (plan : RecoveryPlan) (current target : ℤ) (m : Incident × Option String)
    → (complete start end plan current target m).error ≡ none
    → (r : RecoveryResult) × ((complete start end plan current target m).result ≡ some r)
      × (r.old_revision ≡ current)
unfolding complete
complete-old_revision start end plan current target (i, some e) h = cc
complete-old_revision start end plan current target (i, none) h = (_, refl, refl)

perform-old_revision :
    (start end : Time) (plan : RecoveryPlan) (i : Incident) (current target : ℤ) (o : Option String)
    → (perform start end plan i current target o).error ≡ none
    → (r : RecoveryResult) × ((perform start end plan i current target o).result ≡ some r)
      × (r.old_revision ≡ current)
unfolding perform
perform-old_revision start end plan i current target (some e) h = cc
perform-old_revision start end plan i current target none h =
    complete-old_revision start end plan current target _ h

target-old_revision :
    (start end : Time) (helm : HelmClient) (release ns : String) (plan : RecoveryPlan)
    (i : Incident) (current : ℤ) (t : Result ℤ)
    → (with_target start end helm release ns plan i current t).error ≡ none
    → (r : RecoveryResult) × ((with_target start end helm release ns plan i current t).result
        ≡ some r)
      × (r.old_revision ≡ current)
unfolding with_target
target-old_revision start end helm release ns plan i current (err e) h = cc
target-old_revision start end helm release ns plan i current (ok t) h =
    perform-old_revision start end _ i current t _ h

current-Replaces :
    (start end : Time) (env : String) (helm : HelmClient) (plan : RecoveryPlan) (i : Incident)
    (current : Result ℤ)
    → helm.current_revision (namespace_of env plan) plan.service_id ≡ current
    → let x = with_current start end helm plan.service_id (namespace_of env plan) plan i current in
      x.error ≡ none → Replaces env helm plan.service_id x.result
unfolding with_current
current-Replaces start end env helm plan i (err e) known h = cc
current-Replaces start end env helm plan i (ok v) known h =
    let (r, e, old) =
      target-old_revision start end helm plan.service_id (namespace_of env plan) plan i v _ h in
    (r, e, known ∙ ap ok (sym old))

begin-Replaces :
    (start end : Time) (env : String) (helm : HelmClient) (plan : RecoveryPlan)
    (m : Incident × Option String)
    → let x = begin start end helm plan.service_id (namespace_of env plan) plan m in
      x.error ≡ none → Replaces env helm plan.service_id x.result
unfolding begin
begin-Replaces start end env helm plan (i, some e) h = cc
begin-Replaces start end env helm plan (i, none) h =
    current-Replaces start end env helm plan i _ refl h

-- A run without an error has a result, with the revision that was current before.
pub execute-Replaces :
    (start end : Time) (env : String) (helm : HelmClient) (plan : RecoveryPlan) (i : Incident)
    → (execute start end env helm plan i).error ≡ none
    → Replaces env helm plan.service_id (execute start end env helm plan i).result
unfolding execute
execute-Replaces start end env helm plan i h = begin-Replaces start end env helm plan _ h
