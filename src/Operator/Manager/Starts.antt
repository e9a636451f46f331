-- ===== src/Operator/Manager/Starts.antt =====
-- When ProcessAlert starts a recovery pipeline.
use summer_project.Prelude.{true, ◌≡◌, refl, ap, inl, inr, Option, none, some, String, arith}
use summer_project.Prelude.Int.{pos, ◌+ℤ◌}
use summer_project.Operator.Models.{
  Time, State, recovery_planned, Action, ignore, wait, escalate, prepare_rollback, prepare_restart,
  prepare_scale, Alert, Policy, Incident, DecisionEntry, RecoveryPlan,
}
use summer_project.Operator.Incidents.{Store, update}
use summer_project.Operator.StateMachine.{transition}
use summer_project.Operator.StateMachine.History.{transition_cases}
use summer_project.Operator.Decision.Guards.{is_active}
use summer_project.Operator.Planner.{make_plan, needs_plan, IsBounded, make_plan-IsBounded}
use summer_project.Operator.Manager.{
  Manager, Started, persisted, recorded, settled, unplanned, planned, plan_recovery, decided,
}

persisted_pipeline :
    (mgr : Manager) (i : Incident) (d : DecisionEntry) (started : Option Started)
    (stored : Store × Option String)
    → (persisted mgr i d started stored).pipeline ≡ started
unfolding persisted
persisted_pipeline mgr i d started (store, some e) = refl
persisted_pipeline mgr i d started (store, none) = refl

settled_pipeline :
    (mgr : Manager) (d : DecisionEntry) (moved : Incident × Option String)
    → (settled mgr d moved).pipeline ≡ none
unfolding settled
settled_pipeline mgr d (i, some e) = refl
settled_pipeline mgr d (i, none) = persisted_pipeline mgr i d none (update mgr.store i)

unplanned_pipeline :
    (now : Time) (mgr : Manager) (i : Incident) (d : DecisionEntry) (a : Action)
    → (unplanned now mgr i d a).pipeline ≡ none
unfolding unplanned
unplanned_pipeline now mgr i d escalate = settled_pipeline mgr d _
unplanned_pipeline now mgr i d ignore =
    persisted_pipeline mgr (recorded now i d) d none (update mgr.store (recorded now i d))
unplanned_pipeline now mgr i d wait = settled_pipeline mgr d _
unplanned_pipeline now mgr i d prepare_rollback = settled_pipeline mgr d _
unplanned_pipeline now mgr i d prepare_restart = settled_pipeline mgr d _
unplanned_pipeline now mgr i d prepare_scale = settled_pipeline mgr d _

planned_pipeline :
    (now : Time) (mgr : Manager) (d : DecisionEntry) (plan : RecoveryPlan) (policy : Option Policy)
    (after : Incident × Option String) (p : Started)
    → (planned now mgr d plan policy after).pipeline ≡ some p
    → (after.1 ≡ none) × (p ≡ record { incident = after.0; plan = plan; policy = policy })
unfolding planned
planned_pipeline now mgr d plan policy (i, some e) p h = cc
planned_pipeline now mgr d plan policy (i, none) p h =
    let started : Started = record { incident = i; plan = plan; policy = policy } in
    let stored = update mgr.store (recorded now i d) in
    (refl, ground (arith, persisted_pipeline mgr (recorded now i d) d (some started) stored, h))

accepted_state :
    (now : Time) (i : Incident) (to : State) (reason : String)
    → (transition now i to reason).1 ≡ none
    → (transition now i to reason).0.current_state ≡ to
accepted_state now i to reason h = elim (transition_cases now i to reason) [
  | inl (allowed, e) ↦ rw e refl
  | inr (refused, e) ↦ cc (rw e at h)
]

-- It is the same incident, in whatever state: its id, its service and the attempts made for it.
pub record Continues (held i : Incident) : Type 0 where
  pub same_id : i.id ≡ held.id
  pub same_service : i.service ≡ held.service
  pub same_attempts : i.recovery_attempts ≡ held.recovery_attempts

pub Continues-self : (i : Incident) → Continues i i
Continues-self i = record { same_id = refl; same_service = refl; same_attempts = refl }

pub transition-Continues :
    (now : Time) (held i : Incident) (to : State) (reason : String)
    → Continues held i
    → Continues held (transition now i to reason).0
transition-Continues now held i to reason c = elim (transition_cases now i to reason) [
  | inl (allowed, e) ↦ rw e (record {
    same_id = c.same_id;
    same_service = c.same_service;
    same_attempts = c.same_attempts;
  })
  | inr (refused, e) ↦ rw e c
]

-- The incident with one attempt more.
abbrev pub with_attempt : Incident → Incident
with_attempt i = record i { recovery_attempts = i.recovery_attempts +ℤ pos 1 }

with_attempt-Continues :
    (held i : Incident) → Continues held i → Continues (with_attempt held) (with_attempt i)
with_attempt-Continues held i c = record {
  same_id = c.same_id;
  same_service = c.same_service;
  same_attempts = ap (λ n. n +ℤ pos 1) c.same_attempts;
}

-- What a started pipeline is given.
pub record Given (held : Incident) (d : DecisionEntry) (policy : Option Policy) (p : Started)
    : Type 0 where
  pub attempted : Continues (with_attempt held) p.incident
  pub active : is_active d.decision ≡ true
  pub state : p.incident.current_state ≡ recovery_planned
  pub bounded : IsBounded p.plan
  pub action : p.plan.desired_action ≡ d.decision
  pub for_policy : p.policy ≡ policy

needs_plan-is_active : (a : Action) → needs_plan a ≡ is_active a
needs_plan-is_active ignore = refl
needs_plan-is_active wait = refl
needs_plan-is_active escalate = refl
needs_plan-is_active prepare_rollback = refl
needs_plan-is_active prepare_restart = refl
needs_plan-is_active prepare_scale = refl

made_active :
    (now : Time) (random : String) (i : Incident) (d : DecisionEntry) (policy : Option Policy)
    (plan : RecoveryPlan) (d' : DecisionEntry)
    → make_plan now random i d policy ≡ (some plan, d')
    → is_active d.decision ≡ true
unfolding make_plan
made_active now random i d policy plan d' h = ground (arith, h, needs_plan-is_active d.decision)

plan_recovery-Given :
    (now : Time) (random : String) (mgr : Manager) (alert : Alert) (policy : Option Policy)
    (held i : Incident) (d : DecisionEntry) (c : Option RecoveryPlan × DecisionEntry) (p : Started)
    → Continues held i
    → make_plan now random i d policy ≡ c
    → (plan_recovery now mgr alert policy i c).pipeline ≡ some p
    → Given held d policy p
unfolding plan_recovery
plan_recovery-Given now random mgr alert policy held i d (none, d') p own made h =
    cc (unplanned_pipeline now mgr i d' d'.decision, h)
plan_recovery-Given now random mgr alert policy held i d (some plan, d') p own made h =
    let facts = planned_pipeline now _ d' plan policy _ p h in
    let limits = make_plan-IsBounded now random i d policy plan d' made in
    rw facts.1 (record {
      attempted =
          transition-Continues now (with_attempt held) (with_attempt i) recovery_planned _
            (with_attempt-Continues held i own);
      active = made_active now random i d policy plan d' made;
      state = accepted_state now _ recovery_planned _ facts.0;
      bounded = limits.0;
      action = limits.2;
      for_policy = refl;
    })

pub decided-Given :
    (now : Time) (random : String) (mgr : Manager) (alert : Alert) (policy : Option Policy)
    (held : Incident) (d : DecisionEntry) (after : Incident × Option String) (p : Started)
    → Continues held after.0
    → (decided now random mgr alert policy d after).pipeline ≡ some p
    → Given held d policy p
unfolding decided
decided-Given now random mgr alert policy held d (i, some e) p own h = cc
decided-Given now random mgr alert policy held d (i, none) p own h =
    plan_recovery-Given now random mgr alert policy held i d _ p own refl h
