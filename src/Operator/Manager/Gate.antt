-- ===== src/Operator/Manager/Gate.antt =====
-- ProcessAlert starts a recovery pipeline only where all its guards let it.
use summer_project.Prelude.{
  Bool, true, false, if◌then◌else◌, ◌≡◌, refl, ◌∙◌, ap, sym, ◌≢◌, ◌⊎◌, inl, inr, Option, none, some,
  List, String, Bool-cases,
}
use summer_project.Prelude.Text.{str_eq}
use summer_project.Prelude.Float.{Float64}
use summer_project.Operator.Models.{
  Time, investigating, warning, healthy, decision_made, recovery_planned, Alert, Policy, Incident,
}
use summer_project.Operator.Incidents.{Store, get_by_fingerprint, create}
use summer_project.Operator.StateMachine.{transition, same_state}
use summer_project.Operator.Cooldown.{is_cooling_down}
use summer_project.Operator.Reports.{Signals}
use summer_project.Operator.Policies.{match_policy}
use summer_project.Operator.Decision.{make_decision}
use summer_project.Operator.Decision.Guards.{Permits, is_active, decision_guarded}
use summer_project.Operator.Planner.{IsBounded}
use summer_project.Operator.Manager.{
  Manager, Started, Outcome, new_incident, returns, investigated, warned, fire, with_incident,
  with_created, on_lookup, process_alert,
}
use summer_project.Operator.Manager.Starts.{
  Continues, Continues-self, transition-Continues, with_attempt, decided-Given,
}

-- A pipeline that comes from a test of which one branch starts none.
taken_branch :
    (b : Bool) (x y : Outcome) (p : Started)
    → y.pipeline ≡ none
    → (if b then x else y).pipeline ≡ some p
    → (b ≡ true) × (x.pipeline ≡ some p)
taken_branch true x y p e h = (refl, h)
taken_branch false x y p e h = cc

module _ (fl : Float64) where
  open fl use {F}

  -- The incident of an alert: what the store holds for its fingerprint, or else a new one.
  abbrev pub IncidentOf : Time → String → Manager → Alert → Incident → Type 0
  IncidentOf now random mgr alert i =
      (get_by_fingerprint mgr.store alert.fingerprint ≡ some i)
      ⊎ ((get_by_fingerprint mgr.store alert.fingerprint ≡ none)
          × (i ≡ new_incident now random alert))

  -- What holds when a pipeline is started: the alert is not resolved, the first policy that applies
  -- allows the action for the alert's incident, the alert is not cooling down, and the pipeline gets a
  -- bounded plan for an active decision, with that incident, one attempt more counted for it, in the
  -- state RecoveryPlanned.
  pub record Starts (now : Time) (policies : List Policy) (sig : Signals F) (mgr : Manager)
      (alert : Alert) (held : Incident) (p : Started) : Type 0 where
    pub leads : mgr.is_leader ≡ true
    pub not_resolved : alert.status ≢ "resolved"
    pub cool : (is_cooling_down now mgr.cooldown alert.service alert.name).0 ≡ false
    pub policy : Policy
    pub matched : match_policy policies alert ≡ some policy
    pub permitted : Permits fl alert (some held) sig policy
    pub attempted : Continues (with_attempt held) p.incident
    pub state : p.incident.current_state ≡ recovery_planned
    pub bounded : IsBounded p.plan
    pub active : is_active p.plan.desired_action ≡ true
    pub for_policy : p.policy ≡ some policy

  -- What the decision engine permits depends on the attempts made for the incident alone.
  Continues-Permits :
      (alert : Alert) (held i : Incident) (sig : Signals F) (policy : Policy)
      → Continues held i
      → Permits fl alert (some i) sig policy
      → Permits fl alert (some held) sig policy
  Continues-Permits alert held i sig policy c permits = record {
    attempts_left = λ j e.
        let left = permits.attempts_left i refl in
        let same = c.same_attempts in let it : held ≡ j = cc in rw (sym it, sym same) left;
    few_failures = permits.few_failures;
    not_quiet = permits.not_quiet;
  }

  investigated-Starts :
      (now : Time) (version random : String) (policies : List Policy) (sig : Signals F)
      (mgr : Manager) (alert : Alert) (held : Incident) (after : Incident × Option String)
      (p : Started)
      → mgr.is_leader ≡ true
      → Continues held after.0
      → (investigated fl now version random policies sig mgr alert after).pipeline ≡ some p
      → Starts now policies sig mgr alert held p
  unfolding investigated
  investigated-Starts now version random policies sig mgr alert held (i, some e) p leads own h = cc
  investigated-Starts now version random policies sig mgr alert held (i, none) p leads own h =
      let policy = match_policy policies alert in
      let cooling = (is_cooling_down now mgr.cooldown alert.service alert.name).0 in
      let d = (make_decision fl now version alert policy (some i) cooling sig).entry in
      let given =
        decided-Given now random mgr alert policy held d _ p
          (transition-Continues now held i decision_made _ own) h in
      let facts = decision_guarded fl now version alert policy (some i) cooling sig given.active in
      record {
        leads = leads;
        not_resolved = facts.0;
        cool = facts.1;
        policy = facts.2.0;
        matched = facts.2.1;
        permitted = Continues-Permits alert held i sig facts.2.0 own facts.2.2;
        attempted = given.attempted;
        state = given.state;
        bounded = given.bounded;
        active = ap is_active given.action ∙ given.active;
        for_policy = given.for_policy ∙ facts.2.1;
      }

  warned-Starts :
      (now : Time) (version random : String) (policies : List Policy) (sig : Signals F)
      (mgr : Manager) (alert : Alert) (held : Incident) (after : Incident × Option String)
      (p : Started)
      → mgr.is_leader ≡ true
      → Continues held after.0
      → (warned fl now version random policies sig mgr alert after).pipeline ≡ some p
      → Starts now policies sig mgr alert held p
  unfolding warned
  warned-Starts now version random policies sig mgr alert held (i, some e) p leads own h = cc
  warned-Starts now version random policies sig mgr alert held (i, none) p leads own h =
      investigated-Starts now version random policies sig mgr alert held
        (transition now i investigating "Operator evaluating alert policies") p leads
        (transition-Continues now held i investigating _ own) h

  -- The move to Warning, where there is one.
  fired-Continues :
      (now : Time) (i : Incident) (b : Bool)
      → Continues i (if b then transition now i warning "Alert started firing" else (i, none)).0
  fired-Continues now i true = transition-Continues now i i warning _ (Continues-self i)
  fired-Continues now i false = Continues-self i

  with_incident-Starts :
      (now : Time) (version random : String) (policies : List Policy) (sig : Signals F)
      (mgr : Manager) (alert : Alert) (i : Incident) (p : Started)
      → mgr.is_leader ≡ true
      → (with_incident fl now version random policies sig mgr alert i).pipeline ≡ some p
      → Starts now policies sig mgr alert i p
  unfolding with_incident fire
  with_incident-Starts now version random policies sig mgr alert i p leads h =
      elim (Bool-cases (str_eq alert.status "resolved")) [
        | inl resolved ↦ cc (rw resolved at h)
        | inr firing ↦
            warned-Starts now version random policies sig mgr alert i
              (if same_state i.current_state healthy
                then transition now i warning "Alert started firing"
                else (i, none))
              p leads (fired-Continues now i (same_state i.current_state healthy)) (rw firing at h)
      ]

  -- The store plays no part in what starts a pipeline for an incident.
  store-Starts :
      (now : Time) (policies : List Policy) (sig : Signals F) (mgr : Manager) (store : Store)
      (alert : Alert) (held : Incident) (p : Started)
      → Starts now policies sig (record mgr { store = store }) alert held p
      → Starts now policies sig mgr alert held p
  store-Starts now policies sig mgr store alert held p s = record {
    leads = s.leads;
    not_resolved = s.not_resolved;
    cool = s.cool;
    policy = s.policy;
    matched = s.matched;
    permitted = s.permitted;
    attempted = s.attempted;
    state = s.state;
    bounded = s.bounded;
    active = s.active;
    for_policy = s.for_policy;
  }

  with_created-Starts :
      (now : Time) (version random : String) (policies : List Policy) (sig : Signals F)
      (mgr : Manager) (alert : Alert) (i : Incident) (c : Store × Option String) (p : Started)
      → mgr.is_leader ≡ true
      → (with_created fl now version random policies sig mgr alert i c).pipeline ≡ some p
      → Starts now policies sig mgr alert i p
  unfolding with_created
  with_created-Starts now version random policies sig mgr alert i (store, some e) p leads h = cc
  with_created-Starts now version random policies sig mgr alert i (store, none) p leads h =
      store-Starts now policies sig mgr store alert i p (
        with_incident-Starts now version random policies sig (record mgr { store = store }) alert i
          p leads h)

  on_lookup-Starts :
      (now : Time) (version random : String) (policies : List Policy) (sig : Signals F)
      (mgr : Manager) (alert : Alert) (o : Option Incident) (p : Started)
      → mgr.is_leader ≡ true
      → get_by_fingerprint mgr.store alert.fingerprint ≡ o
      → (on_lookup fl now version random policies sig mgr alert o).pipeline ≡ some p
      → (held : Incident) × IncidentOf now random mgr alert held
        × Starts now policies sig mgr alert held p
  unfolding on_lookup
  on_lookup-Starts now version random policies sig mgr alert (some i) p leads stored h =
      (i, inl stored, with_incident-Starts now version random policies sig mgr alert i p leads h)
  on_lookup-Starts now version random policies sig mgr alert none p leads stored h =
      let i = new_incident now random alert in
      elim (Bool-cases (str_eq alert.status "firing")) [
        | inr other ↦ cc (rw other at h)
        | inl firing ↦ (
          i,
          inr (stored, refl),
          with_created-Starts now version random policies sig mgr alert i (create mgr.store i) p
              leads (rw firing at h),
        )
      ]

  -- Whatever the stores hold and the signals report, ProcessAlert starts a pipeline only on the
  -- leader, for an alert that is not resolved and not cooling down, under the first policy that
  -- applies, where the decision engine permits an action for the incident that the store holds for the
  -- alert, or for a new one where it holds none; and the pipeline gets a bounded plan for such an
  -- action and that incident, with one attempt more counted for it, in the state RecoveryPlanned.
  pub process_alert-Starts :
      (now : Time) (version random : String) (policies : List Policy) (sig : Signals F)
      (mgr : Manager) (alert : Alert) (p : Started)
      → (process_alert fl now version random policies sig mgr alert).pipeline ≡ some p
      → (held : Incident) × IncidentOf now random mgr alert held
        × Starts now policies sig mgr alert held p
  unfolding process_alert
  process_alert-Starts now version random policies sig mgr alert p h =
      let led = taken_branch mgr.is_leader _ (returns mgr none) p refl h in
      on_lookup-Starts now version random policies sig mgr alert
        (get_by_fingerprint mgr.store alert.fingerprint) p led.0 refl led.1
