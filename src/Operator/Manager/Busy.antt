-- ===== src/Operator/Manager/Busy.antt =====
-- What one call of ProcessAlert does with an alert of an incident that is already dealt with.
use summer_project.Prelude.{
  Bool, true, false, if◌then◌else◌, ◌≡◌, refl, ◌∙◌, ap, sym, subst, inl, inr, Option, none, some,
  List, String, Bool-cases,
}
use summer_project.Prelude.Int.{◌-ℤ◌, ltb_ℤ}
use summer_project.Prelude.Float.{Float64}
use summer_project.Prelude.Text.{str_eq}
use summer_project.Operator.Models.{
  Time, State, healthy, warning, investigating, recovered, Alert, Policy, Incident,
}
use summer_project.Operator.Incidents.{update}
use summer_project.Operator.StateMachine.{
  transition, same_state, is_transition_allowed, from_state, refusal,
}
use summer_project.Operator.Reports.{Signals}
use summer_project.Operator.Manager.{
  Manager, Outcome, returns, resolve, investigated, warned, fire, with_incident, on_lookup,
  process_alert,
}
use summer_project.Operator.Manager.Locked.{
  Refuses, refused_move, Holds, found-alert_id, update-Holds,
}

-- A call leaves everything that a recovery needs as it was.
pub record Untouched (fingerprint : String) (s : State) (mgr : Manager) (x : Outcome) : Type 0 where
  pub no_pipeline : x.pipeline ≡ none
  pub same_decisions : x.manager.decisions ≡ mgr.decisions
  pub same_cooldown : x.manager.cooldown ≡ mgr.cooldown
  pub still : Holds x.manager.store fingerprint s

returns-Untouched :
    (fingerprint : String) (s : State) (mgr : Manager) (e : Option String)
    → Holds mgr.store fingerprint s
    → Untouched fingerprint s mgr (returns mgr e)
returns-Untouched fingerprint s mgr e h = record {
  no_pipeline = refl;
  same_decisions = refl;
  same_cooldown = refl;
  still = h;
}

chosen-Untouched :
    (fingerprint : String) (s : State) (mgr : Manager) (b : Bool) (x y : Outcome)
    → Untouched fingerprint s mgr x
    → Untouched fingerprint s mgr y
    → Untouched fingerprint s mgr (if b then x else y)
chosen-Untouched fingerprint s mgr true x y hx hy = hx
chosen-Untouched fingerprint s mgr false x y hx hy = hy

-- Both moves of a resolved alert are refused.
home_refused :
    (now : Time) (i : Incident) (over home : String)
    → Refuses i.current_state
    → (transition now (transition now i recovered over).0 healthy home).0 ≡ i
home_refused now i over home r =
    ap (λ (m : Incident × Option String). (transition now m.0 healthy home).0)
      (refused_move now i recovered over r.no_recovered)
    ∙ ap (λ (m : Incident × Option String). m.0) (refused_move now i healthy home r.no_healthy)

resolve-Untouched :
    (now : Time) (fingerprint : String) (mgr : Manager) (i : Incident)
    → Refuses i.current_state
    → str_eq i.alert_id fingerprint ≡ true
    → Holds mgr.store fingerprint i.current_state
    → Untouched fingerprint i.current_state mgr (returns (resolve now mgr i) none)
unfolding resolve
resolve-Untouched now fingerprint mgr i r own h =
    let ended : Incident = record i {
      status = "resolved";
      end_time = now;
      duration = if ltb_ℤ i.start_time now then now -ℤ i.start_time else i.duration;
    } in
    record {
      no_pipeline = refl;
      same_decisions = refl;
      same_cooldown = refl;
      still =
          subst (λ j. Holds (update mgr.store j).0 fingerprint i.current_state)
            (sym (home_refused now ended _ _ r))
            (update-Holds mgr.store fingerprint ended i.current_state own refl h);
    }

module _ (fl : Float64) where
  open fl use {F}

  fire_busy :
      (now : Time) (version random : String) (policies : List Policy) (sig : Signals F)
      (mgr : Manager) (alert : Alert) (i : Incident)
      → same_state i.current_state healthy ≡ false
      → is_transition_allowed (from_state i.current_state) investigating ≡ false
      → fire fl now version random policies sig mgr alert i
        ≡ returns mgr (some (refusal (from_state i.current_state) investigating))
  unfolding fire warned investigated
  fire_busy now version random policies sig mgr alert i sick busy =
      ap
        (λ b.
          warned fl now version random policies sig mgr alert
            (if b then transition now i warning "Alert started firing" else (i, none)))
        sick
      ∙ ap (investigated fl now version random policies sig mgr alert)
          (refused_move now i investigating "Operator evaluating alert policies" busy)

  with_incident-Untouched :
      (now : Time) (version random : String) (policies : List Policy) (sig : Signals F)
      (mgr : Manager) (alert : Alert) (i : Incident)
      → Refuses i.current_state
      → str_eq i.alert_id alert.fingerprint ≡ true
      → Holds mgr.store alert.fingerprint i.current_state
      → Untouched alert.fingerprint i.current_state mgr
          (with_incident fl now version random policies sig mgr alert i)
  unfolding with_incident
  with_incident-Untouched now version random policies sig mgr alert i r own h =
      elim (Bool-cases (str_eq alert.status "resolved")) [
        | inr firing ↦
            rw
              (
                firing,
                fire_busy now version random policies sig mgr alert i r.not_healthy
                    r.no_investigating,
              )
              (returns-Untouched alert.fingerprint i.current_state mgr _ h)
        | inl over ↦ elim (Bool-cases (str_eq i.status "resolved")) [
          | inl before ↦
              rw (over, before) (returns-Untouched alert.fingerprint i.current_state mgr none h)
          | inr first ↦ rw (over, first) (resolve-Untouched now alert.fingerprint mgr i r own h)
        ]
      ]

  pub process_alert-Untouched :
      (now : Time) (version random : String) (policies : List Policy) (sig : Signals F)
      (mgr : Manager) (alert : Alert) (s : State)
      → Refuses s
      → Holds mgr.store alert.fingerprint s
      → Untouched alert.fingerprint s mgr
          (process_alert fl now version random policies sig mgr alert)
  unfolding process_alert on_lookup
  process_alert-Untouched now version random policies sig mgr alert s r (i, found, e) =
      let held =
        subst
          (λ t.
            Untouched alert.fingerprint t mgr
              (with_incident fl now version random policies sig mgr alert i))
          e
          (with_incident-Untouched now version random policies sig mgr alert i
            (subst Refuses (sym e) r) (found-alert_id mgr.store alert.fingerprint i found)
            (i, found, refl)) in
      chosen-Untouched alert.fingerprint s mgr mgr.is_leader _ _
        (subst
          (λ o.
            Untouched alert.fingerprint s mgr
              (on_lookup fl now version random policies sig mgr alert o))
          (sym found) held)
        (returns-Untouched alert.fingerprint s mgr none (i, found, e))
