-- ===== src/Operator/Decision/Guards.antt =====
-- When MakeDecision may answer with an action that is carried out.
use summer_project.Prelude.{
  ℕ, ◌*◌, ◌<◌, Bool, true, false, ◌≡◌, refl, ◌≢◌, inl, inr, Option, none, some, String, arith,
  Bool-cases,
}
use summer_project.Prelude.Int.{pos, ◌<ℤ◌}
use summer_project.Prelude.Text.{str_eq, eq_iff}
use summer_project.Prelude.Float.{Float64}
use summer_project.Operator.Models.{
  Time, Action, prepare_rollback, prepare_restart, prepare_scale, Alert, Policy, Incident, hour,
}
use summer_project.Operator.Reports.{SloReport, BudgetReport, BurnRateReport, Signals}
use summer_project.Operator.Decision.{
  tally_listed, Verdict, make_decision, under_policy, investigate, rules, cascade, target_of,
  is_quiet, burn_of, has_run_out,
}

-- The actions for which a plan is made.
abbrev pub is_active : Action → Bool
is_active prepare_rollback = true
is_active prepare_restart = true
is_active prepare_scale = true
is_active _ = false

module _ (fl : Float64) where
  open fl use {F, lit, lt}

  rules_active :
      (target : String) (failures : ℕ) (slo : Option (SloReport F))
      (budget : Option (BudgetReport F)) (burn : Option (BurnRateReport F)) (v : Verdict fl)
      → is_active (rules fl target failures slo budget burn v).0 ≡ true
      → (failures < 2) × (is_quiet fl burn slo ≡ false)
  unfolding rules
  rules_active target failures slo budget burn v h = ground arith

  -- What is true of the incident and of the target's signals when an action is decided: the limit of
  -- the policy is not reached; fewer than two failures are counted; and a burn rate reported beside
  -- an availability within its target is not below 2.
  pub record Permits (alert : Alert) (incident : Option Incident) (sig : Signals F) (p : Policy)
      : Type 0 where
    pub attempts_left : (i : Incident) → incident ≡ some i → i.recovery_attempts <ℤ p.max_retries
    pub few_failures :
        (tally_listed
          (target_of fl alert (sig.analyze alert.service))
          sig.list_rollbacks).consecutive_failures
        < 2
    pub not_quiet :
        let target = target_of fl alert (sig.analyze alert.service) in
        (b : BurnRateReport F) (s : SloReport F)
        → burn_of fl sig target (sig.evaluate_budget target (pos (24 * hour))) ≡ some b
        → sig.evaluate target ≡ some s
        → s.availability_violated ≡ false
        → lt b.current_burn_rate (lit 2 0) ≡ false

  attempts_lem :
      (incident : Option Incident) (p : Policy)
      → has_run_out incident p ≡ false
      → (i : Incident) → incident ≡ some i
      → i.recovery_attempts <ℤ p.max_retries
  attempts_lem incident p left i e = ground (arith, e)

  quiet_lem :
      (burn : Option (BurnRateReport F)) (slo : Option (SloReport F))
      → is_quiet fl burn slo ≡ false
      → (b : BurnRateReport F) (s : SloReport F) → burn ≡ some b
      → slo ≡ some s
      → s.availability_violated ≡ false
      → lt b.current_burn_rate (lit 2 0) ≡ false
  quiet_lem burn slo loud b s e f fine = ground arith

  investigate_active :
      (now : Time) (version : String) (alert : Alert) (p : Policy) (sig : Signals F)
      → is_active (investigate fl now version alert p sig).entry.decision ≡ true
      → ((tally_listed
            (target_of fl alert (sig.analyze alert.service))
            sig.list_rollbacks).consecutive_failures
          < 2)
        × (let target = target_of fl alert (sig.analyze alert.service) in
            is_quiet fl
              (burn_of fl sig target (sig.evaluate_budget target (pos (24 * hour))))
              (sig.evaluate target)
            ≡ false)
  unfolding investigate
  investigate_active now version alert p sig h =
      let target = target_of fl alert (sig.analyze alert.service) in
      let budget = sig.evaluate_budget target (pos (24 * hour)) in
      rules_active target _ (sig.evaluate target) budget (burn_of fl sig target budget)
        (cascade fl alert p (sig.analyze alert.service)) h

  under_policy_active :
      (now : Time) (version : String) (alert : Alert) (p : Policy) (incident : Option Incident)
      (cooling : Bool) (sig : Signals F)
      → is_active (under_policy fl now version alert p incident cooling sig).entry.decision ≡ true
      → (cooling ≡ false) × Permits alert incident sig p
  unfolding under_policy
  under_policy_active now version alert p incident true sig h = cc
  under_policy_active now version alert p incident false sig h =
      elim (Bool-cases (has_run_out incident p)) [
        | inl out ↦ cc (rw out at h)
        | inr left ↦
            let facts = investigate_active now version alert p sig (rw left at h) in
            (
              refl,
              record {
                attempts_left = attempts_lem incident p left;
                few_failures = facts.0;
                not_quiet = quiet_lem _ _ facts.1;
              },
            )
      ]

  -- An action that is carried out (a rollback, a restart, a scaling) is decided only for an alert that
  -- is not resolved, under a policy, outside the cooldown window, with recovery attempts left, with
  -- fewer than two failed rollbacks of the target since its last success in the listed order, and not
  -- while the burn rate is low and availability is within its target.
  pub decision_guarded :
      (now : Time) (version : String) (alert : Alert) (policy : Option Policy)
      (incident : Option Incident) (cooling : Bool) (sig : Signals F)
      → is_active (make_decision fl now version alert policy incident cooling sig).entry.decision
        ≡ true
      → (alert.status ≢ "resolved")
        × (cooling ≡ false)
        × ((p : Policy) × (policy ≡ some p) × Permits alert incident sig p)
  unfolding make_decision
  decision_guarded now version alert none incident cooling sig h =
      elim (Bool-cases (str_eq alert.status "resolved")) [
        | inl r ↦ cc (rw r at h)
        | inr r ↦ cc (rw r at h)
      ]
  decision_guarded now version alert (some p) incident cooling sig h =
      elim (Bool-cases (str_eq alert.status "resolved")) [
        | inl r ↦ cc (rw r at h)
        | inr r ↦
            let facts = under_policy_active now version alert p incident cooling sig (rw r at h) in
            ((λ e. ground (arith, eq_iff alert.status "resolved")), facts.0, (p, refl, facts.1))
      ]
