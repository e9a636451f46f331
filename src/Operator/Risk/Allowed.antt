-- ===== src/Operator/Risk/Allowed.antt =====
-- internal/operator/progressive/guard.go: when a deployment is allowed.
use summer_project.Prelude.{
  ◌*◌, Bool, true, false, ◌≡◌, ◌≢◌, refl, sym, subst, inl, inr, ◌↔◌, Option, none, some, List, [],
  ◌∷◌, String, arith, Bool-cases,
}
use summer_project.Prelude.Int.{pos}
use summer_project.Prelude.Text.{eq_iff}
use summer_project.Prelude.Float.{Float64}
use summer_project.Operator.Models.{Incident, hour}
use summer_project.Operator.Reports.{SloReport, BudgetReport, BurnRateReport, Signals}
use summer_project.Operator.Dependency.{has}
use summer_project.Operator.Dependency.Search.{has-cons}
use summer_project.Operator.Risk.{
  returned, panicked, DeploymentGuardConfig, blocking, is_violating, violating, blocked,
  by_dependency, by_burn_rate, by_budget, by_incident, evaluate_guard, Answer,
}
use summer_project.Operator.Risk.Ongoing.{Calm, Hindered, blocking-Calm, blocking-Hindered}

module _ (fl : Float64) where
  open fl use {F, lit, lt}

  violating-none :
      (evaluate : String → Option (SloReport F)) (names : List String)
      → (violating fl evaluate names ≡ none)
        ↔ ((x : String) → has x names ≡ true → is_violating fl (evaluate x) ≡ false)
  unfolding violating
  violating-none evaluate [] = (λ _ x m. cc m, λ _. refl)
  violating-none evaluate (y ∷ ys) = elim (Bool-cases (is_violating fl (evaluate y))) [
    | inl bad ↦
        rw bad (λ h. absurd (cc h), λ all. absurd (cc (bad, all y (ground (arith, eq_iff y y)))))
    | inr fine ↦ rw fine (
      λ h x m. elim (has-cons x y ys m) [
        | inl at ↦ subst (λ z. is_violating fl (evaluate z) ≡ false) (sym at) fine
        | inr later ↦ (violating-none evaluate ys).0 h x later
      ],
      λ all. (violating-none evaluate ys).1 (λ x m. all x (ground arith)),
    )
  ]

  -- What lets a deployment of a service start.
  pub record Passes (cfg : DeploymentGuardConfig fl) (sig : Signals F) (downstream : List String)
      (active : Option (List Incident)) (service : String) (b : BudgetReport F) : Type 0 where
    pub unhindered : Calm fl cfg active service
    pub budgeted : sig.evaluate_budget service (pos (24 * hour)) ≡ some b
    pub enough_left : lt b.remaining_percent cfg.min_remaining_budget ≡ false
    pub slow_enough :
        (r : BurnRateReport F)
        → sig.calculate_burn_rate service (pos hour) b.remaining_percent ≡ some r
        → lt cfg.max_allowed_burn_rate r.current_burn_rate ≡ false
    pub sound_below :
        (x : String) → has x downstream ≡ true → is_violating fl (sig.evaluate x) ≡ false

  abbrev pub is_allowed : Answer fl → Bool
  is_allowed (returned (b, text)) = b
  is_allowed panicked = false

  by_dependency_lem : (ds : Option String) → (is_allowed (by_dependency fl ds) ≡ true) ↔ (ds ≡ none)
  unfolding by_dependency blocked
  by_dependency_lem none = (λ _. refl, λ _. refl)
  by_dependency_lem (some ds) = (λ h. cc h, λ h. cc h)

  by_dependency-ne-panicked : (ds : Option String) → by_dependency fl ds ≢ panicked
  unfolding by_dependency blocked
  by_dependency-ne-panicked none h = cc h
  by_dependency-ne-panicked (some ds) h = cc h

  abbrev IsSlow : DeploymentGuardConfig fl → Option (BurnRateReport F) → Type 0
  IsSlow cfg burn =
      (r : BurnRateReport F)
      → burn ≡ some r
      → lt cfg.max_allowed_burn_rate r.current_burn_rate ≡ false

  by_burn_rate_lem :
      (cfg : DeploymentGuardConfig fl) (burn : Option (BurnRateReport F)) (ds : Option String)
      → ((is_allowed (by_burn_rate fl cfg burn ds) ≡ true) ↔ (IsSlow cfg burn × (ds ≡ none)))
        × (by_burn_rate fl cfg burn ds ≢ panicked)
  unfolding by_burn_rate blocked
  by_burn_rate_lem cfg none ds = (
    (λ h. (λ r e. cc e, (by_dependency_lem ds).0 h), λ (slow, e). (by_dependency_lem ds).1 e),
    by_dependency-ne-panicked ds,
  )
  by_burn_rate_lem cfg (some burn) ds =
      elim (Bool-cases (lt cfg.max_allowed_burn_rate burn.current_burn_rate)) [
        | inl fast ↦
            rw fast ((λ h. absurd (cc h), λ (slow, e). cc (fast, slow burn refl)), λ h. cc h)
        | inr slow ↦ rw slow (
          (
            λ h. (λ r e. ground (arith, e, slow), (by_dependency_lem ds).0 h),
            λ (_, e). (by_dependency_lem ds).1 e,
          ),
          by_dependency-ne-panicked ds,
        )
      ]

  module _ (cfg : DeploymentGuardConfig fl) (sig : Signals F) (downstream : List String)
      (active : Option (List Incident)) (service : String) where
    by_budget_lem :
        (b : BudgetReport F)
        → Calm fl cfg active service
        → sig.evaluate_budget service (pos (24 * hour)) ≡ some b
        → ((is_allowed (by_budget fl cfg sig service downstream (some b)) ≡ true)
            ↔ Passes cfg sig downstream active service b)
          × (by_budget fl cfg sig service downstream (some b) ≢ panicked)
    unfolding by_budget blocked
    by_budget_lem b calm reported =
        elim (Bool-cases (lt b.remaining_percent cfg.min_remaining_budget)) [
          | inl low ↦ rw low ((λ h. absurd (cc h), λ p. cc (low, p.enough_left)), λ h. cc h)
          | inr enough ↦
              let burn = sig.calculate_burn_rate service (pos hour) b.remaining_percent in
              let ((pass, pass'), runs) =
                by_burn_rate_lem cfg burn (violating fl sig.evaluate downstream) in
              let (sound, sound') = violating-none sig.evaluate downstream in
              rw enough (
                (
                  λ h.
                      let (slow, clear) = pass h in
                      record {
                        unhindered = calm;
                        budgeted = reported;
                        enough_left = enough;
                        slow_enough = slow;
                        sound_below = sound clear;
                      },
                  λ p. pass' (p.slow_enough, sound' p.sound_below),
                ),
                runs,
              )
        ]

    -- What the guard comes to: by whether an incident hinders, and whether there is a budget report.
    pub data GuardEnd (a : Answer fl) : Type 0 where
      hindered : Hindered fl cfg active service → is_allowed a ≡ false → a ≢ panicked → GuardEnd a
      nil_read :
          Calm fl cfg active service
          → sig.evaluate_budget service (pos (24 * hour)) ≡ none
          → a ≡ panicked
          → GuardEnd a
      weighed :
          (b : BudgetReport F)
          → sig.evaluate_budget service (pos (24 * hour)) ≡ some b
          → ((is_allowed a ≡ true) ↔ Passes cfg sig downstream active service b)
          → a ≢ panicked
          → GuardEnd a

    by_incident-GuardEnd :
        (i : Option Incident) (b : Option (BudgetReport F))
        → blocking fl cfg service active ≡ i
        → sig.evaluate_budget service (pos (24 * hour)) ≡ b
        → GuardEnd (by_incident fl cfg sig service downstream i)
    unfolding by_incident by_budget blocked
    by_incident-GuardEnd (some i) b calm reported =
        hindered (blocking-Hindered fl cfg active service i calm) refl (λ h. cc h)
    by_incident-GuardEnd none none calm reported =
        nil_read (blocking-Calm fl cfg active service calm) reported (rw (reported, by_budget))
    by_incident-GuardEnd none (some b) calm reported =
        let (pass, runs) = by_budget_lem b (blocking-Calm fl cfg active service calm) reported in
        rw (reported, by_budget) (weighed b reported pass runs)

    -- The guard answers no while an incident of the service that is not healthy hinders it. Else it reads
    -- a nil pointer if the budget cannot be evaluated, and otherwise allows the deployment exactly if
    -- enough of the budget is left, no reported burn rate is above the limit, and no downstream service is
    -- reported to violate a target.
    pub evaluate_guard-GuardEnd : GuardEnd (evaluate_guard fl cfg sig downstream active service)
    unfolding evaluate_guard
    evaluate_guard-GuardEnd = by_incident-GuardEnd _ _ refl refl
