-- ===== src/Operator/Pipeline/Verified.antt =====
-- internal/operator/incident/manager.go and internal/operator/verification/engine.go: what a recovery that is
-- recorded as a success has been verified by.
use summer_project.Prelude.{
  ℕ, zero, suc, Bool, true, false, ◌||◌, ◌≡◌, refl, ◌⊎◌, inl, inr, Option, none, some, List, [],
  ◌∷◌, ◌++◌, String, map, Bool-cases,
}
use summer_project.Prelude.Int.{ℤ}
use summer_project.Prelude.Float.{Float64}
use summer_project.Operator.Models.{Time, Incident, RecoveryPlan, RecoveryResult, RollbackHistory}
use summer_project.Operator.Helm.{Result}
use summer_project.Operator.Incidents.{Store}
use summer_project.Operator.Retry.{is_transient}
use summer_project.Operator.Cooldown.{CooldownManager, try_start_execution}
use summer_project.Operator.Executor.{HelmClient, execute}
use summer_project.Operator.Verification.{Cluster, verify_health_and_slo}
use summer_project.Operator.Verification.Health.{IsUp, IsQuiet, verify_health_and_slo_iff}
use summer_project.Operator.Pipeline.{
  Attempt, Run, End, verified, exhausted, Next, done, again, any_passed, retry_move, verify_attempt,
  after_execution, executed, next_attempt, attempts, Pipeline, Coordinate, finish, gated,
  run_recovery_pipeline,
}

-- An end without a passed check is no success.
abbrev EndBy : (ℕ → Attempt) → End → Type 0
EndBy inputs (verified run result) =
    (k : ℕ) × (((inputs k).first_check || any_passed (inputs k).checks) ≡ true)
EndBy inputs (exhausted run result) = Unit

abbrev NextBy : (ℕ → Attempt) → Next → Type 0
NextBy inputs (done end) = EndBy inputs end
NextBy inputs (again run last result) = Unit

verify_attempt-NextBy :
    (text : String) (inputs : ℕ → Attempt) (k : ℕ) (run : Run) (result : Option RecoveryResult)
    → NextBy inputs (verify_attempt text (inputs k) run result)
unfolding verify_attempt
verify_attempt-NextBy text inputs k run result =
    elim (Bool-cases ((inputs k).first_check || any_passed (inputs k).checks)) [
      | inl passed ↦ rw passed (k, passed)
      | inr not_passed ↦ rw not_passed tt
    ]

after_execution-NextBy :
    (text : String) (inputs : ℕ → Attempt) (k : ℕ) (run : Run) (result : Option RecoveryResult)
    (e : Option String)
    → NextBy inputs (after_execution text (inputs k) run result e)
unfolding after_execution
after_execution-NextBy text inputs k run result none =
    verify_attempt-NextBy text inputs k run result
after_execution-NextBy text inputs k run result (some e) =
    elim (Bool-cases (is_transient (some e))) [
      | inl passing ↦ rw passing tt
      | inr final ↦ rw final tt
    ]

attempts-EndBy :
    (text env : String) (inputs : ℕ → Attempt) (n k : ℕ) (next : Next)
    → NextBy inputs next
    → EndBy inputs (attempts text env inputs n k next)
unfolding attempts next_attempt
attempts-EndBy text env inputs n k (done end) by = by
attempts-EndBy text env inputs zero k (again run last result) by = tt
attempts-EndBy text env inputs (suc n) k (again run last result) by =
    let a = inputs k in
    let begun = retry_move k a.retried_at run last in
    let x = execute a.started_at a.ended_at env a.helm begun.plan begun.incident in
    attempts-EndBy text env inputs n (suc k) _
      (after_execution-NextBy text inputs k (executed begun x) x.result x.error)

module _ (fl : Float64) where
  open fl use {F}

  -- What one health check meets.
  pub record Check : Type 0 where
    pub cluster : Cluster
    pub client : Option (String → Result F)

  -- An attempt whose health checks are those of the verification engine.
  pub record Sight : Type 0 where
    pub retried_at : Time
    pub started_at : Time
    pub ended_at : Time
    pub verified_at : Time
    pub helm : HelmClient
    pub first : Check
    pub later : List Check

  abbrev pub passes : String → Check → Bool
  passes alert_name c = (verify_health_and_slo fl c.cluster c.client alert_name).0

  abbrev pub attempt_of : String → Sight → Attempt
  attempt_of alert_name s = record {
    retried_at = s.retried_at;
    started_at = s.started_at;
    ended_at = s.ended_at;
    verified_at = s.verified_at;
    helm = s.helm;
    first_check = passes alert_name s.first;
    checks = map (passes alert_name) s.later;
  }

  abbrev pub Among : Check → List Check → Type 0
  Among c [] = ⊥
  Among c (d ∷ ds) = (c ≡ d) ⊎ Among c ds

  abbrev Passed : String → List Check → Type 0
  Passed alert_name cs = (c : Check) × Among c cs × (passes alert_name c ≡ true)

  any_passed-Passed :
      (alert_name : String) (cs : List Check)
      → any_passed (map (passes alert_name) cs) ≡ true
      → Passed alert_name cs
  any_passed-Passed alert_name [] h = cc h
  any_passed-Passed alert_name (c ∷ cs) h = elim (Bool-cases (passes alert_name c)) [
    | inl good ↦ (c, inl refl, good)
    | inr bad ↦
        let (d, there, good) = any_passed-Passed alert_name cs (rw bad at h) in (d, inr there, good)
  ]

  pub data RecordedBy (alert_name : String) (sights : ℕ → Sight) (rollbacks : List RollbackHistory)
      (p : Pipeline) : Type 0 where
    nothing : p.rollbacks ≡ rollbacks → RecordedBy alert_name sights rollbacks p
    failure :
        (entry : RollbackHistory)
        → p.rollbacks ≡ rollbacks ++ entry ∷ []
        → entry.verification_result ≡ "Failed"
        → RecordedBy alert_name sights rollbacks p
    success :
        (entry : RollbackHistory)
        → p.rollbacks ≡ rollbacks ++ entry ∷ []
        → entry.verification_result ≡ "Success"
        → (k : ℕ) (c : Check) → Among c ((sights k).first ∷ (sights k).later)
        → IsUp c.cluster
        → IsQuiet fl c.client alert_name
        → RecordedBy alert_name sights rollbacks p

  module _ (alert_name : String) (sights : ℕ → Sight) (coordinator : Option Coordinate) where
    abbrev inputs : ℕ → Attempt
    inputs k = attempt_of alert_name (sights k)

    finish-RecordedBy :
        (start end : Time) (namespace : String) (cm : CooldownManager)
        (rollbacks : List RollbackHistory) (e : End)
        → EndBy inputs e
        → RecordedBy alert_name sights rollbacks
            (finish coordinator start end namespace cm rollbacks e)
    unfolding finish
    finish-RecordedBy start end namespace cm rollbacks (exhausted run result) by =
        failure _ refl refl
    finish-RecordedBy start end namespace cm rollbacks (verified run result) (k, passed) =
        let cs = (sights k).first ∷ (sights k).later in
        let (c, there, good) = any_passed-Passed alert_name cs passed in
        let (up, quiet) = (verify_health_and_slo_iff fl c.cluster c.client alert_name).0 good in
        success _ refl refl k c there up quiet

    gated-RecordedBy :
        (text env : String) (start end : Time) (rollbacks : List RollbackHistory) (run : Run)
        (gate : CooldownManager × Bool × ℤ)
        → RecordedBy alert_name sights rollbacks
            (gated coordinator text env inputs start end rollbacks run gate)
    unfolding gated
    gated-RecordedBy text env start end rollbacks run (cm, false, left) = nothing refl
    gated-RecordedBy text env start end rollbacks run (cm, true, left) =
        finish-RecordedBy start end _ cm rollbacks _
          (attempts-EndBy text env inputs _ 1 (again run none none) tt)

  -- A recovery pipeline puts a success into the rollback history only after a health check, in one of its
  -- attempts, at which Kubernetes answered that the service is up and an attached client of Prometheus did not
  -- answer that the alert still fires; else it records a failure or nothing.
  pub run_recovery_pipeline-RecordedBy :
      (sights : ℕ → Sight) (coordinator : Option Coordinate) (text env : String) (start end : Time)
      (cm : CooldownManager) (store : Store) (rollbacks : List RollbackHistory) (i : Incident)
      (plan : RecoveryPlan)
      → RecordedBy i.alert_name sights rollbacks (
          run_recovery_pipeline coordinator text env
            (λ k. attempt_of i.alert_name (sights k))
            start
            end
            cm
            store
            rollbacks
            i
            plan)
  unfolding run_recovery_pipeline
  run_recovery_pipeline-RecordedBy sights coordinator text env start end cm store rollbacks i plan =
      gated-RecordedBy i.alert_name sights coordinator text env start end rollbacks
        (record { plan = plan; incident = i; store = store; requests = [] })
        (try_start_execution start cm plan.service_id plan.cooldown)
