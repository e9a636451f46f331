-- ===== src/Operator/Reliability/Scores.antt =====
-- internal/operator/reliability/engine.go: CalculateReliability, over the type of floats.
use summer_project.Prelude.{
  ℕ, zero, suc, ◌*◌, length, Bool, ◌&&◌, if◌then◌else◌, Option, none, some, List, [], ◌∷◌, String,
}
use summer_project.Prelude.Int64.{wrap_int64}
use summer_project.Prelude.Int.{pos, negsuc, ◌+ℤ◌, ◌-ℤ◌, ltb_ℤ}
use summer_project.Prelude.Text.{str_eq}
use summer_project.Prelude.Float.{Float64}
use summer_project.Operator.Models.{Time, Duration, hour, Incident, RollbackHistory}
use summer_project.Operator.Risk.{capped}
use summer_project.Operator.Reliability.{sub_time, is_zero, incidents_of, rollbacks_of}

-- 30 days.
abbrev pub time_window : Duration
time_window = pos (30 * (24 * hour))

-- An incident that has not ended lasts until now.
abbrev pub lasting : Time → Incident → Duration
lasting now i =
    if is_zero i.end_time then sub_time now i.start_time else sub_time i.end_time i.start_time

unfoldable pub downtime : Time → List Incident → Duration → Duration
downtime now [] total = total
downtime now (i ∷ is) total =
    downtime now is
      (if ltb_ℤ (pos 0) (lasting now i) then wrap_int64 (total +ℤ lasting now i) else total)

module _ {A : Type 0} where
  unfoldable pub count : (A → Bool) → List A → ℕ
  count p [] = 0
  count p (x ∷ xs) = let rest = count p xs in if p x then suc rest else rest

abbrev pub is_verified : RollbackHistory → Bool
is_verified r = str_eq r.verification_result "Success"

abbrev pub is_retried : Incident → Bool
is_retried i = ltb_ℤ (pos 1) i.recovery_attempts

abbrev pub is_retry_success : Incident → Bool
is_retry_success i = is_retried i && str_eq i.status "resolved"

module _ (fl : Float64) where
  open fl use {F, lit, add, sub, mul, div, of_ℕ}

  pub record ReliabilityReport : Type 0 where
    pub scope : String
    pub target : String
    pub availability : F
    pub incident_frequency : F
    pub recovery_success_rate : F
    pub rollback_success_rate : F
    pub retry_success_rate : F
    pub deployment_success_rate : F
    pub verification_success_rate : F
    pub slo_compliance : F
    pub reliability_score : F

  -- float64 of a duration.
  abbrev pub of_duration : Duration → F
  of_duration (pos n) = of_ℕ n
  of_duration (negsuc n) = sub (lit 0 0) (of_ℕ (suc n))

  abbrev pub availability_of : Duration → F
  availability_of total =
      if ltb_ℤ total time_window
      then div (of_duration (wrap_int64 (time_window -ℤ total))) (of_duration time_window)
      else lit 0 0

  abbrev pub rate : ℕ → ℕ → F
  rate successes zero = lit 100 0
  rate successes (suc n) = mul (div (of_ℕ successes) (of_ℕ (suc n))) (lit 100 0)

  abbrev score_of : F → F → F → F → F
  score_of availability recovery verification frequency =
      add
        (add (add (mul availability (lit 40 0)) (mul recovery (lit 3 1)))
          (mul verification (lit 15 2)))
        (mul (sub (lit 100 0) (mul frequency (lit 5 0))) (lit 15 2))

  -- Every recorded rollback is counted as one that succeeded.
  abbrev pub reliability_of :
      Time → String → String → List Incident → List RollbackHistory → ReliabilityReport
  reliability_of now scope target is rs =
      let availability = availability_of (downtime now is (pos 0)) in
      let frequency = of_ℕ (length is) in
      let recovery = rate (count is_verified rs) (length rs) in
      let verification = rate (count is_verified rs) (length rs) in
      record {
        scope = scope;
        target = target;
        availability = availability;
        incident_frequency = frequency;
        recovery_success_rate = recovery;
        rollback_success_rate = rate (length rs) (length rs);
        retry_success_rate = rate (count is_retry_success is) (count is_retried is);
        deployment_success_rate = lit 95 0;
        verification_success_rate = verification;
        slo_compliance = mul availability (lit 100 0);
        reliability_score = capped fl (score_of availability recovery verification frequency);
      }

  unfoldable pub calculate_reliability :
      Time
      → Option (List Incident)
      → Option (List RollbackHistory)
      → String
      → String
      → Option ReliabilityReport
  calculate_reliability now none rollbacks scope target = none
  calculate_reliability now (some is) none scope target = none
  calculate_reliability now (some is) (some rs) scope target = some (
      reliability_of now scope target (incidents_of scope target is) (rollbacks_of scope target rs))
