-- ===== src/Operator/Reliability/Ratings.antt =====
-- internal/operator/reliability/engine.go: what a report of CalculateReliability can say.
use summer_project.Prelude.{
  ◌≤◌, Bool, true, false, ◌≡◌, refl, ap, inl, inr, ◌⊎◌, Option, none, some, List, [], ◌∷◌, String,
  arith, length, Bool-cases,
}
use summer_project.Prelude.Int.{pos, ◌≤ℤ◌, ltb_ℤ}
use summer_project.Prelude.Float.{Float64}
use summer_project.Operator.Models.{Time, Duration, Incident, RollbackHistory}
use summer_project.Operator.Risk.Bounds.{capped-not-above, capped-not-below}
use summer_project.Operator.Reliability.{incidents_of, rollbacks_of}
use summer_project.Operator.Reliability.Scores.{
  time_window, downtime, count, is_verified, is_retried, is_retry_success, ReliabilityReport,
  availability_of, rate, reliability_of, calculate_reliability,
}

count_le_length : {A : Type 0} (p : A → Bool) (xs : List A) → count p xs ≤ length xs
unfolding count
count_le_length p [] = omega arith
count_le_length p (x ∷ xs) = elim (Bool-cases (p x)) [
  | inl hit ↦ rw hit (omega (arith, count_le_length p xs))
  | inr miss ↦ rw miss (omega (arith, count_le_length p xs))
]

count_mono :
    {A : Type 0} (p q : A → Bool) (xs : List A)
    → ((x : A) → p x ≡ true → q x ≡ true)
    → count p xs ≤ count q xs
unfolding count
count_mono p q [] h = omega arith
count_mono p q (x ∷ xs) h = elim (Bool-cases (p x)) [
  | inl hit ↦ rw (hit, h x hit) (omega (arith, count_mono p q xs h))
  | inr miss ↦ elim (Bool-cases (q x)) [
    | inl other ↦ rw (miss, other) (omega (arith, count_mono p q xs h))
    | inr neither ↦ rw (miss, neither) (count_mono p q xs h)
  ]
]

module _ (fl : Float64) where
  open fl use {F, lit, lt, mul}

  -- What a report says of the incidents and the rollbacks in its scope.
  pub record Rates (now : Time) (scope target : String) (is : List Incident)
      (rs : List RollbackHistory) (r : ReliabilityReport fl) : Type 0 where
    pub not_above : lt (lit 100 0) r.reliability_score ≡ false
    pub not_below : lt r.reliability_score (lit 0 0) ≡ false
    pub gone : time_window ≤ℤ downtime now is (pos 0) → r.availability ≡ lit 0 0
    pub compliance : r.slo_compliance ≡ mul r.availability (lit 100 0)
    pub no_more : count is_verified rs ≤ length rs
    pub of_recovery : r.recovery_success_rate ≡ rate fl (count is_verified rs) (length rs)
    pub of_verification : r.verification_success_rate ≡ r.recovery_success_rate
    pub no_more_retries : count is_retry_success is ≤ count is_retried is
    pub of_retries :
        r.retry_success_rate ≡ rate fl (count is_retry_success is) (count is_retried is)
    pub blind :
        (others : List RollbackHistory)
        → length others ≡ length rs
        → (reliability_of fl now scope target is others).rollback_success_rate
          ≡ r.rollback_success_rate

  pub data ReliabilityEnd (now : Time) (incidents : Option (List Incident))
      (rollbacks : Option (List RollbackHistory)) (scope target : String)
      (answer : Option (ReliabilityReport fl)) : Type 0 where
    failed :
        (incidents ≡ none) ⊎ (rollbacks ≡ none)
        → answer ≡ none
        → ReliabilityEnd now incidents rollbacks scope target answer
    reported :
        (is : List Incident) (rs : List RollbackHistory) (r : ReliabilityReport fl)
        → incidents ≡ some is
        → rollbacks ≡ some rs
        → answer ≡ some r
        → Rates now scope target (incidents_of scope target is) (rollbacks_of scope target rs) r
        → ReliabilityEnd now incidents rollbacks scope target answer

  availability_gone : (total : Duration) → time_window ≤ℤ total → availability_of fl total ≡ lit 0 0
  availability_gone total h = elim (Bool-cases (ltb_ℤ total time_window)) [
    | inl less ↦ absurd (ground (arith, h, less))
    | inr not_less ↦ rw not_less refl
  ]

  reliability_of-Rates :
      (now : Time) (scope target : String) (is : List Incident) (rs : List RollbackHistory)
      → Rates now scope target is rs (reliability_of fl now scope target is rs)
  reliability_of-Rates now scope target is rs = record {
    not_above = capped-not-above fl _;
    not_below = capped-not-below fl _;
    gone = availability_gone (downtime now is (pos 0));
    compliance = refl;
    no_more = count_le_length is_verified rs;
    of_recovery = refl;
    of_verification = refl;
    no_more_retries = count_mono is_retry_success is_retried is (λ i h. ground (arith, h));
    of_retries = refl;
    blind = λ others same. ap (λ n. rate fl n n) same;
  }

  -- CalculateReliability fails exactly where a store does. Else its score is neither above 100 nor below 0;
  -- the availability is 0 where the total of the downtimes, which wraps, fills the window; the rates of
  -- recoveries and of retries count no more successes than there are of them, and the rate of verifications
  -- is that of recoveries; and the rate of rollbacks depends on their number alone, not on their results.
  pub calculate_reliability-ReliabilityEnd :
      (now : Time) (incidents : Option (List Incident)) (rollbacks : Option (List RollbackHistory))
      (scope target : String)
      → ReliabilityEnd now incidents rollbacks scope target
          (calculate_reliability fl now incidents rollbacks scope target)
  unfolding calculate_reliability
  calculate_reliability-ReliabilityEnd now none rollbacks scope target = failed (inl refl) refl
  calculate_reliability-ReliabilityEnd now (some is) none scope target = failed (inr refl) refl
  calculate_reliability-ReliabilityEnd now (some is) (some rs) scope target =
      reported is rs _ refl refl refl (reliability_of-Rates now scope target _ _)
