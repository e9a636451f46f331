-- ===== src/Operator/Reliability/Figures.antt =====
-- internal/operator/reliability/engine.go: the report of CalculateMTTR, on every answer of the stores.
use summer_project.Prelude.{
  ◌*◌, Bool, true, false, if◌then◌else◌, ◌≡◌, refl, ◌⊎◌, inl, inr, Option, none, some, List, [],
  ◌∷◌, String, arith, All, Bool-cases, Option-cases,
}
use summer_project.Prelude.Int64.{saturated-not_negative}
use summer_project.Prelude.Int.{pos, -ℤ_parts, ◌-ℤ◌, ◌≤ℤ◌, ltb_ℤ}
use summer_project.Operator.Models.{Duration, minute, hour, second, Incident, RollbackHistory}
use summer_project.Operator.Reliability.{
  MttrReport, sub_time, is_zero, incidents_of, rollbacks_of, positive, detection_time, not_negative,
  detection, repair, inv_start, decision_time, investigation, sorted_by_start, neighbours, uptime,
  ended_at, recovery, rollback, verification, report_of, calculate_mttr,
}
use summer_project.Operator.Reliability.Sorting.{
  IsSorted, sorted_by_start-IsSorted, sorted_by_start-perm,
}
use summer_project.Operator.Reliability.Means.{samples, IsMean, mean-IsMean}
use mathlib.Core.List.{Perm}

-- No sample is negative.
abbrev IsCounted : Option Duration → Type 0
IsCounted none = Unit
IsCounted (some d) = pos 0 ≤ℤ d

positive-IsCounted : (d : Duration) → IsCounted (positive d)
positive-IsCounted d = elim (Bool-cases (ltb_ℤ (pos 0) d)) [
  | inl more ↦ rw more (ground (arith, more))
  | inr not_more ↦ rw not_more tt
]

not_negative-IsCounted :
    (b : Bool) (d : Duration) → IsCounted (if b then none else some (not_negative d))
not_negative-IsCounted true d = tt
not_negative-IsCounted false d = elim (Bool-cases (ltb_ℤ d (pos 0))) [
  | inl less ↦ rw less (omega arith)
  | inr not_less ↦ rw not_less (ground (arith, not_less))
]

guarded-IsCounted : (b : Bool) (d : Duration) → IsCounted (if b then positive d else none)
guarded-IsCounted true d = positive-IsCounted d
guarded-IsCounted false d = tt

recovery-IsCounted : (r : RollbackHistory) → IsCounted (recovery r)
recovery-IsCounted r = elim (Bool-cases (ltb_ℤ r.start_time r.finish_time)) [
  | inl later ↦ rw later (
      saturated-not_negative (r.finish_time -ℤ r.start_time)
        (ground (arith, later, -ℤ_parts r.finish_time r.start_time)))
  | inr not_later ↦ rw not_later tt
]

samples-All :
    {A : Type 0} (sample : A → Option Duration) (xs : List A)
    → ((x : A) → IsCounted (sample x))
    → All (λ d. pos 0 ≤ℤ d) (samples sample xs)
samples-All sample [] counted = tt
samples-All sample (x ∷ xs) counted = elim (Option-cases (sample x)) [
  | inl missing ↦ rw (missing, samples) (samples-All sample xs counted)
  | inr (d, found) ↦ rw (found, samples) (rw found at (counted x), samples-All sample xs counted)
]

-- What a report says of the incidents and the rollbacks in its scope.
pub record Says (is : List Incident) (rs : List RollbackHistory) (r : MttrReport) : Type 0 where
  pub sorted : List Incident
  pub ascending : IsSorted sorted
  pub rearranged : Perm sorted is
  pub of_detection : IsMean (pos minute) (samples detection is) r.mttd
  pub of_repair : IsMean (pos (5 * minute)) (samples repair is) r.mttr
  pub of_uptime : IsMean (pos (24 * hour)) (samples uptime (neighbours sorted)) r.mtbf
  pub of_rollback : IsMean (pos (45 * second)) (samples rollback rs) r.average_rollback_time
  pub of_verification :
      IsMean (pos (30 * second)) (samples verification rs) r.average_verification_time
  pub of_recovery : IsMean (pos (75 * second)) (samples recovery rs) r.average_recovery_time
  pub of_investigation :
      IsMean (pos (15 * second)) (samples investigation is) r.average_investigation_time
  pub none_negative : All (All (λ d. pos 0 ≤ℤ d)) (
      samples detection is
      ∷ samples repair is
      ∷ samples uptime (neighbours sorted)
      ∷ samples rollback rs
      ∷ samples verification rs
      ∷ samples recovery rs
      ∷ samples investigation is
      ∷ [])

report_of-Says :
    (scope target : String) (is : List Incident) (rs : List RollbackHistory)
    → Says is rs (report_of scope target is rs)
report_of-Says scope target is rs = record {
  sorted = sorted_by_start is;
  ascending = sorted_by_start-IsSorted is;
  rearranged = sorted_by_start-perm is;
  of_detection = mean-IsMean _ detection is;
  of_repair = mean-IsMean _ repair is;
  of_uptime = mean-IsMean _ uptime (neighbours (sorted_by_start is));
  of_rollback = mean-IsMean _ rollback rs;
  of_verification = mean-IsMean _ verification rs;
  of_recovery = mean-IsMean _ recovery rs;
  of_investigation = mean-IsMean _ investigation is;
  none_negative = (
    samples-All detection is
        (λ i. not_negative-IsCounted (is_zero i.start_time) (detection_time i)),
    (
      samples-All repair is (λ i. guarded-IsCounted _ (sub_time i.end_time i.start_time)),
      (
        samples-All uptime (neighbours (sorted_by_start is))
            (λ (x, y). positive-IsCounted (sub_time y.start_time (ended_at x))),
        (
          samples-All rollback rs (λ r. positive-IsCounted r.recovery_duration),
          (
            samples-All verification rs (λ r. positive-IsCounted _),
            (
              samples-All recovery rs recovery-IsCounted,
              (
                samples-All investigation is (λ i.
                    guarded-IsCounted _
                      (sub_time (decision_time (pos 0) i.history) (inv_start (pos 0) i.history))),
                tt,
              ),
            ),
          ),
        ),
      ),
    ),
  );
}

pub data MttrEnd (incidents : Option (List Incident)) (rollbacks : Option (List RollbackHistory))
    (scope target : String) (answer : Option MttrReport) : Type 0 where
  failed :
      (incidents ≡ none) ⊎ (rollbacks ≡ none)
      → answer ≡ none
      → MttrEnd incidents rollbacks scope target answer
  reported :
      (is : List Incident) (rs : List RollbackHistory) (r : MttrReport)
      → incidents ≡ some is
      → rollbacks ≡ some rs
      → answer ≡ some r
      → Says (incidents_of scope target is) (rollbacks_of scope target rs) r
      → MttrEnd incidents rollbacks scope target answer

-- CalculateMTTR fails exactly where a store does. Else each figure of its report is the default if nothing
-- in the scope has a sample of it, and otherwise, if as many times the greatest of its samples as there are
-- samples fit in an int64, no less than the least of them and no more than the greatest; the uptimes are
-- those between neighbours of the incidents in ascending order of their start; and no sample is negative.
pub calculate_mttr-MttrEnd :
    (incidents : Option (List Incident)) (rollbacks : Option (List RollbackHistory))
    (scope target : String)
    → MttrEnd incidents rollbacks scope target (calculate_mttr incidents rollbacks scope target)
unfolding calculate_mttr
calculate_mttr-MttrEnd none rollbacks scope target = failed (inl refl) refl
calculate_mttr-MttrEnd (some is) none scope target = failed (inr refl) refl
calculate_mttr-MttrEnd (some is) (some rs) scope target =
    reported is rs _ refl refl refl (report_of-Says scope target _ _)
