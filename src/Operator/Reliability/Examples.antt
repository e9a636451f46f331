-- ===== src/Operator/Reliability/Examples.antt =====
-- Reports of internal/operator/reliability/engine.go, and the theorems at them.
use summer_project.Prelude.{◌*◌, ◌^◌, ◌≡◌, refl, Option, none, some, List, [], ◌∷◌}
use summer_project.Prelude.Int64.{wrap_int64}
use summer_project.Prelude.Int.{ℤ, pos, negsuc, ◌+ℤ◌, ◌-ℤ◌}
use summer_project.Operator.Models.{Time, second, healthy, Incident, RollbackHistory}
use summer_project.Operator.Samples.{incident_in, rollback_of}
use summer_project.Operator.Reliability.{
  MttrReport, calculate_mttr, kept, gather, investigated_at, inv_start, decision_time, sweep,
  exchange_sort, neighbours,
}
use summer_project.Prelude.Milli.{milli}
use summer_project.Operator.Reliability.Scores.{
  ReliabilityReport, count, downtime, calculate_reliability,
}
use summer_project.Operator.Reliability.Figures.{MttrEnd, calculate_mttr-MttrEnd}

abbrev incident_at : Time → Time → Incident
incident_at start end = record (incident_in healthy) {
  start_time = start;
  end_time = end;
  last_update = end;
  status = "resolved";
}

-- The later one is listed first; between them the service is up for 40 nanoseconds.
abbrev incidents : List Incident
incidents = incident_at (pos 200) (pos 230) ∷ incident_at (pos 150) (pos 160) ∷ []

mtbf_test :
    calculate_mttr (some incidents) (some []) "cluster" ""
    ≡ some (record {
      scope = "cluster";
      target = "";
      mttd = pos 20;
      mttr = pos 20;
      mtbf = pos 40;
      average_rollback_time = pos (45 * second);
      average_verification_time = pos (30 * second);
      average_recovery_time = pos (75 * second);
      average_investigation_time = pos (15 * second);
    })
unfolding calculate_mttr kept gather investigated_at inv_start decision_time sweep exchange_sort
    neighbours ◌+ℤ◌ ◌-ℤ◌ wrap_int64
mtbf_test = refl

-- Two incidents of which nothing is heard for more than 292 years give two samples of 2^63 - 1.
abbrev ancient : Incident
ancient = record (incident_at (pos 1) (pos (2 ^ 64))) { last_update = pos (2 ^ 64) }

abbrev mttd_of : Option MttrReport → Option ℤ
mttd_of none = none
mttd_of (some r) = some r.mttd

wrapped_test :
    mttd_of (calculate_mttr (some (ancient ∷ ancient ∷ [])) (some []) "cluster" "")
    ≡ some (negsuc 0)
unfolding calculate_mttr kept gather investigated_at inv_start decision_time sweep exchange_sort
    neighbours ◌+ℤ◌ ◌-ℤ◌ wrap_int64
wrapped_test = refl

calculate_mttr-MttrEnd_example :
    MttrEnd
      (some incidents)
      (some (rollback_of "order-service" "Success" ∷ []))
      "service"
      "order-service"
      (calculate_mttr
        (some incidents)
        (some (rollback_of "order-service" "Success" ∷ []))
        "service"
        "order-service")
calculate_mttr-MttrEnd_example =
    calculate_mttr-MttrEnd (some incidents) (some (rollback_of "order-service" "Success" ∷ []))
      "service" "order-service"

-- One of two recorded rollbacks failed: the recoveries count one success, the rollbacks two.
abbrev rollbacks : List RollbackHistory
rollbacks = rollback_of "order-service" "Success" ∷ rollback_of "order-service" "Failed" ∷ []

abbrev rates_of : Option (ReliabilityReport milli) → ℤ × ℤ
rates_of none = (pos 0, pos 0)
rates_of (some r) = (r.recovery_success_rate, r.rollback_success_rate)

rates_test :
    rates_of (
      calculate_reliability milli
        (pos 1000)
        (some incidents)
        (some rollbacks)
        "service"
        "order-service")
    ≡ (pos 50_000, pos 100_000)
unfolding calculate_reliability kept count downtime ◌+ℤ◌ ◌-ℤ◌ wrap_int64
rates_test = refl
