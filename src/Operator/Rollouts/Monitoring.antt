-- ===== src/Operator/Rollouts/Monitoring.antt =====
-- internal/operator/progressive/manager.go: what one call of MonitorRollout does.
use summer_project.Prelude.{
  ℕ, Bool, true, false, ◌≡◌, ◌≢◌, refl, inl, inr, Option, none, some, [], ◌∷◌, String, arith,
  Bool-cases, Option-cases,
}
use summer_project.Prelude.Int.{pos, ◌≤ℤ◌, ◌<ℤ◌, leb_ℤ}
use summer_project.Prelude.Maps.{lookup}
use summer_project.Operator.Models.{Time}
use summer_project.Operator.Rollouts.{
  promoting, paused, completed, aborted, DeploymentHistory, get_elem?, run_key, DeliveryManager,
  Monitored, RolloutDetails, Told, abort_rollout, promote_rollout, pause_rollout, helm_rollback,
  quiet, with_record, closed, is_verified, after_analysis, transition, followed, settle, monitor_at,
  monitor_rollout,
}

module _ {F : Type 0} (now : Time) (key : String) (told : Told) (dm : DeliveryManager F) where
  -- The rollout goes on: Argo has not aborted it, and it does not carry all traffic.
  pub record IsUnderWay (ro : RolloutDetails) : Type 0 where
    pub seen : told.rollout ≡ some ro
    pub not_aborted : ro.is_aborted ≡ false
    pub partial : ro.current_weight <ℤ pos 100

  -- What a call does with the record of the run.
  pub data Change (at : ℕ) (r : DeploymentHistory F) (m : Monitored F) : Type 0 where
    argo_aborted :
        (ro : RolloutDetails)
        → told.rollout ≡ some ro
        → ro.is_aborted ≡ true
        → m ≡ quiet (closed now key at aborted "Aborted" r dm) false
        → Change at r m
    all_traffic :
        (ro : RolloutDetails)
        → told.rollout ≡ some ro
        → ro.is_aborted ≡ false
        → pos 100 ≤ℤ ro.current_weight
        → m ≡ quiet (closed now key at completed "Promoted" r dm) false
        → Change at r m
    degraded :
        (ro : RolloutDetails)
        → IsUnderWay ro
        → told.healthy ≡ some false
        → m ≡ record {
          manager = closed now key at aborted "Aborted" r dm;
          commands = abort_rollout ∷ helm_rollback r.helm_release ∷ [];
          failure = false;
        }
        → Change at r m
    promoted :
        (ro : RolloutDetails)
        → IsUnderWay ro
        → told.healthy ≡ some true
        → told.verified ≡ some true
        → m ≡ record {
          manager = with_record at (record r { current_state = promoting }) dm;
          commands = promote_rollout ∷ [];
          failure = false;
        }
        → Change at r m
    held :
        (ro : RolloutDetails)
        → IsUnderWay ro
        → told.healthy ≡ some true
        → told.verified ≢ some true
        → m ≡ record {
          manager = with_record at (record r { current_state = paused }) dm;
          commands = pause_rollout ∷ [];
          failure = false;
        }
        → Change at r m

  -- Why a call fails: no run is active under the name, its record is missing, Argo does not answer, or
  -- the analysis of a rollout that goes on fails.
  pub data Failing : Type 0 where
    inactive : lookup key dm.active_runs ≡ none → Failing
    no_record :
        (at : ℕ) → lookup key dm.active_runs ≡ some at → get_elem? dm.records at ≡ none → Failing
    no_rollout : told.rollout ≡ none → Failing
    no_analysis : (ro : RolloutDetails) → IsUnderWay ro → told.healthy ≡ none → Failing

  pub data MonitorEnd (m : Monitored F) : Type 0 where
    unchanged : Failing → m ≡ quiet dm true → MonitorEnd m
    changed :
        (at : ℕ) (r : DeploymentHistory F)
        → lookup key dm.active_runs ≡ some at
        → get_elem? dm.records at ≡ some r
        → Change at r m
        → MonitorEnd m

  after_analysis-MonitorEnd :
      (at : ℕ) (r : DeploymentHistory F) (ro : RolloutDetails) (healthy verified : Option Bool)
      → lookup key dm.active_runs ≡ some at
      → get_elem? dm.records at ≡ some r
      → IsUnderWay ro
      → told.healthy ≡ healthy
      → told.verified ≡ verified
      → MonitorEnd (after_analysis now key at r healthy verified dm)
  unfolding after_analysis is_verified
  after_analysis-MonitorEnd at r ro none v active found way h u =
      unchanged (no_analysis ro way h) refl
  after_analysis-MonitorEnd at r ro (some false) v active found way h u =
      changed at r active found (degraded ro way h refl)
  after_analysis-MonitorEnd at r ro (some true) none active found way h u =
      changed at r active found (held ro way h (λ e. cc (u, e)) refl)
  after_analysis-MonitorEnd at r ro (some true) (some true) active found way h u =
      changed at r active found (promoted ro way h u refl)
  after_analysis-MonitorEnd at r ro (some true) (some false) active found way h u =
      changed at r active found (held ro way h (λ e. cc (u, e)) refl)

  transition-MonitorEnd :
      (at : ℕ) (r : DeploymentHistory F) (ro : RolloutDetails)
      → lookup key dm.active_runs ≡ some at
      → get_elem? dm.records at ≡ some r
      → told.rollout ≡ some ro
      → MonitorEnd (transition now key at r ro told dm)
  unfolding transition
  transition-MonitorEnd at r ro active found seen = elim (Bool-cases ro.is_aborted) [
    | inl gone ↦ rw gone (changed at r active found (argo_aborted ro seen gone refl))
    | inr there ↦ elim (Bool-cases (leb_ℤ (pos 100) ro.current_weight)) [
      | inl full ↦
          rw (there, full)
            (changed at r active found (all_traffic ro seen there (ground (arith, full)) refl))
      | inr partial ↦
          rw (there, partial)
            (after_analysis-MonitorEnd at r ro told.healthy told.verified active found
              (record { seen = seen; not_aborted = there; partial = ground (arith, partial) }) refl
              refl)
    ]
  ]

  followed-MonitorEnd :
      (at : ℕ) (r : DeploymentHistory F) (rollout : Option RolloutDetails)
      → lookup key dm.active_runs ≡ some at
      → get_elem? dm.records at ≡ some r
      → told.rollout ≡ rollout
      → MonitorEnd (followed now key at r rollout told dm)
  unfolding followed
  followed-MonitorEnd at r none active found silent = unchanged (no_rollout silent) refl
  followed-MonitorEnd at r (some ro) active found seen =
      transition-MonitorEnd at r ro active found seen

  monitor_at-MonitorEnd :
      (at : Option ℕ) → lookup key dm.active_runs ≡ at → MonitorEnd (monitor_at now key at told dm)
  unfolding monitor_at settle
  monitor_at-MonitorEnd none active = unchanged (inactive active) refl
  monitor_at-MonitorEnd (some at) active = elim (Option-cases (get_elem? dm.records at)) [
    | inl absent ↦ rw (absent, settle) (unchanged (no_record at active absent) refl)
    | inr (r, found) ↦ rw (found, settle) (followed-MonitorEnd at r told.rollout active found refl)
  ]

module _ {F : Type 0} where
  -- A call of MonitorRollout either fails and changes nothing, and then no run is active under the name,
  -- its record is missing, Argo does not answer, or the analysis of a rollout that goes on fails; or it
  -- changes the record of that run alone: it is closed as aborted where Argo has aborted the rollout,
  -- closed as promoted where it carries all traffic, and closed as aborted, with the rollout aborted and
  -- the rollback of its release handed to the recovery executor, where the analysis finds it degraded;
  -- otherwise the rollout is promoted where the release is verified and paused where it is not.
  pub monitor_rollout-MonitorEnd :
      (now : Time) (name namespace : String) (told : Told) (dm : DeliveryManager F)
      → MonitorEnd now (run_key name namespace) told dm (monitor_rollout now name namespace told dm)
  unfolding monitor_rollout
  monitor_rollout-MonitorEnd now name namespace told dm =
      monitor_at-MonitorEnd now (run_key name namespace) told dm _ refl
