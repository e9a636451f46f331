-- ===== src/Operator/Rollouts/Runs.antt =====
-- internal/operator/progressive/manager.go: which records a run of calls may still change.
use summer_project.Prelude.{
  ℕ, Bool, true, false, ◌≡◌, refl, sym, ap, subst, inl, inr, Option, none, some, List, [], ◌∷◌,
  String, Bool-cases,
}
use summer_project.Prelude.Text.{str_eq}
use summer_project.Prelude.Maps.{lookup, delete}
use summer_project.Operator.Models.{Time}
use summer_project.Operator.Risk.{Ended, returned, panicked}
use summer_project.Operator.Rollouts.{
  RolloutState, completed, aborted, DeploymentHistory, run_key, with_risk, create_rollout,
  DeliveryManager, Risk, Monitored, Told, with_record, closed, Call, create, monitor, step, run,
  new_manager,
}
use summer_project.Operator.Rollouts.Monitoring.{
  Change, argo_aborted, all_traffic, degraded, promoted, held, MonitorEnd, unchanged, changed,
  monitor_rollout-MonitorEnd,
}
use summer_project.Operator.Rollouts.Pointers.{get_elem?-append}
use summer_project.Operator.Rollouts.Lasting.{
  is_final, IsDelivering, Keeps, IsDelivering-new, Keeps-set, IsDelivering-with_record,
  IsDelivering-closed, IsDelivering-registered,
}

module _ {F : Type 0} where
  abbrev Carried : DeliveryManager F → DeliveryManager F → Type 0
  Carried dm dm' = IsDelivering dm' × Keeps dm dm'

  create_rollout-Carried :
      (now : Time) (name namespace service : String) (guard : Ended (Bool × String))
      (risk : Ended (Option (Risk F))) (dm : DeliveryManager F)
      → IsDelivering dm
      → Carried dm (create_rollout now name namespace service guard risk dm).0
  unfolding create_rollout with_risk
  create_rollout-Carried now name namespace service panicked risk dm d = (d, λ at r h f. h)
  create_rollout-Carried now name namespace service (returned (false, why)) risk dm d =
      (d, λ at r h f. h)
  create_rollout-Carried now name namespace service (returned (true, why)) panicked dm d =
      (d, λ at r h f. h)
  create_rollout-Carried now name namespace service (returned (true, why)) (returned none) dm d =
      (d, λ at r h f. h)
  create_rollout-Carried now name namespace service (returned (true, why)) (returned (some risk)) dm
        d =
      elim (Bool-cases (str_eq risk.decision "Reject")) [
        | inl rejected ↦ rw rejected (d, λ at r h f. h)
        | inr accepted ↦ rw accepted (
          IsDelivering-registered now name namespace service risk dm d,
          λ at r h f. get_elem?-append dm.records _ at r h,
        )
      ]

  closed-Carried :
      (now : Time) (dm : DeliveryManager F) (k : String) (at : ℕ) (r : DeploymentHistory F)
      (state : RolloutState) (result : String)
      → IsDelivering dm
      → lookup k dm.active_runs ≡ some at
      → Carried dm (closed now k at state result r dm)
  closed-Carried now dm k at r state result d active = (
    IsDelivering-closed now dm k at r state result d active,
    Keeps-set dm k at _ dm.history (delete k dm.active_runs) d active,
  )

  with_record-Carried :
      (dm : DeliveryManager F) (k : String) (at : ℕ) (r : DeploymentHistory F)
      → IsDelivering dm
      → lookup k dm.active_runs ≡ some at
      → is_final r.current_state ≡ false
      → Carried dm (with_record at r dm)
  with_record-Carried dm k at r d active open_now = (
    IsDelivering-with_record dm k at r d active open_now,
    Keeps-set dm k at r dm.history dm.active_runs d active,
  )

  abbrev manager_of : Monitored F → DeliveryManager F
  manager_of m = m.manager

  Change-Carried :
      (now : Time) (key : String) (told : Told) (dm : DeliveryManager F) (at : ℕ)
      (r : DeploymentHistory F) (m : Monitored F)
      → IsDelivering dm
      → lookup key dm.active_runs ≡ some at
      → Change now key told dm at r m
      → Carried dm m.manager
  Change-Carried now key told dm at r m d active (argo_aborted _ _ _ e) =
      subst (Carried dm) (sym (ap manager_of e))
        (closed-Carried now dm key at r aborted "Aborted" d active)
  Change-Carried now key told dm at r m d active (all_traffic _ _ _ _ e) =
      subst (Carried dm) (sym (ap manager_of e))
        (closed-Carried now dm key at r completed "Promoted" d active)
  Change-Carried now key told dm at r m d active (degraded _ _ _ e) =
      subst (Carried dm) (sym (ap manager_of e))
        (closed-Carried now dm key at r aborted "Aborted" d active)
  Change-Carried now key told dm at r m d active (promoted _ _ _ _ e) =
      subst (Carried dm) (sym (ap manager_of e)) (with_record-Carried dm key at _ d active refl)
  Change-Carried now key told dm at r m d active (held _ _ _ _ e) =
      subst (Carried dm) (sym (ap manager_of e)) (with_record-Carried dm key at _ d active refl)

  MonitorEnd-Carried :
      (now : Time) (key : String) (told : Told) (dm : DeliveryManager F) (m : Monitored F)
      → IsDelivering dm
      → MonitorEnd now key told dm m
      → Carried dm m.manager
  MonitorEnd-Carried now key told dm m d (unchanged why e) =
      subst (Carried dm) (sym (ap manager_of e)) (d, λ at r h f. h)
  MonitorEnd-Carried now key told dm m d (changed at r active found c) =
      Change-Carried now key told dm at r m d active c

  step-Carried : (c : Call F) (dm : DeliveryManager F) → IsDelivering dm → Carried dm (step c dm)
  step-Carried (create now name namespace service guard risk) dm d =
      create_rollout-Carried now name namespace service guard risk dm d
  step-Carried (monitor now name namespace told) dm d =
      MonitorEnd-Carried now (run_key name namespace) told dm _ d
        (monitor_rollout-MonitorEnd now name namespace told dm)

  run-Carried :
      (cs : List (Call F)) (dm : DeliveryManager F) → IsDelivering dm → Carried dm (run cs dm)
  unfolding run
  run-Carried [] dm d = (d, λ at r h f. h)
  run-Carried (c ∷ cs) dm d =
      let (next, kept) = step-Carried c dm d in
      let (last, held_on) = run-Carried cs (step c dm) next in
      (last, λ at r h f. held_on at r (kept at r h f) f)

  -- Of a new manager, after any calls that create rollouts or monitor them, each call of which runs to its
  -- end: every active run has a record of its own that is neither completed nor aborted, and a record
  -- that is completed or aborted is the same after any further calls.
  pub run-new_manager-IsDelivering :
      (before later : List (Call F))
      → IsDelivering (run before new_manager)
        × Keeps (run before new_manager) (run later (run before new_manager))
  run-new_manager-IsDelivering before later =
      let (d, _) = run-Carried before new_manager IsDelivering-new in
      (d, (run-Carried later (run before new_manager) d).1)
