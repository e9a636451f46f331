-- ===== src/Operator/Pipeline/Peers.antt =====
-- internal/operator/incident/manager.go and internal/operator/dependency/coordinator.go: the rollback of the
-- peers of a service after its own recovery.
use summer_project.Prelude.{
  ◌≤◌, ℕ, ◌≡◌, ◌≢◌, refl, ap, subst, sym, ◌∙◌, inl, inr, Option, none, some, List, [], ◌++◌, String,
  arith, Bool-cases, All,
}
use summer_project.Prelude.Int.{ℤ, ◌+ℤ◌, ◌<ℤ◌}
use summer_project.Prelude.Maps.{lookup-insert_self}
use summer_project.Operator.Models.{
  Time, Duration, Incident, RecoveryPlan, RecoveryResult, RollbackHistory,
}
use summer_project.Operator.Helm.{Result, ok, err, Release}
use summer_project.Operator.Incidents.{Store}
use summer_project.Operator.Cooldown.{CooldownManager, exec_key, try_start_execution}
use summer_project.Operator.Cooldown.Exclusion.{start_cases}
use summer_project.Operator.Executor.{resolve_release_and_namespace}
use summer_project.Operator.Coordinator.{HelmOps, Coordinator, deploy_time, rollback_batch_peers}
use summer_project.Operator.Coordinator.Rollbacks.{
  Apart, IsMeant, BatchEnd, Within, Shut, rollback_batch_peers-Shut, rollback_batch_peers-BatchEnd,
}
use summer_project.Operator.Pipeline.{
  Attempt, Run, End, verified, exhausted, again, Pipeline, Coordinate, finish, is_rollback, old_of,
  max_attempts, gated, run_recovery_pipeline,
}
use summer_project.Operator.Pipeline.Faulty.{EndFor, FaultyIn, attempts-EndFor}

module _ {C : Type 0} (show : Duration → String) (now : ℕ → Time) (helm : ℕ → HelmOps C)
    (c : Coordinator) (history : Result (List (Release C))) where
  -- The coordinator as the manager's interface; `history` is what Helm answers of the failed service.
  abbrev pub coordinate : Coordinate
  coordinate gate failed faulty = rollback_batch_peers show now helm c gate history failed faulty

  -- Which peers a pipeline for a service asks Helm to roll back.
  pub data PeersEnd (env : String) (inputs : ℕ → Attempt) (most : ℕ) (service : String)
      (p : Pipeline) : Type 0 where
    no_peers : p.peers ≡ [] → PeersEnd env inputs most service p
    batched :
        (k : ℕ) (faulty : ℤ) (deployed : Time)
        → 1 ≤ k
        → k ≤ most
        → (inputs k).helm.current_revision (resolve_release_and_namespace env service).1 service
          ≡ ok faulty
        → deploy_time history service faulty ≡ ok deployed
        → p.incident.status ≡ "resolved"
        → Apart p.peers
        → All
            (IsMeant show now helm c
              (c.graph.parents_of service ++ c.graph.children_of service)
              deployed)
            p.peers
        → All (λ a. a.0 ≢ service) p.peers
        → PeersEnd env inputs most service p

  peers_of-PeersEnd :
      (env : String) (inputs : ℕ → Attempt) (most : ℕ) (end : Time) (gate : CooldownManager)
      (service : String) (k : ℕ) (faulty : ℤ) (at : Result Time) (p : Pipeline)
      → 1 ≤ k
      → k ≤ most
      → (inputs k).helm.current_revision (resolve_release_and_namespace env service).1 service
        ≡ ok faulty
      → Within show now helm c end
      → Shut show now helm c end gate service
      → p.incident.status ≡ "resolved"
      → p.peers ≡ (coordinate gate service faulty).asked
      → deploy_time history service faulty ≡ at
      → PeersEnd env inputs most service p
  peers_of-PeersEnd env inputs most end gate service k faulty (err e) p from upto told within shut
        resolved asks known =
      let b = coordinate gate service faulty in
      no_peers (
        asks
        ∙ (subst (λ t. BatchEnd show now helm c gate service t b) known
            (rollback_batch_peers-BatchEnd show now helm c end gate history service faulty
              within)).0)
  peers_of-PeersEnd env inputs most end gate service k faulty (ok deployed) p from upto told within
        shut resolved asks known =
      let b = coordinate gate service faulty in
      let (apart, meant) =
        subst (λ t. BatchEnd show now helm c gate service t b) known
          (rollback_batch_peers-BatchEnd show now helm c end gate history service faulty within) in
      let other =
        rollback_batch_peers-Shut show now helm c end gate history service faulty service within
          shut in
      batched k faulty deployed from upto told known resolved (subst Apart (sym asks) apart)
        (subst (All (IsMeant show now helm c _ deployed)) (sym asks) meant)
        (subst (All (λ a. a.0 ≢ service)) (sym asks) other)

  module _ (end : Time) (within : Within show now helm c end) where
    verified-PeersEnd :
        (env : String) (inputs : ℕ → Attempt) (most : ℕ) (start stop : Time)
        (namespace service : String) (gate : CooldownManager) (rollbacks : List RollbackHistory)
        (run : Run) (result : Option RecoveryResult) (k : ℕ) (r : RecoveryResult)
        → Shut show now helm c end gate service
        → run.plan.service_id ≡ service
        → result ≡ some r
        → 1 ≤ k
        → k ≤ most
        → (inputs k).helm.current_revision (resolve_release_and_namespace env service).1 service
          ≡ ok r.old_revision
        → PeersEnd env inputs most service
            (finish (some coordinate) start stop namespace gate rollbacks (verified run result))
    unfolding finish
    verified-PeersEnd env inputs most start stop namespace service gate rollbacks run result k r
          shut own is from upto told =
        elim (Bool-cases (is_rollback run.plan.desired_action)) [
          | inl asks ↦
              peers_of-PeersEnd env inputs most end gate service k r.old_revision _ _ from upto told
                within shut refl
                (rw asks (
                  ap (λ s. (coordinate gate s (old_of result)).asked) own
                  ∙ ap (λ o. (coordinate gate service (old_of o)).asked) is))
                refl
          | inr not_asks ↦ no_peers (rw not_asks refl)
        ]

    finish-PeersEnd :
        (env : String) (inputs : ℕ → Attempt) (most : ℕ) (start stop : Time)
        (namespace service : String) (gate : CooldownManager) (rollbacks : List RollbackHistory)
        (e : End)
        → Shut show now helm c end gate service
        → EndFor (FaultyIn env inputs most service) service e
        → PeersEnd env inputs most service
            (finish (some coordinate) start stop namespace gate rollbacks e)
    unfolding finish
    finish-PeersEnd env inputs most start stop namespace service gate rollbacks
          (exhausted run result) shut own =
        no_peers refl
    finish-PeersEnd env inputs most start stop namespace service gate rollbacks
          (verified run result) shut (own, known) =
        let (k, from, upto, replaces) = known in
        let (r, is, told) = replaces in
        verified-PeersEnd env inputs most start stop namespace service gate rollbacks run result k r
          shut own is from upto told

    gated-PeersEnd :
        (text env : String) (inputs : ℕ → Attempt) (start stop : Time)
        (rollbacks : List RollbackHistory) (run : Run) (cm : CooldownManager)
        → end <ℤ start +ℤ run.plan.cooldown
        → PeersEnd env inputs (max_attempts run.plan.retry_policy.max_retries) run.plan.service_id (
            gated
              (some coordinate)
              text
              env
              inputs
              start
              stop
              rollbacks
              run
              (try_start_execution start cm run.plan.service_id run.plan.cooldown))
    unfolding gated
    gated-PeersEnd text env inputs start stop rollbacks run cm later =
        let service = run.plan.service_id in
        let most = max_attempts run.plan.retry_policy.max_retries in
        elim (start_cases start cm service run.plan.cooldown) [
          | inl (d, refused) ↦ rw refused (no_peers refl)
          | inr (free, granted) ↦ rw granted (
              finish-PeersEnd env inputs most start stop _ service _ rollbacks _
                (_, lookup-insert_self (exec_key service) (start +ℤ run.plan.cooldown) cm, later)
                (attempts-EndFor text env service inputs most most 1 (again run none none)
                  (omega arith) (omega arith) refl))
        ]

    -- Where the recovery of a service, with its peers, is over within the cooldown of its plan and within the
    -- window of the gate of every peer: the peers that it asks Helm to roll back are direct parents or
    -- children of the service, never the service itself and none of them twice, and each was found to be
    -- released within the window of the deploy time of the faulty revision, which is the one that Helm told
    -- one of the attempts to be the current one of the service, and is asked back to its last healthy one; and any
    -- are asked only where the incident ends resolved.
    pub run_recovery_pipeline-PeersEnd :
        (text env : String) (inputs : ℕ → Attempt) (start stop : Time) (cm : CooldownManager)
        (store : Store) (rollbacks : List RollbackHistory) (i : Incident) (plan : RecoveryPlan)
        → end <ℤ start +ℤ plan.cooldown
        → PeersEnd env inputs (max_attempts plan.retry_policy.max_retries) plan.service_id (
            run_recovery_pipeline
              (some coordinate)
              text
              env
              inputs
              start
              stop
              cm
              store
              rollbacks
              i
              plan)
    unfolding run_recovery_pipeline
    run_recovery_pipeline-PeersEnd text env inputs start stop cm store rollbacks i plan later =
        gated-PeersEnd text env inputs start stop rollbacks _ cm later
