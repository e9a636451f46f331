-- ===== src/Operator/Coordinator.antt =====
-- internal/operator/dependency/coordinator.go: the rollback of services that were released together with
-- one that failed. What Helm answers while a peer is considered is an argument, as are the clock and the
-- text of a duration. Log lines are left out.

pub mod Peers
pub mod Rollbacks
mod Examples
use summer_project.Prelude.{
  ℕ, suc, ◌*◌, Bool, true, false, if◌then◌else◌, Option, none, some, List, [], ◌∷◌, ◌++◌, String,
}
use summer_project.Prelude.Int.{ℤ, pos, ◌-ℤ◌, leb_ℤ, ltb_ℤ, eqb_ℤ}
use summer_project.Prelude.Text.{sprint, show_ℤ}
use summer_project.Operator.Models.{Time, Duration, minute}
use summer_project.Operator.Helm.{Result, ok, err, Info, Release}
use summer_project.Operator.Cooldown.{CooldownManager, try_start_execution}
use summer_project.Operator.Dependency.{DependencyGraph}

-- HelmOps in one namespace; `rollback` gives none for nil.
pub record HelmOps (C : Type 0) : Type 0 where
  pub get_history : String → Result (List (Release C))
  pub get_current_revision : String → Result ℤ
  pub get_last_healthy_revision : String → Result ℤ
  pub rollback : String → ℤ → Option String

pub record PeerResult : Type 0 where
  pub service : String
  pub rolled_back : Bool
  pub target_rev : ℤ
  pub reason : String

abbrev pub skipped : String → String → PeerResult
skipped peer reason = record {
  service = peer;
  rolled_back = false;
  target_rev = pos 0;
  reason = reason;
}

-- What the consideration of one peer leaves: the gate, its result, and the rollback Helm was asked for.
pub record Considered : Type 0 where
  pub gate : CooldownManager
  pub result : PeerResult
  pub asked : Option ℤ

abbrev pub left_alone : CooldownManager → PeerResult → Considered
left_alone gate result = record { gate = gate; result = result; asked = none }

abbrev pub or_default : Duration → Duration → Duration
or_default d default_d = if leb_ℤ d (pos 0) then default_d else d

pub record Coordinator : Type 0 where
  pub graph : DependencyGraph
  pub batch_window : Duration
  pub gate_window : Duration

unfoldable pub new_coordinator : DependencyGraph → Duration → Duration → Coordinator
new_coordinator graph batch_window gate_window = record {
  graph = graph;
  batch_window = or_default batch_window (pos (10 * minute));
  gate_window = or_default gate_window (pos (5 * minute));
}

abbrev pub distance : Time → Time → Duration
distance a b = let gap = a -ℤ b in if ltb_ℤ gap (pos 0) then pos 0 -ℤ gap else gap

abbrev pub found_time : String → ℤ → Option Time → Result Time
found_time service revision (some t) = ok t
found_time service revision none =
    err (sprint ("revision " ∷ show_ℤ revision ∷ " not found in history of " ∷ service ∷ []))

-- What all considerations leave: the rollbacks asked for, the newest last.
pub record Batch : Type 0 where
  pub gate : CooldownManager
  pub results : List PeerResult
  pub asked : List (String × ℤ)

abbrev pub asked_of : String → Option ℤ → List (String × ℤ)
asked_of peer none = []
asked_of peer (some target) = (peer, target) ∷ []

module _ {C : Type 0} where
  -- The first release that has the revision and a deployment time.
  unfoldable pub find_deployed : ℤ → List (Release C) → Option Time
  find_deployed revision [] = none
  find_deployed revision (r ∷ rs) = elim r.info [
    | none ↦ find_deployed revision rs
    | some i ↦ if eqb_ℤ r.version revision then some i.last_deployed else find_deployed revision rs
  ]

  unfoldable pub deploy_time : Result (List (Release C)) → String → ℤ → Result Time
  deploy_time (err e) service revision = err e
  deploy_time (ok history) service revision =
      found_time service revision (find_deployed revision history)

  module _ (show : Duration → String) (now : Time) (helm : HelmOps C) (c : Coordinator) where
    unfoldable pub attempted : CooldownManager → String → ℤ → Option String → Considered
    attempted gate peer target (some e) = record {
      gate = gate;
      result = skipped peer (sprint ("rollback failed: " ∷ e ∷ []));
      asked = some target;
    }
    attempted gate peer target none = record {
      gate = gate;
      result = record {
        service = peer;
        rolled_back = true;
        target_rev = target;
        reason = "co-released within batch window";
      };
      asked = some target;
    }

    unfoldable pub targeted : CooldownManager → String → Result ℤ → Considered
    unfolding attempted
    targeted gate peer (err e) =
        left_alone gate (skipped peer (sprint ("no healthy rollback target: " ∷ e ∷ [])))
    targeted gate peer (ok target) = attempted gate peer target (helm.rollback peer target)

    unfoldable pub gated : String → CooldownManager × Bool × Duration → Considered
    unfolding targeted
    gated peer (gate, false, left) =
        left_alone gate (skipped peer (sprint ("recovery already ran " ∷ show left ∷ " ago" ∷ [])))
    gated peer (gate, true, left) = targeted gate peer (helm.get_last_healthy_revision peer)

    unfoldable pub dated : CooldownManager → String → Time → Result Time → Considered
    unfolding gated
    dated gate peer batch_ref (err e) =
        left_alone gate (skipped peer (sprint ("cannot determine deploy time: " ∷ e ∷ [])))
    dated gate peer batch_ref (ok deployed) =
        let gap = distance deployed batch_ref in
        if ltb_ℤ c.batch_window gap
        then left_alone gate (
            skipped peer (
              sprint (
                "deployed "
                ∷ show gap
                ∷ " from batch anchor (window "
                ∷ show c.batch_window
                ∷ ") — not co-released"
                ∷ [])))
        else gated peer (try_start_execution now gate peer c.gate_window)

    unfoldable pub at_revision : CooldownManager → String → Time → Result ℤ → Considered
    unfolding dated
    at_revision gate peer batch_ref (err e) =
        left_alone gate (skipped peer (sprint ("no helm release found: " ∷ e ∷ [])))
    at_revision gate peer batch_ref (ok current) =
        if leb_ℤ current (pos 1)
        then left_alone gate (skipped peer "initial revision, nothing to roll back to")
        else dated gate peer batch_ref (deploy_time (helm.get_history peer) peer current)

    unfoldable pub consider_peer : CooldownManager → String → Time → Considered
    unfolding at_revision
    consider_peer gate peer batch_ref =
        at_revision gate peer batch_ref (helm.get_current_revision peer)

  module _ (show : Duration → String) (now : ℕ → Time) (helm : ℕ → HelmOps C)
      (c : Coordinator) where
    -- The loop over the peers; the clock and Helm are read anew for each.
    unfoldable pub consider_peers : ℕ → CooldownManager → Time → List String → Batch
    consider_peers i gate batch_ref [] = record { gate = gate; results = []; asked = [] }
    consider_peers i gate batch_ref (peer ∷ peers) =
        let done = consider_peer show (now i) (helm i) c gate peer batch_ref in
        let rest = consider_peers (suc i) done.gate batch_ref peers in
        record {
          gate = rest.gate;
          results = done.result ∷ rest.results;
          asked = asked_of peer done.asked ++ rest.asked;
        }

    unfoldable pub batch_at : CooldownManager → String → Result Time → Batch
    unfolding consider_peers
    batch_at gate failed_service (err e) = record { gate = gate; results = []; asked = [] }
    batch_at gate failed_service (ok batch_ref) =
        consider_peers 0 gate batch_ref
          (c.graph.parents_of failed_service ++ c.graph.children_of failed_service)

    -- `history` is what Helm answers of the failed service.
    unfoldable pub rollback_batch_peers :
        CooldownManager → Result (List (Release C)) → String → ℤ → Batch
    unfolding batch_at
    rollback_batch_peers gate history failed_service faulty_revision =
        batch_at gate failed_service (deploy_time history failed_service faulty_revision)
