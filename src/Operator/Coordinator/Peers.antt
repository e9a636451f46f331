-- ===== src/Operator/Coordinator/Peers.antt =====
-- internal/operator/dependency/coordinator.go: what the consideration of one peer comes to.
use summer_project.Prelude.{
  ◌≡◌, refl, inl, inr, ◌↔◌, true, false, none, some, String, arith, Bool-cases, Option-cases,
}
use summer_project.Prelude.Int.{ℤ, pos, ◌+ℤ◌, ◌≤ℤ◌, ◌<ℤ◌, ltb_ℤ, leb_ℤ}
use summer_project.Prelude.Maps.{lookup, insert}
use summer_project.Operator.Models.{Time, Duration}
use summer_project.Operator.Helm.{Result, ok, err}
use summer_project.Operator.Cooldown.{CooldownManager, exec_key, remaining, try_start_execution}
use summer_project.Operator.Cooldown.Exclusion.{start_cases}
use summer_project.Operator.Coordinator.{
  HelmOps, Considered, Coordinator, distance, deploy_time, attempted, targeted, gated, dated,
  at_revision, consider_peer,
}

module _ {C : Type 0} (show : Duration → String) (now : Time) (helm : HelmOps C)
    (c : Coordinator) where
  -- After the gate was claimed: no target, or a rollback that Helm was asked for.
  pub data Tried (peer : String) (d : Considered) : Type 0 where
    no_target : d.asked ≡ none → d.result.rolled_back ≡ false → Tried peer d
    asked_for :
        (target : ℤ)
        → helm.get_last_healthy_revision peer ≡ ok target
        → d.asked ≡ some target
        → ((d.result.rolled_back ≡ true) ↔ (helm.rollback peer target ≡ none))
        → Tried peer d

  -- A peer that is above its first revision, and was deployed within the window of the batch.
  pub record IsCoReleased (peer : String) (batch_ref : Time) : Type 0 where
    pub current : ℤ
    pub deployed : Time
    pub at_current : helm.get_current_revision peer ≡ ok current
    pub not_initial : pos 1 <ℤ current
    pub at_time : deploy_time (helm.get_history peer) peer current ≡ ok deployed
    pub near : distance deployed batch_ref ≤ℤ c.batch_window

  pub data Verdict (gate : CooldownManager) (peer : String) (batch_ref : Time) (d : Considered)
      : Type 0 where
    untouched :
        d.gate ≡ gate
        → d.asked ≡ none
        → d.result.rolled_back ≡ false
        → Verdict gate peer batch_ref d
    claimed :
        IsCoReleased peer batch_ref
        → remaining now (lookup (exec_key peer) gate) ≡ none
        → d.gate ≡ insert (exec_key peer) (now +ℤ c.gate_window) gate
        → Tried peer d
        → Verdict gate peer batch_ref d

  targeted-Tried :
      (gate : CooldownManager) (peer : String) (healthy : Result ℤ)
      → helm.get_last_healthy_revision peer ≡ healthy
      → Tried peer (targeted show now helm c gate peer healthy)
  unfolding targeted attempted
  targeted-Tried gate peer (err e) h = no_target refl refl
  targeted-Tried gate peer (ok target) h = elim (Option-cases (helm.rollback peer target)) [
    | inl done ↦ rw (done, targeted, attempted) (asked_for target h refl (λ _. done, λ _. refl))
    | inr (e, bad) ↦
        rw (bad, targeted, attempted) (asked_for target h refl (λ f. cc f, λ n. cc (bad, n)))
  ]

  targeted-gate :
      (gate : CooldownManager) (peer : String) (healthy : Result ℤ)
      → (targeted show now helm c gate peer healthy).gate ≡ gate
  unfolding targeted attempted
  targeted-gate gate peer (err e) = refl
  targeted-gate gate peer (ok target) = ground arith

  gated-Verdict :
      (gate : CooldownManager) (peer : String) (batch_ref : Time)
      → IsCoReleased peer batch_ref
      → Verdict gate peer batch_ref
          (gated show now helm c peer (try_start_execution now gate peer c.gate_window))
  unfolding gated
  gated-Verdict gate peer batch_ref r = elim (start_cases now gate peer c.gate_window) [
    | inl (d, refused) ↦ rw refused (untouched refl refl refl)
    | inr (free, granted) ↦ rw granted (
        claimed r free (targeted-gate _ peer (helm.get_last_healthy_revision peer))
          (targeted-Tried _ peer (helm.get_last_healthy_revision peer) refl))
  ]

  dated-Verdict :
      (gate : CooldownManager) (peer : String) (batch_ref : Time) (current : ℤ) (at : Result Time)
      → helm.get_current_revision peer ≡ ok current
      → pos 1 <ℤ current
      → deploy_time (helm.get_history peer) peer current ≡ at
      → Verdict gate peer batch_ref (dated show now helm c gate peer batch_ref at)
  unfolding dated
  dated-Verdict gate peer batch_ref current (err e) at_current more at_time =
      untouched refl refl refl
  dated-Verdict gate peer batch_ref current (ok deployed) at_current more at_time =
      elim (Bool-cases (ltb_ℤ c.batch_window (distance deployed batch_ref))) [
        | inl far ↦ rw far (untouched refl refl refl)
        | inr close ↦ rw close (
            gated-Verdict gate peer batch_ref (record {
              current = current;
              deployed = deployed;
              at_current = at_current;
              not_initial = more;
              at_time = at_time;
              near = ground (arith, close);
            }))
      ]

  pub consider_peer-Verdict :
      (gate : CooldownManager) (peer : String) (batch_ref : Time)
      → Verdict gate peer batch_ref (consider_peer show now helm c gate peer batch_ref)
  unfolding consider_peer
  consider_peer-Verdict gate peer batch_ref = from (helm.get_current_revision peer) refl
    where
      from :
          (revision : Result ℤ)
          → helm.get_current_revision peer ≡ revision
          → Verdict gate peer batch_ref (at_revision show now helm c gate peer batch_ref revision)
      from (err e) at_current = untouched refl refl refl
      from (ok current) at_current = elim (Bool-cases (leb_ℤ current (pos 1))) [
        | inl initial ↦ rw initial (untouched refl refl refl)
        | inr more ↦ rw more (
            dated-Verdict gate peer batch_ref current
              (deploy_time (helm.get_history peer) peer current) at_current (ground (arith, more))
              refl)
      ]
