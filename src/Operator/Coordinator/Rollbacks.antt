-- ===== src/Operator/Coordinator/Rollbacks.antt =====
-- internal/operator/dependency/coordinator.go: which peers of a batch are rolled back, and how often.
use summer_project.Prelude.{
  ℕ, suc, ◌≡◌, ◌≢◌, refl, sym, subst, ◌∙◌, inl, inr, true, none, some, List, [], ◌∷◌, ◌++◌, String,
  arith, Bool-cases, All, All-map,
}
use summer_project.Prelude.Int.{ℤ, ◌+ℤ◌, ◌≤ℤ◌, ◌<ℤ◌, -ℤ_parts}
use summer_project.Prelude.Text.{str_eq, eq_refl}
use summer_project.Prelude.Maps.{lookup, insert, lookup-insert, lookup-insert_self}
use summer_project.Operator.Models.{Time, Duration}
use summer_project.Operator.Helm.{Result, ok, err, Release, Result-cases}
use summer_project.Operator.Cooldown.{CooldownManager, exec_key, remaining}
use summer_project.Operator.Dependency.{has}
use summer_project.Operator.Coordinator.{
  HelmOps, Considered, Coordinator, deploy_time, Batch, asked_of, consider_peer, consider_peers,
  batch_at, rollback_batch_peers,
}
use summer_project.Operator.Coordinator.Peers.{
  no_target, asked_for, IsCoReleased, Verdict, untouched, claimed, consider_peer-Verdict,
}

-- The services that Helm was asked to roll back are not among these, and no one of them is asked twice.
abbrev pub Apart : List (String × ℤ) → Type 0
Apart [] = Unit
Apart ((s, v) ∷ rest) = All (λ a. a.0 ≢ s) rest × Apart rest

module _ {C : Type 0} (show : Duration → String) (now : ℕ → Time) (helm : ℕ → HelmOps C)
    (c : Coordinator) where
  -- Why a rollback was asked for: at some turn the service was found to be released with the batch, and
  -- the revision to be its last healthy one.
  pub record IsMeant (peers : List String) (batch_ref : Time) (a : String × ℤ) : Type 0 where
    pub turn : ℕ
    pub is_peer : has a.0 peers ≡ true
    pub released : IsCoReleased show (now turn) (helm turn) c a.0 batch_ref
    pub healthy : (helm turn).get_last_healthy_revision a.0 ≡ ok a.1

  -- No time of the batch lies beyond the window of any claim that it makes.
  abbrev pub Within : Time → Type 0
  Within end = (i : ℕ) → (now i ≤ℤ end) × (end <ℤ now i +ℤ c.gate_window)

  -- The gate of a service is shut for the rest of the batch.
  abbrev pub Shut : Time → CooldownManager → String → Type 0
  Shut end gate s = (until : Time) × (lookup (exec_key s) gate ≡ some until) × (end <ℤ until)

  not_free :
      (end : Time) (gate : CooldownManager) (i : ℕ) (s : String)
      → Within end
      → Shut end gate s
      → remaining (now i) (lookup (exec_key s) gate) ≢ none
  not_free end gate i s within (until, found, later) free =
      absurd (ground (arith, found, (within i).0, later, -ℤ_parts until (now i)))

  Shut-insert :
      (end t : Time) (gate : CooldownManager) (peer s : String)
      → end <ℤ t
      → Shut end gate s
      → Shut end (insert (exec_key peer) t gate) s
  Shut-insert end t gate peer s later (until, found, after) =
      elim (Bool-cases (str_eq (exec_key peer) (exec_key s))) [
        | inl same ↦ (t, rw lookup-insert (rw same refl), later)
        | inr other ↦ (until, rw lookup-insert (rw other found), after)
      ]

  -- What the rest of a batch asks for, seen from the gate where it starts.
  record IsApart (end : Time) (peers : List String) (batch_ref : Time) (gate : CooldownManager)
      (asked : List (String × ℤ)) : Type 0 where
    apart : Apart asked
    open_before : All (λ a. ¬ Shut end gate a.0) asked
    meant : All (IsMeant peers batch_ref) asked

  IsApart-keep :
      (end : Time) (peers : List String) (batch_ref : Time) (gate gate' : CooldownManager)
      (asked : List (String × ℤ))
      → ((s : String) → Shut end gate s → Shut end gate' s)
      → IsApart end peers batch_ref gate' asked
      → IsApart end peers batch_ref gate asked
  IsApart-keep end peers batch_ref gate gate' asked more r = record {
    apart = r.apart;
    open_before = All-map (λ a free shut. free (more a.0 shut)) asked r.open_before;
    meant = r.meant;
  }

  IsApart-peer :
      (end : Time) (peers : List String) (batch_ref : Time) (gate gate' : CooldownManager) (i : ℕ)
      (peer : String) (d : Considered) (asked : List (String × ℤ))
      → Within end
      → has peer peers ≡ true
      → Verdict show (now i) (helm i) c gate peer batch_ref d
      → d.gate ≡ gate'
      → IsApart end peers batch_ref gate' asked
      → IsApart end peers batch_ref gate (asked_of peer d.asked ++ asked)
  IsApart-peer end peers batch_ref gate gate' i peer d asked within is_peer
        (untouched same none_asked _) left r =
      rw none_asked (subst (λ g. IsApart end peers batch_ref g asked) (sym left ∙ same) r)
  IsApart-peer end peers batch_ref gate gate' i peer d asked within is_peer
        (claimed released free gate_is tried) left r =
      let t = now i +ℤ c.gate_window in
      let kept =
        IsApart-keep end peers batch_ref gate gate' asked
          (λ s shut.
            subst (λ g. Shut end g s) (sym gate_is ∙ left)
              (Shut-insert end t gate peer s (within i).1 shut))
          r in
      let shut =
        subst (λ g. Shut end g peer) (sym gate_is ∙ left)
          (t, lookup-insert_self (exec_key peer) t gate, (within i).1) in
      elim tried [
        | no_target none_asked _ ↦ rw none_asked kept
        | asked_for target healthy asks _ ↦ rw asks (record {
          apart = (
            All-map (λ a open_now same. open_now (subst (λ s. Shut end gate' s) (sym same) shut))
                asked r.open_before,
            r.apart,
          );
          open_before = (λ before. not_free end gate i peer within before free, kept.open_before);
          meant = (
            record { turn = i; is_peer = is_peer; released = released; healthy = healthy },
            r.meant,
          );
        })
      ]

  consider_peers-IsApart :
      (end : Time) (peers : List String) (batch_ref : Time) (i : ℕ) (gate : CooldownManager)
      (rest : List String)
      → Within end
      → ((x : String) → has x rest ≡ true → has x peers ≡ true)
      → IsApart end peers batch_ref gate
          (consider_peers show now helm c i gate batch_ref rest).asked
  unfolding consider_peers
  consider_peers-IsApart end peers batch_ref i gate [] within sub = record {
    apart = tt;
    open_before = tt;
    meant = tt;
  }
  consider_peers-IsApart end peers batch_ref i gate (peer ∷ rest) within sub =
      let d = consider_peer show (now i) (helm i) c gate peer batch_ref in
      IsApart-peer end peers batch_ref gate d.gate i peer d _ within
        (sub peer (ground (arith, eq_refl peer)))
        (consider_peer-Verdict show (now i) (helm i) c gate peer batch_ref) refl
        (consider_peers-IsApart end peers batch_ref (suc i) d.gate rest within
          (λ x m. sub x (ground arith)))

  -- What a batch comes to, by the deployment time of the faulty revision.
  abbrev pub BatchEnd : CooldownManager → String → Result Time → Batch → Type 0
  BatchEnd gate failed (err e) b = (b.asked ≡ []) × (b.results ≡ []) × (b.gate ≡ gate)
  BatchEnd gate failed (ok deployed) b =
      Apart b.asked
      × All (IsMeant (c.graph.parents_of failed ++ c.graph.children_of failed) deployed) b.asked

  batch_at-BatchEnd :
      (end : Time) (gate : CooldownManager) (failed : String) (at : Result Time)
      → Within end
      → BatchEnd gate failed at (batch_at show now helm c gate failed at)
  unfolding batch_at
  batch_at-BatchEnd end gate failed (err e) within = (refl, refl, refl)
  batch_at-BatchEnd end gate failed (ok deployed) within =
      let peers = c.graph.parents_of failed ++ c.graph.children_of failed in
      let r = consider_peers-IsApart end peers deployed 0 gate peers within (λ x m. m) in
      (r.apart, r.meant)

  -- No service whose gate is shut before the batch is rolled back with it.
  pub rollback_batch_peers-Shut :
      (end : Time) (gate : CooldownManager) (history : Result (List (Release C))) (failed : String)
      (faulty : ℤ) (s : String)
      → Within end
      → Shut end gate s
      → All (λ a. a.0 ≢ s) (rollback_batch_peers show now helm c gate history failed faulty).asked
  unfolding rollback_batch_peers batch_at
  rollback_batch_peers-Shut end gate history failed faulty s within shut =
      elim (Result-cases (deploy_time history failed faulty)) [
        | inr (e, unknown) ↦ rw (unknown, batch_at) tt
        | inl (deployed, known) ↦
            let peers = c.graph.parents_of failed ++ c.graph.children_of failed in
            let r = consider_peers-IsApart end peers deployed 0 gate peers within (λ x m. m) in
            rw (known, batch_at)
              (All-map (λ a free same. free (subst (λ t. Shut end gate t) (sym same) shut)) _
                r.open_before)
      ]

  -- While the clock stays within the window of the gate, the peers that Helm is asked to roll back are
  -- direct parents or children of the failed service, no one of them is asked twice, and each is above
  -- its first revision, was deployed within the batch window of the faulty revision, and is asked back to
  -- the revision that Helm then named as its last healthy one. If the time of the faulty revision is not
  -- known, no peer is considered and the gate is left alone.
  pub rollback_batch_peers-BatchEnd :
      (end : Time) (gate : CooldownManager) (history : Result (List (Release C))) (failed : String)
      (faulty : ℤ)
      → Within end
      → BatchEnd gate failed
          (deploy_time history failed faulty)
          (rollback_batch_peers show now helm c gate history failed faulty)
  unfolding rollback_batch_peers
  rollback_batch_peers-BatchEnd end gate history failed faulty within =
      batch_at-BatchEnd end gate failed (deploy_time history failed faulty) within
