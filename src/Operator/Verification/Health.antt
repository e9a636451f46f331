-- ===== src/Operator/Verification/Health.antt =====
-- internal/operator/verification/engine.go: exactly when a recovery counts as verified.
use summer_project.Prelude.{
  true, false, ◌||◌, ◌≡◌, ◌≢◌, refl, subst, ap, ◌∙◌, inl, inr, ◌↔◌, Option, none, some, List, [],
  ◌∷◌, String, arith, All, Bool-cases, Option-cases,
}
use summer_project.Prelude.Int.{ℤ, ◌≤ℤ◌, ltb_ℤ}
use summer_project.Prelude.Text.{str_eq, eq_iff}
use summer_project.Prelude.Float.{Float64}
use summer_project.Operator.Helm.{Result, ok, err, Result-cases}
use summer_project.Operator.Verification.{
  Deployment, ContainerStatus, Pod, Cluster, Verdict, is_critical, container_passes,
  containers_pass, pods_pass, with_pods, with_selector, with_desired, with_deployment, verify,
  still_firing, verify_slo, after_health, verify_health_and_slo,
}

abbrev pub Passing : ContainerStatus → Type 0
Passing s = (s.ready ≡ true) × (is_critical s.waiting ≡ false)

abbrev pub Running : Pod → Type 0
Running p = (p.phase ≡ "Running") × All Passing p.container_statuses

container_passes_iff : (s : ContainerStatus) → (container_passes s ≡ true) ↔ Passing s
container_passes_iff s = elim (Bool-cases s.ready) [
  | inl up ↦ elim (Bool-cases (is_critical s.waiting)) [
    | inl bad ↦ rw (up, bad) (λ h. cc h, λ h. cc (h.1))
    | inr fine ↦ rw (up, fine) (λ _. (refl, refl), λ _. refl)
  ]
  | inr down ↦ rw down (λ h. cc h, λ h. cc (h.0))
]

containers_pass_iff : (ss : List ContainerStatus) → (containers_pass ss ≡ true) ↔ All Passing ss
unfolding containers_pass
containers_pass_iff [] = (λ _. tt, λ _. refl)
containers_pass_iff (s ∷ ss) =
    let (to, from) = containers_pass_iff ss in
    let (one, back) = container_passes_iff s in
    elim (Bool-cases (container_passes s)) [
      | inl good ↦ rw good (λ h. (one good, to h), λ h. from h.1)
      | inr bad ↦ rw bad (λ h. absurd (cc h), λ h. absurd (cc (bad, back h.0)))
    ]

pods_pass_iff : (ps : List Pod) → (pods_pass ps ≡ true) ↔ All Running ps
unfolding pods_pass
pods_pass_iff [] = (λ _. tt, λ _. refl)
pods_pass_iff (p ∷ ps) =
    let (to, from) = pods_pass_iff ps in
    let (all, back) = containers_pass_iff p.container_statuses in
    let same = eq_iff p.phase "Running" in
    elim (Bool-cases (str_eq p.phase "Running")) [
      | inr other ↦ rw other (λ h. absurd (cc h), λ h. absurd (cc (other, same.1 h.0.0)))
      | inl running ↦ elim (Bool-cases (containers_pass p.container_statuses)) [
        | inl good ↦ rw (running, good) (λ h. ((same.0 running, all good), to h), λ h. from h.1)
        | inr bad ↦ rw (running, bad) (λ h. absurd (cc h), λ h. absurd (cc (bad, back h.0.1)))
      ]
    ]

-- What Kubernetes has to answer.
pub record IsUp (c : Cluster) : Type 0 where
  pub deployed : Deployment
  pub wanted : ℤ
  pub listed : List Pod
  pub at_deployment : c.deployment ≡ ok deployed
  pub at_desired : deployed.desired ≡ some wanted
  pub enough_ready : wanted ≤ℤ deployed.ready
  pub enough_updated : wanted ≤ℤ deployed.updated
  pub selected : c.selector ≡ none
  pub at_pods : c.pods ≡ ok listed
  pub not_empty : listed ≢ []
  pub all_running : All Running listed

with_pods_iff :
    (pods : Result (List Pod))
    → ((with_pods pods).0 ≡ true) ↔ ((ps : List Pod) × (pods ≡ ok ps) × (ps ≢ []) × All Running ps)
unfolding with_pods
with_pods_iff (err e) = (λ h. cc h, λ (ps, found, some_pods, rest). cc found)
with_pods_iff (ok []) = (λ h. cc h, λ (ps, found, some_pods, rest). absurd (some_pods (cc found)))
with_pods_iff (ok (p ∷ ps)) = (
  λ h. (p ∷ ps, refl, λ e. cc e, (pods_pass_iff (p ∷ ps)).0 h),
  λ (qs, found, some_pods, running).
      (pods_pass_iff (p ∷ ps)).1 (subst (All Running) {x = qs} {y = p ∷ ps} (cc found) running),
)

with_pods-Running : (ps : List Pod) → ps ≢ [] → All Running ps → with_pods (ok ps) ≡ (true, none)
unfolding with_pods
with_pods-Running [] some_pods running = absurd (some_pods refl)
with_pods-Running (p ∷ ps) some_pods running = rw ((pods_pass_iff (p ∷ ps)).1 running) refl

-- While Kubernetes answers a deployment with a wanted number, the rest of the check.
with_desired-IsUp :
    (c : Cluster) (d : Deployment) (n : ℤ)
    → c.deployment ≡ ok d
    → d.desired ≡ some n
    → (with_desired (some n) d c).0 ≡ true
    → IsUp c
unfolding with_desired with_selector
with_desired-IsUp c d n deployed wanted h =
    elim (Bool-cases (ltb_ℤ d.ready n || ltb_ℤ d.updated n)) [
      | inl few ↦ absurd (cc (rw few at h))
      | inr enough ↦ elim (Option-cases c.selector) [
        | inr (e, broken) ↦ absurd (cc (rw (enough, broken, with_selector) at h))
        | inl fine ↦
            let (ps, found, some_pods, running) =
              (with_pods_iff c.pods).0 (rw (enough, fine, with_selector) at h) in
            record {
              deployed = d;
              wanted = n;
              listed = ps;
              at_deployment = deployed;
              at_desired = wanted;
              enough_ready = ground (arith, enough);
              enough_updated = ground (arith, enough);
              selected = fine;
              at_pods = found;
              not_empty = some_pods;
              all_running = running;
            }
      ]
    ]

verify-IsUp : (c : Cluster) → (verify c).0 ≡ true → IsUp c
unfolding verify with_deployment with_desired
verify-IsUp c h = elim (Result-cases c.deployment) [
  | inr (e, silent) ↦ absurd (cc (rw (silent, with_deployment) at h))
  | inl (d, deployed) ↦ elim (Option-cases d.desired) [
    | inl nil ↦ absurd (cc (rw (deployed, with_deployment, nil, with_desired) at h))
    | inr (n, wanted) ↦
        with_desired-IsUp c d n deployed wanted (rw (deployed, with_deployment, wanted) at h)
  ]
]

enough :
    (n ready updated : ℤ) → n ≤ℤ ready → n ≤ℤ updated → (ltb_ℤ ready n || ltb_ℤ updated n) ≡ false
enough n ready updated h k = ground (arith, h, k)

IsUp-verify : (c : Cluster) → IsUp c → verify c ≡ (true, none)
unfolding verify with_deployment with_desired with_selector with_pods
IsUp-verify c u =
    rw
      (
        u.at_deployment,
        with_deployment,
        u.at_desired,
        with_desired,
        enough u.wanted u.deployed.ready u.deployed.updated u.enough_ready u.enough_updated,
        u.selected,
        with_selector,
      )
      (rw u.at_pods (with_pods-Running u.listed u.not_empty u.all_running))

after_health-true : (fl : Float64) (v slo : Verdict) → (after_health fl v slo).0 ≡ true → v.0 ≡ true
after_health-true fl (true, e) slo h = refl
after_health-true fl (false, none) slo h = h
after_health-true fl (false, some e) slo h = h

module _ (fl : Float64) where
  open fl use {F, lit, lt}

  -- An attached client that is asked for an alert does not answer that it fires.
  abbrev pub IsQuiet : Option (String → Result F) → String → Type 0
  IsQuiet client alert_name =
      (query : String → Result F)
      → client ≡ some query
      → alert_name ≢ ""
      → (firing : F) → query alert_name ≡ ok firing
      → lt (lit 0 0) firing ≡ false

  still_firing-quiet :
      (r : Result F)
      → ((still_firing fl r).0 ≡ true) ↔ ((n : F) → r ≡ ok n → lt (lit 0 0) n ≡ false)
  still_firing-quiet (err e) = (λ _ n h. cc h, λ _. refl)
  still_firing-quiet (ok n) = elim (Bool-cases (lt (lit 0 0) n)) [
    | inl fires ↦ rw fires (λ h. absurd (cc h), λ quiet. absurd (cc (fires, quiet n refl)))
    | inr quiet ↦
        rw quiet
          (λ _ m h. subst (λ k. lt (lit 0 0) k ≡ false) {x = n} {y = m} (cc h) quiet, λ _. refl)
  ]

  verify_slo-IsQuiet :
      (client : Option (String → Result F)) (alert_name : String)
      → ((verify_slo fl client alert_name).0 ≡ true) ↔ IsQuiet client alert_name
  unfolding verify_slo
  verify_slo-IsQuiet none alert_name = (λ _ q h. cc h, λ _. refl)
  verify_slo-IsQuiet (some query) alert_name = elim (Bool-cases (str_eq alert_name "")) [
    | inl empty ↦
        rw empty (λ _ q same named. absurd (named ((eq_iff alert_name "").0 empty)), λ _. refl)
    | inr named ↦ rw named (
      λ h q same _ n answers.
          let e : query ≡ q = cc same in
          (still_firing-quiet (query alert_name)).0 h n (ap (λ f. f alert_name) e ∙ answers),
      λ quiet.
          (still_firing-quiet (query alert_name)).1
            (quiet query refl (λ e. absurd (cc (named, (eq_iff alert_name "").1 e)))),
    )
  ]

  -- The manager takes a recovery for verified exactly if Kubernetes answers that the deployment has as many
  -- ready and as many updated replicas as it wants, that it has pods, and that all of them run with every
  -- container ready and none waiting for a critical reason; and if a client of Prometheus is attached and the
  -- alert has a name, the client does not answer that it still fires.
  pub verify_health_and_slo_iff :
      (c : Cluster) (client : Option (String → Result F)) (alert_name : String)
      → ((verify_health_and_slo fl c client alert_name).0 ≡ true)
        ↔ (IsUp c × IsQuiet client alert_name)
  unfolding verify_health_and_slo
  verify_health_and_slo_iff c client alert_name = (
    λ h.
        let up =
          verify-IsUp c (after_health-true fl (verify c) (verify_slo fl client alert_name) h) in
        (up, (verify_slo-IsQuiet client alert_name).0 (rw (IsUp-verify c up) at h)),
    λ (up, quiet). rw (IsUp-verify c up) ((verify_slo-IsQuiet client alert_name).1 quiet),
  )
