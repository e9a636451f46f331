-- ===== src/Operator/Risk/Ongoing.antt =====
-- internal/operator/progressive/guard.go: the incidents that hinder a deployment.
use summer_project.Prelude.{
  true, ◌≡◌, ◌≢◌, refl, sym, ap, subst, ◌⊎◌, inl, inr, ◌↔◌, Option, none, some, List, [], ◌∷◌,
  String, arith, Bool-cases,
}
use summer_project.Prelude.Text.{eq_iff}
use summer_project.Prelude.Float.{Float64}
use summer_project.Operator.Models.{State, healthy, Incident}
use summer_project.Operator.Risk.{DeploymentGuardConfig, is_healthy, is_ongoing, ongoing, blocking}

abbrev pub In : Incident → List Incident → Type 0
In i [] = ⊥
In i (j ∷ js) = (i ≡ j) ⊎ In i js

is_healthy_iff : (s : State) → (is_healthy s ≡ true) ↔ (s ≡ healthy)
is_healthy_iff healthy = (λ _. refl, λ _. refl)
is_healthy_iff _ = (λ h. cc h, λ h. cc h)

module _ (fl : Float64) where
  open fl use {F}

  -- No incident of the service that is not healthy is listed, where the configuration asks for that; and
  -- the contrary.
  abbrev pub Calm : DeploymentGuardConfig fl → Option (List Incident) → String → Type 0
  Calm cfg active service =
      cfg.block_on_critical_incidents ≡ true
      → (is : List Incident) → active ≡ some is
      → (i : Incident) → In i is
      → i.service ≡ service
      → i.current_state ≡ healthy

  pub record Hindered (cfg : DeploymentGuardConfig fl) (active : Option (List Incident))
      (service : String) : Type 0 where
    pub asked : cfg.block_on_critical_incidents ≡ true
    pub listed : List Incident
    pub are_active : active ≡ some listed
    pub incident : Incident
    pub among : In incident listed
    pub of_service : incident.service ≡ service
    pub not_healthy : incident.current_state ≢ healthy

  ongoing-In :
      (service : String) (is : List Incident) (i : Incident)
      → ongoing fl service is ≡ some i
      → In i is × (i.service ≡ service) × (i.current_state ≢ healthy)
  unfolding ongoing
  ongoing-In service [] i h = cc h
  ongoing-In service (j ∷ js) i h = elim (Bool-cases (is_ongoing fl service j)) [
    | inl on ↦
        let same : j ≡ i = cc (rw on at h) in
        (
          inl (sym same),
          subst (λ k. k.service ≡ service) same (ground (arith, on, eq_iff j.service service)),
          subst (λ k. k.current_state ≢ healthy) same
              (λ e. ground (arith, on, (is_healthy_iff j.current_state).1 e)),
        )
    | inr off ↦
        let (among, own, ill) = ongoing-In service js i (rw off at h) in (inr among, own, ill)
  ]

  ongoing-none :
      (service : String) (is : List Incident) (i : Incident)
      → ongoing fl service is ≡ none
      → In i is
      → i.service ≡ service
      → i.current_state ≡ healthy
  unfolding ongoing
  ongoing-none service [] i h among own = absurd among
  ongoing-none service (j ∷ js) i h among own = elim (Bool-cases (is_ongoing fl service j)) [
    | inl on ↦ absurd (cc (rw on at h))
    | inr off ↦ elim among [
      | inl first ↦
          subst (λ k. k.current_state ≡ healthy) (sym first)
            ((is_healthy_iff j.current_state).0 (
              ground (
                arith,
                off,
                eq_iff j.service service,
                ap (λ (k : Incident). k.service) first,
                own,
              )))
      | inr later ↦ ongoing-none service js i (rw off at h) later own
    ]
  ]

  pub blocking-Calm :
      (cfg : DeploymentGuardConfig fl) (active : Option (List Incident)) (service : String)
      → blocking fl cfg service active ≡ none
      → Calm cfg active service
  blocking-Calm cfg none service h asked is e i among own = cc e
  blocking-Calm cfg (some listed) service h asked is e i among own =
      ongoing-none service is i (ground (arith, h, asked, e)) among own

  pub blocking-Hindered :
      (cfg : DeploymentGuardConfig fl) (active : Option (List Incident)) (service : String)
      (i : Incident)
      → blocking fl cfg service active ≡ some i
      → Hindered cfg active service
  blocking-Hindered cfg none service i h = cc h
  blocking-Hindered cfg (some listed) service i h =
      elim (Bool-cases cfg.block_on_critical_incidents) [
        | inl asked ↦
            let (among, own, ill) = ongoing-In service listed i (rw asked at h) in
            record {
              asked = asked;
              listed = listed;
              are_active = refl;
              incident = i;
              among = among;
              of_service = own;
              not_healthy = ill;
            }
        | inr not_asked ↦ absurd (cc (rw not_asked at h))
      ]
