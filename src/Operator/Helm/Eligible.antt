-- ===== src/Operator/Helm/Eligible.antt =====
-- What makes a revision one to roll back to, said without the tests of GetLastHealthyRevision.
use summer_project.Prelude.{
  Bool, true, false, ◌≡◌, ◌≢◌, refl, ◌⊎◌, inl, inr, Option, none, some, List, [], ◌∷◌, Bool-cases,
  arith,
}
use summer_project.Prelude.Int.{ℤ, eqb_ℤ}
use summer_project.Operator.Helm.{
  Info, Status, unknown, deployed, uninstalled, superseded, failed, uninstalling, pending_install,
  pending_upgrade, pending_rollback, Release, current_config, same_config, is_target, is_viable,
}

-- Helm deployed it once, and has not marked it as failed or removed since.
abbrev pub WasDeployed : Option Info → Type 0
WasDeployed info = (i : Info) × (info ≡ some i) × ((i.status ≡ deployed) ⊎ (i.status ≡ superseded))

viable_status :
    (i : Info) → (s : Status) → i.status ≡ s → is_viable (some i) ≡ true → WasDeployed (some i)
viable_status i deployed e h = (i, refl, inl e)
viable_status i superseded e h = (i, refl, inr e)
viable_status i unknown e h = cc (rw e at h)
viable_status i uninstalled e h = cc (rw e at h)
viable_status i failed e h = cc (rw e at h)
viable_status i uninstalling e h = cc (rw e at h)
viable_status i pending_install e h = cc (rw e at h)
viable_status i pending_upgrade e h = cc (rw e at h)
viable_status i pending_rollback e h = cc (rw e at h)

is_viable-WasDeployed : (info : Option Info) → is_viable info ≡ true → WasDeployed info
is_viable-WasDeployed none h = cc
is_viable-WasDeployed (some i) h = viable_status i i.status refl h

WasDeployed-is_viable : (info : Option Info) → WasDeployed info → is_viable info ≡ true
WasDeployed-is_viable info (i, e, inl d) = rw (e, d) refl
WasDeployed-is_viable info (i, e, inr s) = rw (e, s) refl

module _ {C : Type 0} (deep_equal : C → C → Bool) where
  -- The first release of the list that has the version carries the values.
  abbrev pub HasValues : ℤ → C → List (Release C) → Type 0
  HasValues v c [] = ⊥
  HasValues v c (r ∷ rs) =
      ((r.version ≡ v) × (r.config ≡ some c)) ⊎ ((r.version ≢ v) × HasValues v c rs)

  current_config-HasValues :
      (v : ℤ) (c : C) (rs : List (Release C))
      → current_config deep_equal v rs ≡ some c
      → HasValues v c rs
  unfolding current_config
  current_config-HasValues v c [] h = cc
  current_config-HasValues v c (r ∷ rs) h = elim (Bool-cases (eqb_ℤ r.version v)) [
    | inl same ↦ inl (ground (arith, same), rw same at h)
    | inr other ↦
        inr ((λ e. ground (arith, e, other)), current_config-HasValues v c rs (rw other at h))
  ]

  HasValues-current_config :
      (v : ℤ) (c : C) (rs : List (Release C))
      → HasValues v c rs
      → current_config deep_equal v rs ≡ some c
  unfolding current_config
  HasValues-current_config v c [] h = absurd h
  HasValues-current_config v c (r ∷ rs) (inl (e, carries)) = elim (Bool-cases (eqb_ℤ r.version v)) [
    | inl same ↦ rw same carries
    | inr other ↦ ground (arith, e, other)
  ]
  HasValues-current_config v c (r ∷ rs) (inr (ne, h)) = elim (Bool-cases (eqb_ℤ r.version v)) [
    | inl same ↦ absurd (ne (ground (arith, same)))
    | inr other ↦ rw other (HasValues-current_config v c rs h)
  ]

  -- It is not the revision that is taken for the current one, was once deployed, and does not carry
  -- the values of that revision, where both carry values.
  pub record IsEligible (current : ℤ) (history : List (Release C)) (r : Release C) : Type 0 where
    pub not_current : r.version ≢ current
    pub was_deployed : WasDeployed r.info
    pub differs :
        (c d : C) → HasValues current c history → r.config ≡ some d → deep_equal d c ≡ false

  differs_from :
      (config mine : Option C) (c d : C)
      → same_config deep_equal config mine ≡ false
      → config ≡ some c
      → mine ≡ some d
      → deep_equal d c ≡ false
  differs_from config mine c d h e f = rw (e, f) at h

  differs-same_config :
      (config mine : Option C)
      → ((c d : C) → config ≡ some c → mine ≡ some d → deep_equal d c ≡ false)
      → same_config deep_equal config mine ≡ false
  differs-same_config none mine h = refl
  differs-same_config (some c) none h = refl
  differs-same_config (some c) (some d) h = h c d refl refl

  pub is_target-IsEligible :
      (current : ℤ) (history : List (Release C)) (r : Release C)
      → is_target deep_equal current (current_config deep_equal current history) r ≡ true
      → IsEligible current history r
  is_target-IsEligible current history r h = elim (Bool-cases (eqb_ℤ r.version current)) [
    | inl same ↦ cc (rw same at h)
    | inr other ↦
        elim (Bool-cases
          (same_config deep_equal (current_config deep_equal current history) r.config)) [
            | inl equal ↦ cc (rw (other, equal) at h)
            | inr differ ↦ record {
              not_current = λ e. ground (arith, e, other);
              was_deployed = is_viable-WasDeployed r.info (rw (other, differ) at h);
              differs = λ c d held mine.
                  differs_from _ r.config c d differ
                    (HasValues-current_config current c history held) mine;
            }
          ]
  ]

  pub IsEligible-is_target :
      (current : ℤ) (history : List (Release C)) (r : Release C)
      → IsEligible current history r
      → is_target deep_equal current (current_config deep_equal current history) r ≡ true
  IsEligible-is_target current history r h =
      let differ =
        differs-same_config (current_config deep_equal current history) r.config
          (λ c d e mine. h.differs c d (current_config-HasValues current c history e) mine) in
      elim (Bool-cases (eqb_ℤ r.version current)) [
        | inl same ↦ absurd (h.not_current (ground (arith, same)))
        | inr other ↦ rw (other, differ) (WasDeployed-is_viable r.info h.was_deployed)
      ]
