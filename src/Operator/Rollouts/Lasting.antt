-- ===== src/Operator/Rollouts/Lasting.antt =====
-- internal/operator/progressive/manager.go: each active run has a record of its own.
use summer_project.Prelude.{
  ℕ, ◌==◌, length, Bool, true, false, ◌≡◌, ◌≢◌, refl, sym, ap, subst, ◌∙◌, inl, inr, some, [], ◌∷◌,
  ◌++◌, String, arith, Bool-cases,
}
use summer_project.Prelude.Maps.{Map, lookup}
use summer_project.Operator.Models.{Time}
use summer_project.Operator.Rollouts.{
  RolloutState, completed, aborted, DeploymentHistory, get_elem?, set, run_key, new_record,
  registered, DeliveryManager, Risk, with_record, closed, new_manager,
}
use summer_project.Operator.Rollouts.Pointers.{
  get_elem?-append, get_elem?-last, get_elem?-length, get_elem?-set_ne, get_elem?-set_self,
  was_active, after_insert,
}

abbrev pub is_final : RolloutState → Bool
is_final completed = true
is_final aborted = true
is_final _ = false

module _ {F : Type 0} where
  abbrev pub HoldsRecord : DeliveryManager F → ℕ → DeploymentHistory F → Type 0
  HoldsRecord dm at r = get_elem? dm.records at ≡ some r

  -- Each active run has a record of its own, which is not final.
  pub record IsDelivering (dm : DeliveryManager F) : Type 0 where
    pub own :
        (k l : String) (at : ℕ)
        → lookup k dm.active_runs ≡ some at
        → lookup l dm.active_runs ≡ some at
        → k ≡ l
    pub running :
        (k : String) (at : ℕ)
        → lookup k dm.active_runs ≡ some at
        → (r : DeploymentHistory F) × HoldsRecord dm at r × (is_final r.current_state ≡ false)

  -- A record that is final is as it was.
  abbrev pub Keeps : DeliveryManager F → DeliveryManager F → Type 0
  Keeps dm dm' =
      (at : ℕ) (r : DeploymentHistory F)
      → HoldsRecord dm at r
      → is_final r.current_state ≡ true
      → HoldsRecord dm' at r

  pub IsDelivering-new : IsDelivering new_manager
  unfolding lookup
  IsDelivering-new = record { own = λ k l at e. cc e; running = λ k at e. cc e }

  -- A record that is put at the pointer of an active run, which goes on or is closed.
  pub Keeps-set :
      (dm : DeliveryManager F) (k : String) (at : ℕ) (r : DeploymentHistory F) (h a : Map ℕ)
      → IsDelivering dm
      → lookup k dm.active_runs ≡ some at
      → Keeps dm (record { records = set dm.records at r; history = h; active_runs = a })
  Keeps-set dm k at r h a d active other s there final =
      let (u, found, open_now) = d.running k at active in
      get_elem?-set_ne dm.records at other r
        (λ same. ground (arith, found, open_now, there, final, ap (get_elem? dm.records) same))
      ∙ there

  pub IsDelivering-with_record :
      (dm : DeliveryManager F) (k : String) (at : ℕ) (r : DeploymentHistory F)
      → IsDelivering dm
      → lookup k dm.active_runs ≡ some at
      → is_final r.current_state ≡ false
      → IsDelivering (with_record at r dm)
  IsDelivering-with_record dm k at r d active open_now = record {
    own = d.own;
    running = λ l other e.
        let (u, found, still) = d.running l other e in
        elim (Bool-cases (at == other)) [
          | inl same ↦
              let it : at ≡ other = ground (arith, same) in
              (
                r,
                subst (λ n. get_elem? (set dm.records at r) n ≡ some r) it
                    (get_elem?-set_self dm.records at u r
                      (subst (λ n. get_elem? dm.records n ≡ some u) (sym it) found)),
                open_now,
              )
          | inr away ↦ (
            u,
            get_elem?-set_ne dm.records at other r (λ same. ground (arith, away, same)) ∙ found,
            still,
          )
        ];
  }

  pub IsDelivering-closed :
      (now : Time) (dm : DeliveryManager F) (k : String) (at : ℕ) (r : DeploymentHistory F)
      (state : RolloutState) (result : String)
      → IsDelivering dm
      → lookup k dm.active_runs ≡ some at
      → IsDelivering (closed now k at state result r dm)
  IsDelivering-closed now dm k at r state result d active = record {
    own = λ l m other e f.
        d.own l m other (was_active k l other dm.active_runs e).0
          (was_active k m other dm.active_runs f).0;
    running = λ l other e.
        let (before, apart) = was_active k l other dm.active_runs e in
        let (u, found, still) = d.running l other before in
        (
          u,
          get_elem?-set_ne dm.records at other _
                (λ same. apart (d.own k l other (active ∙ ap some same) before))
              ∙ found,
          still,
        );
  }

  -- No active run has the pointer of the next record.
  pub not_active :
      (dm : DeliveryManager F) (k : String)
      → IsDelivering dm
      → lookup k dm.active_runs ≢ some (length dm.records)
  not_active dm k d active =
      let (u, found, _) = d.running k (length dm.records) active in
      cc (found, get_elem?-length dm.records)

  pub IsDelivering-registered :
      (now : Time) (name namespace service : String) (risk : Risk F) (dm : DeliveryManager F)
      → IsDelivering dm
      → IsDelivering (registered now name namespace service risk dm)
  IsDelivering-registered now name namespace service risk dm d =
      let key = run_key name namespace in
      let n = length dm.records in
      record {
        own = λ k l at e f. elim (after_insert key k n at dm.active_runs e) [
          | inl (is_k, is_at) ↦ elim (after_insert key l n at dm.active_runs f) [
            | inl (is_l, _) ↦ sym is_k ∙ is_l
            | inr old ↦ absurd (not_active dm l d (old ∙ ap some (sym is_at)))
          ]
          | inr old ↦ elim (after_insert key l n at dm.active_runs f) [
            | inl (_, is_at) ↦ absurd (not_active dm k d (old ∙ ap some (sym is_at)))
            | inr old' ↦ d.own k l at old old'
          ]
        ];
        running = λ k at e. elim (after_insert key k n at dm.active_runs e) [
          | inl (_, is_at) ↦
              let r = new_record now name service risk in
              (
                r,
                subst (λ i. get_elem? (dm.records ++ r ∷ []) i ≡ some r) is_at
                    (get_elem?-last dm.records r),
                refl,
              )
          | inr old ↦
              let (u, found, still) = d.running k at old in
              (u, get_elem?-append dm.records _ at u found, still)
        ];
      }
