-- ===== src/Operator/Manager/Held.antt =====
-- What calls of ProcessAlert do with the alerts of an incident that is already dealt with.
use summer_project.Prelude.{◌≡◌, refl, ◌∙◌, sym, subst, Option, none, List, [], ◌∷◌, String, All}
use summer_project.Prelude.Float.{Float64}
use summer_project.Operator.Models.{Time, State, Alert, Policy}
use summer_project.Operator.Reports.{Signals}
use summer_project.Operator.Manager.{Manager, Started, Outcome, process_alert}
use summer_project.Operator.Manager.Locked.{IsLocked, Refuses, IsLocked-Refuses, Holds}
use summer_project.Operator.Manager.Busy.{Untouched, process_alert-Untouched}

module _ (fl : Float64) where
  open fl use {F}

  -- A call of ProcessAlert: the alert, with the clock, the random part of an id, the policies and what
  -- the signal engines answer.
  pub record Call : Type 0 where
    pub alert : Alert
    pub now : Time
    pub random : String
    pub policies : List Policy
    pub signals : Signals F

  abbrev pub answer : String → Manager → Call → Outcome
  answer version mgr c = process_alert fl c.now version c.random c.policies c.signals mgr c.alert

  -- The manager after the calls, and the pipelines that they start.
  unfoldable pub run_calls : String → Manager → List Call → Manager
  run_calls version mgr [] = mgr
  run_calls version mgr (c ∷ cs) = run_calls version (answer version mgr c).manager cs

  unfoldable pub started_by : String → Manager → List Call → List (Option Started)
  started_by version mgr [] = []
  started_by version mgr (c ∷ cs) =
      (answer version mgr c).pipeline ∷ started_by version (answer version mgr c).manager cs

  pub record IsHeld (version fingerprint : String) (s : State) (mgr : Manager) (cs : List Call)
      : Type 0 where
    pub no_pipelines : All (λ p. p ≡ none) (started_by version mgr cs)
    pub same_decisions : (run_calls version mgr cs).decisions ≡ mgr.decisions
    pub same_cooldown : (run_calls version mgr cs).cooldown ≡ mgr.cooldown
    pub still : Holds (run_calls version mgr cs).store fingerprint s

  run_calls-Refuses :
      (version fingerprint : String) (s : State) (mgr : Manager) (cs : List Call)
      → Refuses s
      → Holds mgr.store fingerprint s
      → All (λ c. c.alert.fingerprint ≡ fingerprint) cs
      → IsHeld version fingerprint s mgr cs
  unfolding run_calls started_by
  run_calls-Refuses version fingerprint s mgr [] r h own = record {
    no_pipelines = tt;
    same_decisions = refl;
    same_cooldown = refl;
    still = h;
  }
  run_calls-Refuses version fingerprint s mgr (c ∷ cs) r h (mine, own) =
      let one : Untouched fingerprint s mgr (answer version mgr c) =
        subst (λ f. Untouched f s mgr (answer version mgr c)) mine
          (process_alert-Untouched fl c.now version c.random c.policies c.signals mgr c.alert s r
            (subst (λ f. Holds mgr.store f s) (sym mine) h)) in
      let rest =
        run_calls-Refuses version fingerprint s (answer version mgr c).manager cs r one.still own in
      record {
        no_pipelines = (one.no_pipeline, rest.no_pipelines);
        same_decisions = rest.same_decisions ∙ one.same_decisions;
        same_cooldown = rest.same_cooldown ∙ one.same_cooldown;
        still = rest.still;
      }

  -- However many alerts of one fingerprint come, of whatever status, policies and signals, to a manager
  -- that leads or does not: if the incident that is stored for it is in one of the states DecisionMade,
  -- RecoveryPlanned, ExecutingRollback, RollbackComplete, VerificationFailed and Retrying, and nothing else
  -- changes the stores between the calls, no pipeline is started, no decision is recorded, no cooldown
  -- window is opened or closed, and the incident stays in its state.
  pub run_calls-IsHeld :
      (version fingerprint : String) (s : State) (mgr : Manager) (cs : List Call)
      → IsLocked s
      → Holds mgr.store fingerprint s
      → All (λ c. c.alert.fingerprint ≡ fingerprint) cs
      → IsHeld version fingerprint s mgr cs
  run_calls-IsHeld version fingerprint s mgr cs locked h own =
      run_calls-Refuses version fingerprint s mgr cs (IsLocked-Refuses s locked) h own
