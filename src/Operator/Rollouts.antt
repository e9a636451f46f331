-- ===== src/Operator/Rollouts.antt =====
-- internal/operator/progressive/manager.go: the records of deployments. The two maps of the source hold
-- pointers to records that they share: `records` is the heap, and a pointer is an index into it. What the
-- guard, the risk engine, Argo, the analysis and the verification answer in a call is an argument, and so
-- is the clock. Metrics and log lines are left out, and so is the detail in the error texts of a risk that
-- fails or is too high.

pub mod Monitoring
pub mod Pointers
pub mod Lasting
pub mod Runs
pub mod Aborts
mod Examples
use summer_project.Prelude.{
  ℕ, zero, suc, ◌+◌, ◌/◌, length, Bool, true, false, if◌then◌else◌, Option, none, some, List, [],
  ◌∷◌, ◌++◌, String,
}
use summer_project.Prelude.Int.{ℤ, pos, pos_part, ◌-ℤ◌, leb_ℤ}
use summer_project.Prelude.Text.{str_eq, sprint, show_ℤ}
use summer_project.Prelude.Maps.{Map, lookup, insert, delete}
use summer_project.Operator.Models.{Time, second}
use summer_project.Operator.Risk.{Ended, returned, panicked}

pub data RolloutState : Type 0 where
  pending starting canary paused promoting completed aborted rolling_back recovered failed :
      RolloutState

-- `end_time` is none for the zero time. The fields that no code sets are left out.
pub record DeploymentHistory (F : Type 0) : Type 0 where
  pub deployment_id : String
  pub helm_release : String
  pub argo_rollout : String
  pub start_time : Time
  pub end_time : Option Time
  pub promotion_result : String
  pub risk_score : F
  pub operator_decision : String
  pub current_state : RolloutState

module _ {ℓ} {A : Type ℓ} where
  abbrev pub get_elem? : List A → ℕ → Option A
  get_elem? [] i = none
  get_elem? (x ∷ xs) zero = some x
  get_elem? (x ∷ xs) (suc i) = get_elem? xs i

  abbrev pub set : List A → ℕ → A → List A
  set [] i v = []
  set (x ∷ xs) zero v = v ∷ xs
  set (x ∷ xs) (suc i) v = x ∷ set xs i v

-- time.Time.Unix: seconds since 1970.
abbrev pub unix : Time → ℤ
unix now = pos (pos_part (now -ℤ pos 62_135_596_800_000_000_000) / second)

abbrev pub history_id : String → Time → String
history_id name now = sprint ("deploy-" ∷ name ∷ "-" ∷ show_ℤ (unix now) ∷ [])

abbrev pub run_key : String → String → String
run_key name namespace = sprint (namespace ∷ "/" ∷ name ∷ [])

-- How CreateRollout ends: with the pointer of the new record, or with an error.
pub data Created : Type 0 where
  created : ℕ → Created
  refused : String → Created

pub record RolloutDetails : Type 0 where
  pub is_aborted : Bool
  pub current_weight : ℤ

-- What one call of MonitorRollout is told: none is an error.
pub record Told : Type 0 where
  pub rollout : Option RolloutDetails
  pub healthy : Option Bool
  pub verified : Option Bool

-- What a call asks of Argo and of the recovery executor.
pub data Command : Type 0 where
  abort_rollout promote_rollout pause_rollout : Command
  helm_rollback : String → Command

is_verified : Option Bool → Bool
is_verified none = false
is_verified (some v) = v

module _ (F : Type 0) where
  pub record DeliveryManager : Type 0 where
    pub records : List (DeploymentHistory F)
    pub history : Map ℕ
    pub active_runs : Map ℕ

  -- What the risk engine answers; an error is none.
  pub record Risk : Type 0 where
    pub score : F
    pub decision : String

  pub record Monitored : Type 0 where
    pub manager : DeliveryManager
    pub commands : List Command
    pub failure : Bool

  -- The calls that change the records.
  pub data Call : Type 0 where
    create : Time → String → String → String → Ended (Bool × String) → Ended (Option Risk) → Call
    monitor : Time → String → String → Told → Call

module _ {F : Type 0} where
  abbrev pub new_record : Time → String → String → Risk F → DeploymentHistory F
  new_record now name service risk = record {
    deployment_id = history_id name now;
    helm_release = service;
    argo_rollout = name;
    start_time = now;
    end_time = none;
    promotion_result = "Pending";
    risk_score = risk.score;
    operator_decision = risk.decision;
    current_state = starting;
  }

  abbrev pub registered :
      Time → String → String → String → Risk F → DeliveryManager F → DeliveryManager F
  registered now name namespace service risk dm =
      let at = length dm.records in
      record {
        records = dm.records ++ new_record now name service risk ∷ [];
        history = insert (history_id name now) at dm.history;
        active_runs = insert (run_key name namespace) at dm.active_runs;
      }

  with_risk :
      Time
      → String
      → String
      → String
      → DeliveryManager F
      → Ended (Option (Risk F))
      → DeliveryManager F × Ended Created
  with_risk now name namespace service dm panicked = (dm, panicked)
  with_risk now name namespace service dm (returned none) =
      (dm, returned (refused "failed to calculate risk"))
  with_risk now name namespace service dm (returned (some risk)) =
      if str_eq risk.decision "Reject"
      then (dm, returned (refused "deployment rejected due to high risk score"))
      else (registered now name namespace service risk dm, returned (created (length dm.records)))

  -- The guard answers no error, and the risk engine is asked only if the guard allows.
  unfoldable pub create_rollout :
      Time
      → String
      → String
      → String
      → Ended (Bool × String)
      → Ended (Option (Risk F))
      → DeliveryManager F
      → DeliveryManager F × Ended Created
  unfolding with_risk
  create_rollout now name namespace service panicked risk dm = (dm, panicked)
  create_rollout now name namespace service (returned (false, reason)) risk dm =
      (dm, returned (refused (sprint ("deployment blocked by guard policies: " ∷ reason ∷ []))))
  create_rollout now name namespace service (returned (true, reason)) risk dm =
      with_risk now name namespace service dm risk

  abbrev pub quiet : DeliveryManager F → Bool → Monitored F
  quiet dm failure = record { manager = dm; commands = []; failure = failure }

  abbrev pub with_record : ℕ → DeploymentHistory F → DeliveryManager F → DeliveryManager F
  with_record at r dm = record dm { records = set dm.records at r }

  -- The record gets its final state, and the run is no longer active.
  abbrev pub closed :
      Time
      → String
      → ℕ
      → RolloutState
      → String
      → DeploymentHistory F
      → DeliveryManager F
      → DeliveryManager F
  closed now key at state result r dm = record {
    records =
        set dm.records at
          (record r { current_state = state; promotion_result = result; end_time = some now });
    history = dm.history;
    active_runs = delete key dm.active_runs;
  }

  after_analysis :
      Time
      → String
      → ℕ
      → DeploymentHistory F
      → Option Bool
      → Option Bool
      → DeliveryManager F
      → Monitored F
  unfolding is_verified
  after_analysis now key at r none verified dm = quiet dm true
  after_analysis now key at r (some false) verified dm = record {
    manager = closed now key at aborted "Aborted" r dm;
    commands = abort_rollout ∷ helm_rollback r.helm_release ∷ [];
    failure = false;
  }
  after_analysis now key at r (some true) verified dm =
      if is_verified verified
      then record {
        manager = with_record at (record r { current_state = promoting }) dm;
        commands = promote_rollout ∷ [];
        failure = false;
      }
      else record {
        manager = with_record at (record r { current_state = paused }) dm;
        commands = pause_rollout ∷ [];
        failure = false;
      }

  -- What follows under the lock, with the record that the pointer leads to.
  transition :
      Time
      → String
      → ℕ
      → DeploymentHistory F
      → RolloutDetails
      → Told
      → DeliveryManager F
      → Monitored F
  unfolding after_analysis
  transition now key at r ro told dm =
      if ro.is_aborted
      then quiet (closed now key at aborted "Aborted" r dm) false
      else if leb_ℤ (pos 100) ro.current_weight
      then quiet (closed now key at completed "Promoted" r dm) false
      else after_analysis now key at r told.healthy told.verified dm

  -- What Argo answers, between the two regions under the lock.
  followed :
      Time
      → String
      → ℕ
      → DeploymentHistory F
      → Option RolloutDetails
      → Told
      → DeliveryManager F
      → Monitored F
  unfolding transition
  followed now key at r none told dm = quiet dm true
  followed now key at r (some ro) told dm = transition now key at r ro told dm

  -- The pointer was read under the lock before; a pointer always leads to a record.
  settle : Time → String → ℕ → Option (DeploymentHistory F) → Told → DeliveryManager F → Monitored F
  unfolding followed
  settle now key at none told dm = quiet dm true
  settle now key at (some r) told dm = followed now key at r told.rollout told dm

  monitor_at : Time → String → Option ℕ → Told → DeliveryManager F → Monitored F
  unfolding settle
  monitor_at now key none told dm = quiet dm true
  monitor_at now key (some at) told dm = settle now key at (get_elem? dm.records at) told dm

  -- One call that no other interrupts between its two regions under the lock.
  unfoldable pub monitor_rollout : Time → String → String → Told → DeliveryManager F → Monitored F
  unfolding monitor_at
  monitor_rollout now name namespace told dm =
      let key = run_key name namespace in monitor_at now key (lookup key dm.active_runs) told dm

  abbrev pub step : Call F → DeliveryManager F → DeliveryManager F
  step (create now name namespace service guard risk) dm =
      (create_rollout now name namespace service guard risk dm).0
  step (monitor now name namespace told) dm = (monitor_rollout now name namespace told dm).manager

  unfoldable pub run : List (Call F) → DeliveryManager F → DeliveryManager F
  run [] dm = dm
  run (c ∷ cs) dm = run cs (step c dm)

  abbrev pub new_manager : DeliveryManager F
  new_manager = record { records = []; history = []; active_runs = [] }
