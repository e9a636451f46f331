-- ===== src/Operator/StateMachine/History.antt =====
-- What the state machine guarantees of an incident's history, over any sequence of requested moves.
use summer_project.Prelude.{
  Bool, true, false, ◌≡◌, refl, ◌∙◌, ◌⊎◌, inl, inr, none, some, List, [], ◌∷◌, ◌++◌, String,
  Bool-cases,
}
use summer_project.Operator.Models.{
  Time, State, unset, healthy, warning, investigating, decision_made, recovery_planned,
  executing_rollback, rollback_complete, verifying, verification_failed, retrying, waiting,
  recovered, failed, StateTransition, Incident,
}
use summer_project.Operator.StateMachine.{
  transition, is_transition_allowed, targets, from_state, moved, refusal,
}

-- The requests that one incident gets, each at its time.
pub record Request : Type 0 where
  pub at : Time
  pub target : State
  pub because : String

-- A caller may ignore the error, so a run goes on after a refusal.
unfoldable pub run_requests : Incident → List Request → Incident
run_requests i [] = i
run_requests i (r ∷ rs) = run_requests (transition r.at i r.target r.because).0 rs

-- The moves of a history follow one another from `s`, each allowed.
abbrev pub Chain : State → List StateTransition → State → Type 0
Chain s [] t = s ≡ t
Chain s (m ∷ ms) t =
    (s ≡ m.from_state)
    × (is_transition_allowed m.from_state m.to_state ≡ true)
    × Chain m.to_state ms t

Chain-snoc :
    (s t u : State) (ms : List StateTransition) (m : StateTransition)
    → Chain s ms t
    → t ≡ m.from_state
    → is_transition_allowed m.from_state m.to_state ≡ true
    → m.to_state ≡ u
    → Chain s (ms ++ m ∷ []) u
Chain-snoc s t u [] m c e a f = (c ∙ e, a, f)
Chain-snoc s t u (n ∷ ms) m c e a f = (c.0, c.1, Chain-snoc n.to_state t u ms m c.2 e a f)

-- Every accepted move is either to the same state or along the diagram, sets the state, stamps the
-- time, and appends one entry; a refused one reports the two states and changes nothing.
pub transition_cases :
    (now : Time) (i : Incident) (to : State) (reason : String)
    → ((is_transition_allowed (from_state i.current_state) to ≡ true)
        × (transition now i to reason ≡ (moved now i (from_state i.current_state) to reason, none)))
      ⊎ ((is_transition_allowed (from_state i.current_state) to ≡ false)
          × (transition now i to reason ≡ (i, some (refusal (from_state i.current_state) to))))
unfolding transition
transition_cases now i to reason =
    elim (Bool-cases (is_transition_allowed (from_state i.current_state) to)) [
      | inl yes_allowed ↦ inl (yes_allowed, rw yes_allowed)
      | inr refused ↦ inr (refused, rw refused)
    ]

-- An incident whose history leads from healthy to its state.
abbrev pub IsTraced : Incident → Type 0
IsTraced i = Chain healthy i.history (from_state i.current_state)

unset_refused : (s : State) → is_transition_allowed (from_state s) unset ≡ false
unfolding is_transition_allowed targets
unset_refused unset = refl
unset_refused healthy = refl
unset_refused _ = refl

allowed_real : (s to : State) → is_transition_allowed (from_state s) to ≡ true → to ≡ from_state to
unfolding is_transition_allowed targets
allowed_real s unset h = cc (unset_refused s)
allowed_real s healthy h = refl
allowed_real s _ h = refl

pub transition-IsTraced :
    (now : Time) (i : Incident) (to : State) (reason : String)
    → IsTraced i
    → IsTraced (transition now i to reason).0
transition-IsTraced now i to reason h = elim (transition_cases now i to reason) [
  | inl (a, e) ↦ rw e (
      Chain-snoc healthy (from_state i.current_state) _ i.history _ h refl a
        (allowed_real i.current_state to a))
  | inr (_, e) ↦ rw e h
]

-- Whatever is requested, the history of an incident is one chain of allowed moves from healthy to
-- its state.
pub run_requests-IsTraced :
    (i : Incident) (rs : List Request) → IsTraced i → IsTraced (run_requests i rs)
unfolding run_requests
run_requests-IsTraced i [] h = h
run_requests-IsTraced i (r ∷ rs) h =
    run_requests-IsTraced (transition r.at i r.target r.because).0 rs
      (transition-IsTraced r.at i r.target r.because h)

-- The states that come after a decision: those of the recovery, and waiting.
abbrev pub after_decision : State → Bool
after_decision decision_made = true
after_decision recovery_planned = true
after_decision executing_rollback = true
after_decision rollback_complete = true
after_decision verifying = true
after_decision verification_failed = true
after_decision retrying = true
after_decision waiting = true
after_decision _ = false

abbrev pub Visits : State → List StateTransition → Type 0
Visits s [] = ⊥
Visits s (m ∷ ms) = (m.to_state ≡ s) ⊎ Visits s ms

enters_by_decision :
    (s t : State)
    → is_transition_allowed s t ≡ true
    → after_decision s ≡ false
    → after_decision t ≡ true
    → t ≡ decision_made
unfolding is_transition_allowed targets
enters_by_decision unset decision_made a p q = refl
enters_by_decision s decision_made a p q = refl
enters_by_decision _ _ a p q = cc

after_decision-from_state :
    (s : State) → after_decision s ≡ true → after_decision (from_state s) ≡ true
after_decision-from_state unset h = cc
after_decision-from_state healthy h = h
after_decision-from_state _ h = h

Chain-Visits :
    (s t : State) (ms : List StateTransition)
    → Chain s ms t
    → after_decision s ≡ false
    → after_decision t ≡ true
    → Visits decision_made ms
Chain-Visits s t [] c p q = cc
Chain-Visits s t (m ∷ ms) c p q = elim (Bool-cases (after_decision m.to_state)) [
  | inl here ↦ inl (enters_by_decision m.from_state m.to_state c.1 (cc) here)
  | inr still ↦ inr (Chain-Visits m.to_state t ms c.2 still q)
]

-- An incident is in a state of the recovery only if its history has a decision: no sequence of
-- requests takes it to a rollback past the decision engine.
pub rollback_needs_decision :
    (i : Incident) (rs : List Request)
    → IsTraced i
    → after_decision (run_requests i rs).current_state ≡ true
    → Visits decision_made (run_requests i rs).history
rollback_needs_decision i rs h q =
    Chain-Visits healthy _ _ (run_requests-IsTraced i rs h) refl (after_decision-from_state _ q)

-- The moves that an operator has to request to bring an incident back to healthy.
pub way_home : State → List State
way_home unset = []
way_home healthy = []
way_home warning = recovered ∷ healthy ∷ []
way_home investigating = recovered ∷ healthy ∷ []
way_home verifying = recovered ∷ healthy ∷ []
way_home waiting = recovered ∷ healthy ∷ []
way_home recovered = healthy ∷ []
way_home failed = healthy ∷ []
way_home _ = failed ∷ healthy ∷ []

abbrev pub requests : Time → List State → List Request
requests now [] = []
requests now (s ∷ ss) = record { at = now; target = s; because = "" } ∷ requests now ss
