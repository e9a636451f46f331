-- ===== src/Operator/Pipeline/Ends.antt =====
-- How a recovery pipeline ends, whatever Helm and the health checks answer.
use summer_project.Prelude.{
  ℕ, zero, suc, ◌+◌, ◌≤◌, ltb, true, ◌||◌, ◌≡◌, refl, ap, ◌⊎◌, inl, inr, Option, none, some, List,
  [], ◌∷◌, String, arith, length, length-append, Bool-cases,
}
use summer_project.Prelude.Int.{ℤ}
use summer_project.Operator.Models.{
  Time, State, recovery_planned, executing_rollback, rollback_complete, verifying,
  verification_failed, retrying, failed, Incident, RecoveryPlan, RecoveryResult,
}
use summer_project.Operator.StateMachine.{transition, is_transition_allowed, from_state}
use summer_project.Operator.StateMachine.History.{transition_cases}
use summer_project.Operator.Executor.{HelmClient, execute}
use summer_project.Operator.Executor.Outcomes.{
  refused, not_started, rejected, completed, execute-Outcome,
}
use summer_project.Operator.Retry.{is_transient}
use summer_project.Operator.Pipeline.{
  Attempt, Run, saved, End, verified, exhausted, Next, done, again, any_passed, retry_move,
  verify_attempt, after_execution, asked_for, executed, next_attempt, attempts,
}

pub allowed_move :
    (now : Time) (i : Incident) (to : State) (reason : String)
    → is_transition_allowed (from_state i.current_state) to ≡ true
    → (transition now i to reason).0.current_state ≡ to
allowed_move now i to reason h = elim (transition_cases now i to reason) [
  | inl (allowed, e) ↦ rw e refl
  | inr (barred, e) ↦ cc (h, barred)
]

-- What Execute leaves, if the state machine lets it begin.
execute_states :
    (start end : Time) (env : String) (helm : HelmClient) (plan : RecoveryPlan) (i : Incident)
    → is_transition_allowed (from_state i.current_state) executing_rollback ≡ true
    → let x = execute start end env helm plan i in
      ((e : String) × (x.error ≡ some e) × (x.incident.current_state ≡ executing_rollback))
      ⊎ ((x.error ≡ none) × (x.incident.current_state ≡ rollback_complete))
execute_states start end env helm plan i h = elim (execute-Outcome start end env helm plan i) [
  | refused barred _ _ _ _ ↦ cc (h, barred)
  | not_started _ e _ _ fails ↦ inl (fails.0, fails.1, ap (λ j. j.current_state) e)
  | rejected t e _ _ _ same _ err ↦ inl (e, err, ap (λ j. j.current_state) same)
  | completed t r _ _ _ state _ err _ _ _ ↦ inr (err, state)
]

-- The state in which the next attempt begins: the first has no error behind it.
pub data Ready (k : ℕ) (last : Option String) (s : State) : Type 0 where
  first : k ≡ 1 → last ≡ none → s ≡ recovery_planned → Ready k last s
  later :
      (e : String)
      → last ≡ some e
      → ltb 1 k ≡ true
      → (s ≡ executing_rollback) ⊎ (s ≡ verification_failed)
      → Ready k last s

-- An end from which the state machine can close the incident, with at most `most` requests to Helm.
pub data Closes (most : ℕ) : End → Type 0 where
  closes_verified :
      (run : Run) (result : Option RecoveryResult)
      → run.incident.current_state ≡ verifying
      → length run.requests ≤ most
      → Closes most (verified run result)
  closes_exhausted :
      (run : Run) (result : Option RecoveryResult)
      → is_transition_allowed (from_state run.incident.current_state) failed ≡ true
      → length run.requests ≤ most
      → Closes most (exhausted run result)

pub data Goes (k most : ℕ) : Next → Type 0 where
  goes_done : (end : End) → Closes most end → Goes k most (done end)
  goes_again :
      (run : Run) (last : Option String) (result : Option RecoveryResult)
      → Ready k last run.incident.current_state
      → length run.requests ≤ most
      → Goes k most (again run last result)

saved_state : (run : Run) (i : Incident) → (saved run i).incident ≡ i
saved_state run i = refl

may_retry :
    (s : State)
    → (s ≡ executing_rollback) ⊎ (s ≡ verification_failed)
    → is_transition_allowed (from_state s) retrying ≡ true
unfolding is_transition_allowed
may_retry s (inl e) = rw e refl
may_retry s (inr e) = rw e refl

may_fail :
    (s : State)
    → (s ≡ executing_rollback) ⊎ (s ≡ verification_failed)
    → is_transition_allowed (from_state s) failed ≡ true
unfolding is_transition_allowed
may_fail s (inl e) = rw e refl
may_fail s (inr e) = rw e refl

pub moves_on :
    (s t u : State)
    → s ≡ t
    → is_transition_allowed (from_state t) u ≡ true
    → is_transition_allowed (from_state s) u ≡ true
moves_on s t u e h = rw e h

retry_move_allowed :
    (k : ℕ) (now : Time) (run : Run) (last : Option String)
    → Ready k last run.incident.current_state
    → is_transition_allowed
        (from_state (retry_move k now run last).incident.current_state)
        executing_rollback
      ≡ true
unfolding retry_move is_transition_allowed
retry_move_allowed k now run none (first one fresh s) = rw s refl
retry_move_allowed k now run none (later e some_error _ _) = cc
retry_move_allowed k now run (some e) (first one fresh s) = cc
retry_move_allowed k now run (some e) (later e' same more s) = rw more (
    moves_on _ retrying executing_rollback
      (allowed_move now run.incident retrying _ (may_retry _ s)) refl)

retry_move_requests :
    (k : ℕ) (now : Time) (run : Run) (last : Option String)
    → (retry_move k now run last).requests ≡ run.requests
unfolding retry_move
retry_move_requests k now run none = refl
retry_move_requests k now run (some e) = ground arith

length-asked_for :
    (r : Option ℤ) (requests : List ℤ) → length (asked_for r requests) ≤ suc (length requests)
length-asked_for none requests = omega arith
length-asked_for (some v) requests = omega (arith, length-append requests (v ∷ []))

more : (k : ℕ) → ltb 0 k ≡ true → ltb 1 (suc k) ≡ true
more k h = ground arith

after_error_Goes :
    (text : String) (a : Attempt) (k most : ℕ) (run : Run) (result : Option RecoveryResult)
    (e : String)
    → ltb 0 k ≡ true
    → run.incident.current_state ≡ executing_rollback
    → length run.requests ≤ most
    → Goes (suc k) most (after_execution text a run result (some e))
unfolding after_execution
after_error_Goes text a k most run result e positive s few =
    elim (Bool-cases (is_transient (some e))) [
      | inl passing ↦
          rw passing (goes_again run (some e) result (later e refl (more k positive) (inl s)) few)
      | inr final ↦ rw final (goes_done _ (closes_exhausted run result (may_fail _ (inl s)) few))
    ]

verify_attempt-Goes :
    (text : String) (a : Attempt) (k most : ℕ) (run : Run) (result : Option RecoveryResult)
    → ltb 0 k ≡ true
    → run.incident.current_state ≡ rollback_complete
    → length run.requests ≤ most
    → Goes (suc k) most (verify_attempt text a run result)
unfolding verify_attempt is_transition_allowed
verify_attempt-Goes text a k most run result positive s few =
    let checking =
      allowed_move a.ended_at run.incident verifying "Validating system health"
        (moves_on _ rollback_complete verifying s refl) in
    elim (Bool-cases (a.first_check || any_passed a.checks)) [
      | inl passed ↦ rw passed (goes_done _ (closes_verified _ result checking few))
      | inr not_passed ↦ rw not_passed (
          goes_again _ _ result
            (later _ refl (more k positive) (
              inr (
                allowed_move a.verified_at _ verification_failed _
                  (moves_on _ verifying verification_failed checking refl))))
            few)
    ]

Ready-positive : (k : ℕ) (last : Option String) (s : State) → Ready k last s → ltb 0 k ≡ true
Ready-positive k last s (first one _ _) = ground (arith, one)
Ready-positive k last s (later e _ h _) = ground (arith, h)

Ready-fails :
    (k : ℕ) (last : Option String) (s : State)
    → Ready k last s
    → is_transition_allowed (from_state s) failed ≡ true
unfolding is_transition_allowed
Ready-fails k last s (first _ _ e) = rw e refl
Ready-fails k last s (later _ _ _ h) = may_fail s h

next_attempt-Goes :
    (text env : String) (a : Attempt) (k most : ℕ) (run : Run) (last : Option String)
    → Ready k last run.incident.current_state
    → length run.requests ≤ most
    → Goes (suc k) (suc most) (next_attempt text env a k run last)
unfolding next_attempt after_execution
next_attempt-Goes text env a k most run last ready few =
    let begun = retry_move k a.retried_at run last in
    let x = execute a.started_at a.ended_at env a.helm begun.plan begun.incident in
    let fewer : length (executed begun x).requests ≤ suc most = omega (
      arith,
      length-asked_for x.requested begun.requests,
      ap length (retry_move_requests k a.retried_at run last),
      few,
    ) in
    let positive = Ready-positive k last _ ready in
    elim (execute_states a.started_at a.ended_at env a.helm begun.plan begun.incident
      (retry_move_allowed k a.retried_at run last ready)) [
        | inl (e, err, s) ↦
            rw err
              (after_error_Goes text a k (suc most) (executed begun x) x.result e positive s fewer)
        | inr (err, s) ↦
            rw err
              (verify_attempt-Goes text a k (suc most) (executed begun x) x.result positive s fewer)
      ]

pub Closes-mono : (m n : ℕ) (end : End) → m ≤ n → Closes m end → Closes n end
Closes-mono m n _ h (closes_verified run result s few) =
    closes_verified run result s (omega (arith, h, few))
Closes-mono m n _ h (closes_exhausted run result s few) =
    closes_exhausted run result s (omega (arith, h, few))

pub attempts-Closes :
    (text env : String) (inputs : ℕ → Attempt) (n k most : ℕ) (next : Next)
    → Goes k most next
    → Closes (most + n) (attempts text env inputs n k next)
unfolding attempts
attempts-Closes text env inputs n k most _ (goes_done end c) =
    Closes-mono most (most + n) end (omega arith) c
attempts-Closes text env inputs zero k most _ (goes_again run last result ready few) =
    closes_exhausted run result (Ready-fails k last _ ready) (omega (arith, few))
attempts-Closes text env inputs (suc n) k most _ (goes_again run last result ready few) =
    Closes-mono (suc most + n) (most + suc n) _ (omega arith) (
      attempts-Closes text env inputs n (suc k) (suc most) _
        (next_attempt-Goes text env (inputs k) k most run last ready few))
