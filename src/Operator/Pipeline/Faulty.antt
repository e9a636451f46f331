-- ===== src/Operator/Pipeline/Faulty.antt =====
-- The attempts of a pipeline are for its service, and a verified one was told the revision it replaces.
use summer_project.Prelude.{
  ◌≤◌, ◌+◌, ℕ, zero, suc, ◌||◌, ◌≡◌, refl, subst, sym, ◌∙◌, inl, inr, Option, none, some, String,
  arith, Bool-cases,
}
use summer_project.Operator.Models.{Time, RecoveryPlan, RecoveryResult}
use summer_project.Operator.Retry.{is_transient}
use summer_project.Operator.Executor.{execute}
use summer_project.Operator.Executor.Outcomes.{execute-service_id, Replaces, execute-Replaces}
use summer_project.Operator.Pipeline.{
  Attempt, Run, End, verified, exhausted, Next, done, again, any_passed, retry_move, verify_attempt,
  after_execution, executed, next_attempt, attempts,
}

-- What is known of the result of a verified attempt.
abbrev pub Known : Type 1
Known = Option RecoveryResult → Type 0

-- The attempts are all for one service, and what is known holds of the one that was verified.
abbrev pub EndFor : Known → String → End → Type 0
EndFor K s (verified run result) = (run.plan.service_id ≡ s) × K result
EndFor K s (exhausted run result) = run.plan.service_id ≡ s

abbrev pub NextFor : Known → String → Next → Type 0
NextFor K s (done end) = EndFor K s end
NextFor K s (again run last result) = run.plan.service_id ≡ s

verify_attempt-NextFor :
    (K : Known) (text s : String) (a : Attempt) (run : Run) (result : Option RecoveryResult)
    → run.plan.service_id ≡ s
    → K result
    → NextFor K s (verify_attempt text a run result)
unfolding verify_attempt
verify_attempt-NextFor K text s a run result own known =
    elim (Bool-cases (a.first_check || any_passed a.checks)) [
      | inl passed ↦ rw passed (own, known)
      | inr not_passed ↦ rw not_passed own
    ]

after_execution-NextFor :
    (K : Known) (text s : String) (a : Attempt) (run : Run) (result : Option RecoveryResult)
    (e : Option String)
    → run.plan.service_id ≡ s
    → (e ≡ none → K result)
    → NextFor K s (after_execution text a run result e)
unfolding after_execution
after_execution-NextFor K text s a run result none own known =
    verify_attempt-NextFor K text s a run result own (known refl)
after_execution-NextFor K text s a run result (some e) own known =
    elim (Bool-cases (is_transient (some e))) [
      | inl passing ↦ rw passing own
      | inr final ↦ rw final own
    ]

retry_move-plan :
    (k : ℕ) (now : Time) (run : Run) (last : Option String)
    → (retry_move k now run last).plan ≡ run.plan
unfolding retry_move
retry_move-plan k now run none = refl
retry_move-plan k now run (some e) = ground arith

-- One of the attempts, of which there are `most`, was told the revision that it replaces.
abbrev pub FaultyIn : String → (ℕ → Attempt) → ℕ → String → Option RecoveryResult → Type 0
FaultyIn env inputs most service result =
    (k : ℕ) × (1 ≤ k) × (k ≤ most) × Replaces env (inputs k).helm service result

next_attempt-NextFor :
    (text env s : String) (inputs : ℕ → Attempt) (most k : ℕ) (run : Run) (last : Option String)
    → 1 ≤ k
    → k ≤ most
    → run.plan.service_id ≡ s
    → NextFor (FaultyIn env inputs most s) s (next_attempt text env (inputs k) k run last)
unfolding next_attempt
next_attempt-NextFor text env s inputs most k run last from upto own =
    let a = inputs k in
    let begun = retry_move k a.retried_at run last in
    let x = execute a.started_at a.ended_at env a.helm begun.plan begun.incident in
    let same =
      subst (λ (p : RecoveryPlan). p.service_id ≡ s) (sym (retry_move-plan k a.retried_at run last))
        own in
    after_execution-NextFor (FaultyIn env inputs most s) text s a (executed begun x) x.result
      x.error
      (execute-service_id a.started_at a.ended_at env a.helm begun.plan begun.incident ∙ same)
      (λ fine. (
        k,
        from,
        upto,
        subst (λ (service : String). Replaces env a.helm service x.result) same
            (execute-Replaces a.started_at a.ended_at env a.helm begun.plan begun.incident fine),
      ))

pub attempts-EndFor :
    (text env s : String) (inputs : ℕ → Attempt) (most n k : ℕ) (next : Next)
    → 1 ≤ k
    → k + n ≤ suc most
    → NextFor (FaultyIn env inputs most s) s next
    → EndFor (FaultyIn env inputs most s) s (attempts text env inputs n k next)
unfolding attempts
attempts-EndFor text env s inputs most n k (done end) from upto own = own
attempts-EndFor text env s inputs most zero k (again run last result) from upto own = own
attempts-EndFor text env s inputs most (suc n) k (again run last result) from upto own =
    attempts-EndFor text env s inputs most n (suc k) _ (omega arith) (omega (arith, upto))
      (next_attempt-NextFor text env s inputs most k run last from (omega (arith, upto)) own)
